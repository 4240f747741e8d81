-- ===== src/Crypto.antt =====
-- internal/crypto/crypter.go and deriver.go. AES-SIV and PBKDF2 are parameters.
use comeback.Prelude.{◌||◌, ◌==◌, if◌then◌else◌, length}
use comeback.Prelude.Go.{Bytes, Error, message, Result, ok, err}
use comeback.Blob.Store.{Crypter}

-- What decrypting gives. A `NotAuthenticError` is told from other errors by its type.
pub data Opened : Type 0 where
  opened : Bytes → Opened
  not_authentic : Error → Opened
  failed : Error → Opened

-- The package siv: the key comes first.
pub record Siv : Type 0 where
  pub encrypt : Bytes → Bytes → Result Bytes
  pub decrypt : Bytes → Bytes → Opened

-- A `KeyDeriver`: the key for a password and a salt.
abbrev pub KeyDeriver : Type 0
KeyDeriver = Bytes → Bytes → Bytes

pub record SivCrypter : Type 0 where
  pub key : Bytes

unfoldable pub new_crypter : Bytes → Result SivCrypter
new_crypter key =
    if length key == 32 || length key == 48 || length key == 64
    then ok (record { key = key })
    else err (message "NewCrypter requires a 32-, 48-, or 64-byte key.")

module _ (siv : Siv) where
  abbrev pub siv_encrypt : SivCrypter → Bytes → Result Bytes
  siv_encrypt c plaintext = siv.encrypt c.key plaintext

  abbrev pub siv_decrypt : SivCrypter → Bytes → Opened
  siv_decrypt c ciphertext = siv.decrypt c.key ciphertext

  abbrev error_of : Opened → Result Bytes
  error_of (opened plaintext) = ok plaintext
  error_of (not_authentic e) = err e
  error_of (failed e) = err e

  -- For callers that do not tell the errors apart.
  abbrev pub crypter_of : SivCrypter → Crypter
  crypter_of c = record {
    encrypt = siv_encrypt c;
    decrypt = λ ciphertext. error_of (siv_decrypt c ciphertext);
  }
