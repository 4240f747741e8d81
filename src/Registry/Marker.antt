-- ===== src/Registry/Marker.antt =====
-- internal/registry/gcs.go: `newGCSRegistry`, which claims a bucket for a password or checks that
-- it was claimed with it. The registry it returns keeps nothing but the bucket, so the model
-- returns the crypter alone. Random bytes and base64 are parameters.
use comeback.Prelude.{[], ◌∷◌}
use comeback.Prelude.Go.{Bytes, codes, message, wrap, Result, ok, err, panic, within, ◌>>=◌}
use comeback.Blob.Gcs.{Object}
use comeback.Blob.ObjectRecord.{find_key, require}
use comeback.Crypto.{
  Opened, opened, not_authentic, failed, Siv, KeyDeriver, SivCrypter, new_crypter, siv_encrypt,
  siv_decrypt,
}
use comeback.Registry.{MetadataRequest, Stat, RegistryBucket}

abbrev pub marker_object_name : Bytes
marker_object_name = codes "marker"

abbrev pub marker_object_metadata_salt : Bytes
marker_object_metadata_salt = codes "base64_salt"

abbrev pub marker_object_metadata_ciphertext : Bytes
marker_object_metadata_ciphertext = codes "base64_ciphertext"

-- base64.StdEncoding
pub record Base64 : Type 0 where
  pub encode_to_string : Bytes → Bytes
  pub decode_string : Bytes → Result Bytes

-- What reading eight random bytes gives, the first time and the second.
pub record RandSrc : Type 0 where
  pub salt : Result Bytes
  pub plaintext : Result Bytes

pub record Claim : Type 0 where
  pub crypter : SivCrypter
  pub request : MetadataRequest

-- The marker object's metadata.
abbrev pub marker_request : Base64 → (salt ciphertext : Bytes) → MetadataRequest
marker_request base64 salt ciphertext = record {
  name = marker_object_name;
  metadata =
      (marker_object_metadata_salt, base64.encode_to_string salt)
      ∷ (marker_object_metadata_ciphertext, base64.encode_to_string ciphertext)
      ∷ [];
}

abbrev pub check_opened : SivCrypter → Opened → Result SivCrypter
check_opened crypter (opened plaintext) = ok crypter
check_opened crypter (not_authentic e) = err (message "The supplied password is incorrect.")
check_opened crypter (failed e) = err (wrap "Decrypt" e)

module _ (siv : Siv) (base64 : Base64) (derive_key : KeyDeriver) where
  unfoldable pub verify_compatible : (crypto_password : Bytes) → Object → Result SivCrypter
  verify_compatible crypto_password o = do
    salt_base64 ←
        require (find_key marker_object_metadata_salt o.metadata)
          (message "Missing salt metadata key.")
    ciphertext_base64 ←
        require (find_key marker_object_metadata_ciphertext o.metadata)
          (message "Missing ciphertext metadata key.")
    password_salt ← within "Decoding password salt" (base64.decode_string salt_base64)
    ciphertext ← within "Decoding ciphertext" (base64.decode_string ciphertext_base64)
    crypter ← within "createCrypter" (new_crypter (derive_key crypto_password password_salt))
    check_opened crypter (siv_decrypt siv crypter ciphertext)

  -- What is done to claim a bucket, before the marker is written.
  abbrev pub make_claim : (crypto_password : Bytes) → RandSrc → Result Claim
  make_claim crypto_password rand = do
    salt ← within "Reading random bytes for salt" rand.salt
    crypter ← within "createCrypter" (new_crypter (derive_key crypto_password salt))
    plaintext ← within "Reading random bytes for plaintext" rand.plaintext
    ciphertext ← within "Encrypt" (siv_encrypt siv crypter plaintext)
    ok (record { crypter = crypter; request = marker_request base64 salt ciphertext })

  module _ {B : Type 0} (bucket : RegistryBucket B) where
    abbrev pub write_marker : Result Claim → B → Result SivCrypter × B
    write_marker (err e) b = (err e, b)
    write_marker panic b = (panic, b)
    write_marker (ok claim) b =
        let (r, b') = bucket.create_object claim.request b in
        (within "CreateObject" r >>= λ _. ok claim.crypter, b')

    abbrev pub on_stat : (crypto_password : Bytes) → RandSrc → Stat → B → Result SivCrypter × B
    on_stat crypto_password rand (Stat.failed e) b = (err (wrap "StatObject" e), b)
    on_stat crypto_password rand (Stat.found o) b = (verify_compatible crypto_password o, b)
    on_stat crypto_password rand Stat.not_found b = write_marker (make_claim crypto_password rand) b

    unfoldable pub new_gcs_registry :
        (crypto_password : Bytes) → RandSrc → B → Result SivCrypter × B
    new_gcs_registry crypto_password rand b =
        on_stat crypto_password rand (bucket.stat_object marker_object_name b) b
