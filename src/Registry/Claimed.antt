-- ===== src/Registry/Claimed.antt =====
-- internal/registry/gcs.go: a bucket that was claimed for a password is opened with that password,
-- and with no other.
use comeback.Prelude.{◌≡◌, refl, sym, ap, ◌∙◌, arith}
use comeback.Prelude.Go.{
  Bytes, Error, message, Result, ok, err, panic, within, ◌>>=◌, >>=-passes, within-eq-ok,
}
use comeback.Blob.Gcs.{Object}
use comeback.Crypto.{
  opened, not_authentic, Siv, KeyDeriver, SivCrypter, new_crypter, siv_encrypt, siv_decrypt,
}
use comeback.Registry.{MetadataRequest, Stat, RegistryBucket}
use comeback.Registry.Marker.{
  marker_object_name, marker_request, Base64, RandSrc, Claim, verify_compatible, make_claim,
  check_opened, new_gcs_registry,
}

-- What is documented of AES-SIV, base64 and the bucket: what was encrypted is decrypted with the same key,
-- what was encoded is decoded, and an object that was created is found, with its metadata.
pub record SivLaws (siv : Siv) : Type 0 where
  pub decrypts :
      (key plaintext ciphertext : Bytes)
      → siv.encrypt key plaintext ≡ ok ciphertext
      → siv.decrypt key ciphertext ≡ opened plaintext

pub record Base64Laws (base64 : Base64) : Type 0 where
  pub decodes : (b : Bytes) → base64.decode_string (base64.encode_to_string b) ≡ ok b

pub record StatLaws {B : Type 0} (bucket : RegistryBucket B) : Type 0 where
  pub created :
      (req : MetadataRequest) (b : B) (made : Object)
      → (bucket.create_object req b).0 ≡ ok made
      → (o : Object) × (bucket.stat_object req.name (bucket.create_object req b).1 ≡ Stat.found o)
        × (o.metadata ≡ req.metadata)

key-new_crypter : (key : Bytes) (c : SivCrypter) → new_crypter key ≡ ok c → c.key ≡ key
unfolding new_crypter
key-new_crypter key c h = ground arith

module _ (siv : Siv) (base64 : Base64) (derive_key : KeyDeriver) where
  -- How a claim was made.
  record Made (crypto_password : Bytes) (claim : Claim) : Type 0 where
    salt : Bytes
    plaintext : Bytes
    ciphertext : Bytes
    crypter : new_crypter (derive_key crypto_password salt) ≡ ok claim.crypter
    encrypted : siv.encrypt claim.crypter.key plaintext ≡ ok ciphertext
    request : claim.request ≡ marker_request base64 salt ciphertext

  made_of :
      (crypto_password : Bytes) (claim : Claim) (salt plaintext ciphertext : Bytes)
      (crypter : SivCrypter)
      → new_crypter (derive_key crypto_password salt) ≡ ok crypter
      → siv.encrypt crypter.key plaintext ≡ ok ciphertext
      → ok (record { crypter = crypter; request = marker_request base64 salt ciphertext })
        ≡ ok claim
      → Made crypto_password claim
  made_of crypto_password claim salt plaintext ciphertext crypter h k e =
      let made : record { crypter = crypter; request = marker_request base64 salt ciphertext }
          ≡ claim =
        ground arith in
      record {
        salt = salt;
        plaintext = plaintext;
        ciphertext = ciphertext;
        crypter = rw (← made) h;
        encrypted = rw (← made) k;
        request = ap (λ (c : Claim). c.request) (sym made);
      }

  Made-make_claim :
      (crypto_password : Bytes) (rand : RandSrc) (claim : Claim)
      → make_claim siv base64 derive_key crypto_password rand ≡ ok claim
      → Made crypto_password claim
  Made-make_claim crypto_password rand claim h =
      let (salt, salt_read, h1) =
        >>=-passes (within "Reading random bytes for salt" rand.salt) _ h in
      let (crypter, created, h2) =
        >>=-passes (within "createCrypter" (new_crypter (derive_key crypto_password salt))) _ h1 in
      let (plaintext, plaintext_read, h3) =
        >>=-passes (within "Reading random bytes for plaintext" rand.plaintext) _ h2 in
      let (ciphertext, encrypted, h4) =
        >>=-passes (within "Encrypt" (siv_encrypt siv crypter plaintext)) _ h3 in
      made_of crypto_password claim salt plaintext ciphertext crypter
        (within-eq-ok "createCrypter" (new_crypter (derive_key crypto_password salt)) created)
        (within-eq-ok "Encrypt" (siv.encrypt crypter.key plaintext) encrypted) h4

module _ {B : Type 0} (siv : Siv) (base64 : Base64) (derive_key : KeyDeriver)
    (bucket : RegistryBucket B) (base64_laws : Base64Laws base64) (laws : StatLaws bucket) where
  -- The marker of a claim.
  record Marked (claim : Claim) (b : B) : Type 0 where
    o : Object
    found : bucket.stat_object marker_object_name b ≡ Stat.found o
    metadata : o.metadata ≡ claim.request.metadata

  -- What a successful claim has left in the bucket.
  claimed :
      (crypto_password : Bytes) (rand : RandSrc) (b : B) (crypter : SivCrypter)
      → bucket.stat_object marker_object_name b ≡ Stat.not_found
      → (new_gcs_registry siv base64 derive_key bucket crypto_password rand b).0 ≡ ok crypter
      → (claim : Claim) × Made siv base64 derive_key crypto_password claim
        × (claim.crypter ≡ crypter)
        × Marked claim (new_gcs_registry siv base64 derive_key bucket crypto_password rand b).1
  unfolding new_gcs_registry
  claimed crypto_password rand b crypter absent h =
      go (make_claim siv base64 derive_key crypto_password rand) refl
    where
      go :
          (m : Result Claim)
          → make_claim siv base64 derive_key crypto_password rand ≡ m
          → (claim : Claim) × Made siv base64 derive_key crypto_password claim
            × (claim.crypter ≡ crypter)
            × Marked claim (new_gcs_registry siv base64 derive_key bucket crypto_password rand b).1
      go (err e) q = absurd (ground (arith, absent, q))
      go panic q = absurd (ground (arith, absent, q))
      go (ok claim) q =
          let m = Made-make_claim siv base64 derive_key crypto_password rand claim q in
          let w : (within "CreateObject" (bucket.create_object claim.request b).0 >>= λ made.
          ok claim.crypter)
              ≡ ok crypter =
            ground (arith, absent, q) in
          let (made, created, last) =
            >>=-passes (within "CreateObject" (bucket.create_object claim.request b).0) _ w in
          let (o, found, metadata) =
            laws.created claim.request b made
              (within-eq-ok "CreateObject" (bucket.create_object claim.request b).0 created) in
          let name : claim.request.name ≡ marker_object_name =
            ap (λ (r : MetadataRequest). r.name) m.request in
          (
            claim,
            m,
            ground (arith, last),
            record { o = o; found = ground (arith, absent, q, found, name); metadata = metadata },
          )

  -- What checking finds in the marker of a claim.
  verify_compatible_made :
      (crypto_password other : Bytes) (claim : Claim) (o : Object)
      (m : Made siv base64 derive_key crypto_password claim)
      → o.metadata ≡ claim.request.metadata
      → verify_compatible siv base64 derive_key other o ≡ (
          within "createCrypter" (new_crypter (derive_key other m.salt)) >>= λ crypter.
          check_opened crypter (siv_decrypt siv crypter m.ciphertext))
  unfolding verify_compatible
  verify_compatible_made crypto_password other claim o m e =
      ground (arith, m.request, base64_laws.decodes m.salt, base64_laws.decodes m.ciphertext)

  -- A bucket that was claimed for a password is opened with it: the crypter is that of the claim, and
  -- nothing changes. The marker is still there, encrypted texts are decrypted with their key, and
  -- encoded ones decoded.
  pub new_gcs_registry_again :
      (siv_laws : SivLaws siv) (crypto_password : Bytes) (rand rand' : RandSrc) (b b' : B)
      (crypter : SivCrypter)
      → bucket.stat_object marker_object_name b ≡ Stat.not_found
      → (new_gcs_registry siv base64 derive_key bucket crypto_password rand b).0 ≡ ok crypter
      → bucket.stat_object marker_object_name b'
        ≡ bucket.stat_object marker_object_name
            (new_gcs_registry siv base64 derive_key bucket crypto_password rand b).1
      → new_gcs_registry siv base64 derive_key bucket crypto_password rand' b' ≡ (ok crypter, b')
  unfolding new_gcs_registry
  new_gcs_registry_again siv_laws crypto_password rand rand' b b' crypter absent h same =
      let (claim, m, is_it, left) = claimed crypto_password rand b crypter absent h in
      ground (
        arith,
        same ∙ left.found,
        verify_compatible_made crypto_password crypto_password claim left.o m left.metadata,
        m.crypter,
        siv_laws.decrypts claim.crypter.key m.plaintext m.ciphertext m.encrypted,
        is_it,
      )

  -- A bucket that was claimed for a password is not opened with another, and does not change: the
  -- error says that the password is incorrect. The marker is still there, encoded texts are decoded,
  -- a text that was encrypted under the first password's key is not authentic under the other's, and
  -- the other's keys are of a length that is accepted.
  pub new_gcs_registry_rejects :
      (crypto_password other : Bytes) (rand rand' : RandSrc) (b b' : B) (crypter : SivCrypter)
      → ((salt plaintext ciphertext : Bytes)
          → siv.encrypt (derive_key crypto_password salt) plaintext ≡ ok ciphertext
          → (e : Error) × (siv.decrypt (derive_key other salt) ciphertext ≡ not_authentic e))
      → ((salt : Bytes) → (c : SivCrypter) × (new_crypter (derive_key other salt) ≡ ok c))
      → bucket.stat_object marker_object_name b ≡ Stat.not_found
      → (new_gcs_registry siv base64 derive_key bucket crypto_password rand b).0 ≡ ok crypter
      → bucket.stat_object marker_object_name b'
        ≡ bucket.stat_object marker_object_name
            (new_gcs_registry siv base64 derive_key bucket crypto_password rand b).1
      → new_gcs_registry siv base64 derive_key bucket other rand' b'
        ≡ (err (message "The supplied password is incorrect."), b')
  unfolding new_gcs_registry
  new_gcs_registry_rejects crypto_password other rand rand' b b' crypter wrong length absent h
        same =
      let (claim, m, is_it, left) = claimed crypto_password rand b crypter absent h in
      let (c, made) = length m.salt in
      let key = key-new_crypter (derive_key crypto_password m.salt) claim.crypter m.crypter in
      let (e, rejected) = wrong m.salt m.plaintext m.ciphertext (rw (← key) m.encrypted) in
      ground (
        arith,
        same ∙ left.found,
        verify_compatible_made crypto_password other claim left.o m left.metadata,
        made,
        key-new_crypter (derive_key other m.salt) c made,
        rejected,
      )
