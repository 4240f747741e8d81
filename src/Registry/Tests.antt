-- ===== src/Registry/Tests.antt =====
-- internal/registry on a bucket that is a list of objects, with small cryptography.
use comeback.Prelude.{◌≡◌, refl, true, none, List, [], ◌∷◌, ◌++◌, arith, if◌then◌else◌}
use comeback.Prelude.Go.{
  Bytes, codes, Error, message, ok, err, eq_bytes, eq_bytes_self, has_prefix, drop_prefix,
  has_prefix-append, drop_prefix-append,
}
use comeback.Blob.Gcs.{Object}
use comeback.Blob.Sample.{pad, length-pad, pad-bytes}
use comeback.Verify.RecordText.{TimeFormat}
use comeback.Crypto.{opened, not_authentic, Siv, KeyDeriver, SivCrypter, new_crypter}
use comeback.Registry.{MetadataRequest, Stat, RegistryBucket}
use comeback.Registry.Jobs.{
  CompletedJob, record_backup, list_backups, ListingLaws, list_backups-record_backup,
}
use comeback.Registry.Marker.{Base64, RandSrc, new_gcs_registry}
use comeback.Registry.Claimed.{StatLaws, new_gcs_registry_again, new_gcs_registry_rejects}

abbrev object_of : MetadataRequest → Object
object_of req = record { name = req.name; crc32c = 0; md5 = none; metadata = req.metadata }

abbrev stat : List Object → Bytes → Stat
stat [] name = Stat.not_found
stat (o ∷ os) name = if eq_bytes o.name name then Stat.found o else stat os name

abbrev with_prefix : List Object → Bytes → List Object
with_prefix [] prefix = []
with_prefix (o ∷ os) prefix =
    if has_prefix o.name prefix then o ∷ with_prefix os prefix else with_prefix os prefix

abbrev objects : RegistryBucket (List Object)
objects = record {
  create_object = λ req b. (ok (object_of req), object_of req ∷ b);
  stat_object = λ name b. stat b name;
  list_all = λ prefix b. ok (with_prefix b prefix);
}

insert_listed :
    (req : MetadataRequest) (b : List Object) (prefix : Bytes) (os : List Object)
    → has_prefix req.name prefix ≡ true
    → ok (with_prefix b prefix) ≡ ok os
    → ok (with_prefix (object_of req ∷ b) prefix) ≡ ok (object_of req ∷ os)
insert_listed req b prefix os h e = ground arith

listing_laws : ListingLaws objects
listing_laws = record {
  listed = λ req b made prefix os c h e.
      (object_of req, [], os, refl, insert_listed req b prefix os h e, refl, refl);
}

stat_created :
    (req : MetadataRequest) (b : List Object)
    → stat (object_of req ∷ b) req.name ≡ Stat.found (object_of req)
stat_created req b = ground (arith, eq_bytes_self req.name)

stat_laws : StatLaws objects
stat_laws = record { created = λ req b made h. (object_of req, stat_created req b, refl) }

abbrev siv : Siv
siv = record {
  encrypt = λ key plaintext. ok (key ++ plaintext);
  decrypt = λ key ciphertext.
      if has_prefix ciphertext key
      then opened (drop_prefix ciphertext key)
      else not_authentic (Error.outside 1);
}

siv_decrypts :
    (key plaintext ciphertext : Bytes)
    → siv.encrypt key plaintext ≡ ok ciphertext
    → siv.decrypt key ciphertext ≡ opened plaintext
siv_decrypts key plaintext ciphertext h =
    ground (arith, has_prefix-append key plaintext, drop_prefix-append key plaintext)

abbrev plain : Base64
plain = record { encode_to_string = λ b. b; decode_string = ok }

abbrev derive_key : KeyDeriver
derive_key password salt = pad 32 password

abbrev rand : RandSrc
rand = record { salt = ok (codes "salt"); plaintext = ok (codes "text") }

abbrev claimed : List Object
claimed = (new_gcs_registry siv plain derive_key objects (codes "password") rand []).1

abbrev crypter : SivCrypter
crypter = record { key = pad 32 (codes "password") }

opens : (new_gcs_registry siv plain derive_key objects (codes "password") rand []).0 ≡ ok crypter
unfolding new_gcs_registry new_crypter
opens = refl

new_gcs_registry_again_example :
    new_gcs_registry siv plain derive_key objects (codes "password") rand claimed
    ≡ (ok crypter, claimed)
new_gcs_registry_again_example =
    new_gcs_registry_again siv plain derive_key objects (record { decodes = λ b. refl }) stat_laws
      (record { decrypts = siv_decrypts }) (codes "password") rand rand [] claimed crypter refl
      opens refl

other_key :
    (plaintext ciphertext : Bytes)
    → siv.encrypt (pad 32 (codes "password")) plaintext ≡ ok ciphertext
    → (e : Error) × (siv.decrypt (pad 32 (codes "other")) ciphertext ≡ not_authentic e)
other_key plaintext ciphertext h = (Error.outside 1, ground arith)

other_made : (c : SivCrypter) × (new_crypter (pad 32 (codes "other")) ≡ ok c)
unfolding new_crypter
other_made = (record { key = pad 32 (codes "other") }, refl)

new_gcs_registry_rejects_example :
    new_gcs_registry siv plain derive_key objects (codes "other") rand claimed
    ≡ (err (message "The supplied password is incorrect."), claimed)
new_gcs_registry_rejects_example =
    new_gcs_registry_rejects siv plain derive_key objects (record { decodes = λ b. refl }) stat_laws
      (codes "password") (codes "other") rand rand [] claimed crypter
      (λ salt plaintext ciphertext h. other_key plaintext ciphertext h) (λ salt. other_made) refl
      opens refl

abbrev times : TimeFormat Bytes
times = record { format = λ t. t; parse = ok }

abbrev job : CompletedJob Bytes
job = record {
  start_time = codes "2015-06-07T00:00:00Z";
  name = codes "home";
  score = pad 20 (codes "root");
}

none_listed : list_backups times objects [] ≡ ok []
unfolding list_backups
none_listed = refl

recorded : (record_backup times objects job []).0 ≡ ok tt
unfolding record_backup
recorded = refl

list_backups-record_backup_example :
    (js ks : List (CompletedJob Bytes)) × ([] ≡ js ++ ks)
    × (list_backups times objects (record_backup times objects job []).1 ≡ ok (js ++ job ∷ ks))
list_backups-record_backup_example =
    list_backups-record_backup times objects listing_laws job [] [] refl refl
      (length-pad 20 (codes "root"), pad-bytes 20 (codes "root")) none_listed recorded
