-- ===== src/Registry/Jobs.antt =====
-- internal/registry/gcs.go: `RecordBackup`, `parseObjectAsJob` and `ListBackups`.
use comeback.Prelude.{
  ◌≡◌, refl, sym, ap, ◌∙◌, true, false, List, [], ◌∷◌, ◌++◌, arith, if◌then◌else◌, is_empty,
  Bool-cases, inl, inr,
}
use comeback.Prelude.Go.{
  Bytes, codes, message, Result, ok, within, ◌>>=◌, >>=-passes, within-eq-ok, eq_bytes, has_prefix,
  drop_prefix, has_prefix-append, drop_prefix-append,
}
use comeback.Blob.Score.{Score, IsScore, hex, parse_hex_score, parse_hex_score-hex}
use comeback.Blob.Gcs.{Object}
use comeback.Blob.ObjectRecord.{require_key, guard}
use comeback.Verify.RecordText.{TimeFormat}
use comeback.Registry.{MetadataRequest, RegistryBucket}

abbrev pub gcs_job_key_prefix : Bytes
gcs_job_key_prefix = codes "jobs/"

abbrev pub gcs_metadata_key_name : Bytes
gcs_metadata_key_name = codes "job_name"

abbrev pub gcs_metadata_key_score : Bytes
gcs_metadata_key_score = codes "hex_score"

pub record CompletedJob (T : Type 0) : Type 0 where
  pub start_time : T
  pub name : Bytes
  pub score : Score

-- `f` formats a time in UTC.
module _ {T : Type 0} (f : TimeFormat T) where
  unfoldable pub job_request : CompletedJob T → MetadataRequest
  job_request j = record {
    name = gcs_job_key_prefix ++ f.format j.start_time;
    metadata = (gcs_metadata_key_name, j.name) ∷ (gcs_metadata_key_score, hex j.score) ∷ [];
  }

  unfoldable pub record_backup :
      {B : Type 0} → RegistryBucket B → CompletedJob T → B → Result (Unit {0}) × B
  record_backup bucket j b =
      let (r, b') = bucket.create_object (job_request j) b in
      (within "CreateObject" r >>= λ _. ok tt, b')

  unfoldable pub parse_object_as_job : Object → Result (CompletedJob T)
  parse_object_as_job o = do
    _ ← guard (has_prefix o.name gcs_job_key_prefix) (message "Unexpected object name")
    let formatted_time = drop_prefix o.name gcs_job_key_prefix
    start_time ← within "Parsing time" (f.parse formatted_time)
    name ← require_key gcs_metadata_key_name o.metadata
    hex_score ← require_key gcs_metadata_key_score o.metadata
    score ← within "Parsing hex score" (parse_hex_score hex_score)
    ok (record { start_time = start_time; name = name; score = score })

  -- The loop over the objects, which skips the one whose name is the prefix.
  abbrev pub parse_jobs : List Object → Result (List (CompletedJob T))
  parse_jobs [] = ok []
  parse_jobs (o ∷ os) =
      let rest = parse_jobs os in
      if eq_bytes o.name gcs_job_key_prefix
      then rest
      else (do j ← within "parseObjectAsJob" (parse_object_as_job o); js ← rest; ok (j ∷ js))

  unfoldable pub list_backups : {B : Type 0} → RegistryBucket B → B → Result (List (CompletedJob T))
  list_backups bucket b = do
    objects ← within "gcsutil.ListAll" (bucket.list_all gcs_job_key_prefix b)
    parse_jobs objects

  -- A job that is recorded is parsed from the object that was created for it.
  pub parse_object_as_job-job_request :
      (j : CompletedJob T) (o : Object)
      → f.parse (f.format j.start_time) ≡ ok j.start_time
      → IsScore j.score
      → o.name ≡ (job_request j).name
      → o.metadata ≡ (job_request j).metadata
      → parse_object_as_job o ≡ ok j
  unfolding parse_object_as_job job_request
  parse_object_as_job-job_request j o time v n m = ground (
    arith,
    parse_hex_score-hex j.score v,
    has_prefix-append gcs_job_key_prefix (f.format j.start_time),
    drop_prefix-append gcs_job_key_prefix (f.format j.start_time),
  )

  name-job_request :
      (j : CompletedJob T) → (job_request j).name ≡ gcs_job_key_prefix ++ f.format j.start_time
  unfolding job_request
  name-job_request j = refl

  parse_jobs-insert :
      (j : CompletedJob T) (o : Object) (before after : List Object) (jobs : List (CompletedJob T))
      → eq_bytes o.name gcs_job_key_prefix ≡ false
      → parse_object_as_job o ≡ ok j
      → parse_jobs (before ++ after) ≡ ok jobs
      → (js ks : List (CompletedJob T)) × (jobs ≡ js ++ ks)
        × (parse_jobs (before ++ o ∷ after) ≡ ok (js ++ j ∷ ks))
  parse_jobs-insert j o [] after jobs n p h = ([], jobs, refl, ground (arith, n, p, h))
  parse_jobs-insert j o (q ∷ before) after jobs n p h =
      elim (Bool-cases (eq_bytes q.name gcs_job_key_prefix)) [
        | inl e ↦
            let (js, ks, split, back) =
              parse_jobs-insert j o before after jobs n p (ground (arith, e)) in
            (js, ks, split, ground (arith, e, back))
        | inr e ↦
            let h' : (within "parseObjectAsJob" (parse_object_as_job q) >>= λ i.
            parse_jobs (before ++ after) >>= λ is. ok (i ∷ is))
                ≡ ok jobs =
              ground (arith, e) in
            let (i, q_is, rest) =
              >>=-passes (within "parseObjectAsJob" (parse_object_as_job q))
                (λ i. parse_jobs (before ++ after) >>= λ is. ok (i ∷ is)) h' in
            let (is, all, last) =
              >>=-passes (parse_jobs (before ++ after)) (λ is. ok (i ∷ is)) rest in
            let (js, ks, split, back) = parse_jobs-insert j o before after is n p all in
            (i ∷ js, ks, ground (arith, last, split), ground (arith, e, q_is, back))
      ]

longer : (p t : Bytes) → is_empty t ≡ false → eq_bytes (p ++ t) p ≡ false
longer [] [] h = cc
longer [] (c ∷ t) h = refl
longer (c ∷ p) t h = ground (arith, longer p t h)

-- What the registry relies on of the bucket: an object that is created is in the listing of a
-- prefix of its name, beside those that were there.
pub record ListingLaws {B : Type 0} (bucket : RegistryBucket B) : Type 0 where
  pub listed :
      (req : MetadataRequest) (b : B) (made : Object) (prefix : Bytes) (os : List Object)
      → (bucket.create_object req b).0 ≡ ok made
      → has_prefix req.name prefix ≡ true
      → bucket.list_all prefix b ≡ ok os
      → (o : Object) × (before after : List Object) × (os ≡ before ++ after)
        × (bucket.list_all prefix (bucket.create_object req b).1 ≡ ok (before ++ o ∷ after))
        × (o.name ≡ req.name)
        × (o.metadata ≡ req.metadata)

module _ {T B : Type 0} (f : TimeFormat T) (bucket : RegistryBucket B)
    (laws : ListingLaws bucket) where
  -- After a backup has been recorded, it is in the list of backups, beside those that were there, in
  -- their order. Its score has twenty bytes, and its time is read back from a text that is not empty.
  pub list_backups-record_backup :
      (j : CompletedJob T) (b : B) (jobs : List (CompletedJob T))
      → f.parse (f.format j.start_time) ≡ ok j.start_time
      → is_empty (f.format j.start_time) ≡ false
      → IsScore j.score
      → list_backups f bucket b ≡ ok jobs
      → (record_backup f bucket j b).0 ≡ ok tt
      → (js ks : List (CompletedJob T)) × (jobs ≡ js ++ ks)
        × (list_backups f bucket (record_backup f bucket j b).1 ≡ ok (js ++ j ∷ ks))
  unfolding list_backups record_backup
  list_backups-record_backup j b jobs time text v h r =
      let req = job_request f j in
      let (os, listing, parsed) =
        >>=-passes (within "gcsutil.ListAll" (bucket.list_all gcs_job_key_prefix b)) (parse_jobs f)
          h in
      let (made, created, _) =
        >>=-passes (within "CreateObject" (bucket.create_object req b).0) (λ _. ok tt) r in
      let (o, before, after, split, listing', name, metadata) =
        laws.listed req b made gcs_job_key_prefix os
          (within-eq-ok "CreateObject" (bucket.create_object req b).0 created)
          (rw (name-job_request f j) (has_prefix-append gcs_job_key_prefix (f.format j.start_time)))
          (within-eq-ok "gcsutil.ListAll" (bucket.list_all gcs_job_key_prefix b) listing) in
      let other : eq_bytes o.name gcs_job_key_prefix ≡ false =
        rw (name, name-job_request f j) (longer gcs_job_key_prefix (f.format j.start_time) text) in
      let (js, ks, parts, inserted) =
        parse_jobs-insert f j o before after jobs other
          (parse_object_as_job-job_request f j o time v name metadata)
          (ap (parse_jobs f) (sym split) ∙ parsed) in
      (js, ks, parts, ground (arith, listing', inserted))
