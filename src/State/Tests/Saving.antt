-- ===== src/State/Tests/Saving.antt =====
-- The state of a first run, saved to a file that is not there yet and read by the next run.
use comeback.Prelude.{
  ℕ, ◌≡◌, ◌≢◌, ◌⊎◌, refl, false, none, some, Option, List, [], ◌∷◌, arith, if◌then◌else◌,
}
use comeback.Prelude.Go.{
  Bytes, codes, message, Result, ok, err, eq_bytes, eq_bytes_self, eq_of_eq_bytes,
}
use comeback.Blob.Score.{hex}
use comeback.Blob.Sample.{digits}
use comeback.Blob.Listing.Sample.{lister}
use comeback.Restore.Sample.{Paths, disk, write-contents}
use comeback.Util.StringSet.{Gob}
use comeback.State.{State, make_state}
use comeback.State.Saved.{FileCalls, StateGob, file_of, save_state_struct}
use comeback.State.Saved.Loaded.{FileLaws}
use comeback.State.Saved.Next.{GobLaws, IsSame, save_state_struct_lem}
use comeback.State.Tests.{first_state}

abbrev temp : Bytes
temp = codes "temp"

abbrev dst : Bytes
dst = codes "state"

abbrev calls : FileCalls Paths
calls = record {
  temp_file = λ f. (ok temp, λ q. if eq_bytes temp q then some [] else f q);
  write = disk.write;
  close = λ name f. (ok tt, f);
  rename = λ old new f.
      (ok tt, λ q. if eq_bytes new q then f old else if eq_bytes old q then none else f q);
}

created :
    (f : Paths) (name : Bytes)
    → (calls.temp_file f).0 ≡ ok name
    → ((calls.temp_file f).1 name ≡ some []) × (dst ≢ name)
created f name h =
    let e : temp ≡ name = ground arith in (rw (← e) refl, rw (← e) (λ p. absurd (cc (p))))

write_others : (name c : Bytes) (f : Paths) → dst ≢ name → (calls.write name c f).1 dst ≡ f dst
write_others name c f n = ground (arith, n, eq_of_eq_bytes name dst)

renamed :
    (name : Bytes) (f : Paths)
    → (calls.rename name dst f).0 ≡ ok tt
    → (calls.rename name dst f).1 dst ≡ f name
renamed name f h = ground (arith, eq_bytes_self dst)

abbrev file_laws : FileLaws calls dst
file_laws = record {
  contents = λ f. f;
  created = created;
  temp_others = λ f. refl;
  stored = λ name c f e h k. write-contents name c [] f e h;
  write_others = write_others;
  close_others = λ name f n. refl;
  renamed = renamed;
  not_renamed = λ name f n. absurd (n refl);
}

abbrev encode : List Bytes → Result Bytes
encode (b ∷ []) = ok b
encode _ = err (message "not one string")

abbrev gob : Gob
gob = record { encode = encode; decode = λ b. ok (b ∷ []) }

abbrev encode_fields : Option Bytes → ℕ → Option ℕ → Result Bytes
encode_fields (some d) t (some m) = ok (t ∷ m ∷ d)
encode_fields _ _ _ = err (message "nil")

abbrev decode_fields : Bytes → Result (Option Bytes × ℕ × Option ℕ)
decode_fields (t ∷ m ∷ d) = ok (some d, t, some m)
decode_fields _ = err (message "short")

abbrev state_gob : StateGob ℕ ℕ
state_gob = record { encode = encode_fields; decode = decode_fields }

strings_back : (l : List Bytes) (e : Bytes) → encode l ≡ ok e → gob.decode e ≡ ok l
strings_back [] e h = cc
strings_back (b ∷ []) e h = ground arith
strings_back (b ∷ c ∷ l) e h = cc

fields_back :
    (e : Option Bytes) (t : ℕ) (m : Option ℕ) (b : Bytes)
    → encode_fields e t m ≡ ok b
    → decode_fields b ≡ ok (e, t, m)
fields_back none t m b h = cc
fields_back (some d) t none b h = cc
fields_back (some d) t (some m) b h = let p : t ∷ m ∷ d ≡ b = ground arith in rw (← p) refl

gob_laws : GobLaws gob state_gob
gob_laws = record { strings_back = strings_back; fields_back = fields_back }

abbrev saved : Result (Unit {0}) × Paths
saved = save_state_struct gob state_gob calls dst first_state (λ q. none)

save_state_struct_lem_example :
    ((saved.0 ≡ ok tt)
      × ((t : State ℕ ℕ) × (make_state lister 8
              (λ t. false)
              0
              6
              false
              (file_of gob state_gob (saved.1 dst))
              []
            ≡ ok t)
          × IsSame first_state t (record { elems = hex digits ∷ [] })))
    ⊎ ((saved.0 ≢ ok tt) × (saved.1 dst ≡ none))
save_state_struct_lem_example =
    save_state_struct_lem lister 8 0 (λ t. false) 6 calls dst file_laws gob state_gob gob_laws
      first_state (record { elems = hex digits ∷ [] }) 5 (λ q. none) [] refl refl refl
