-- ===== src/Save/Tests/Composed.antt =====
-- A directory that is listed, a blob saved under the semaphores, and the root among the nodes.
use comeback.Prelude.{ℕ, ◌≡◌, refl, false, none, List, [], ◌∷◌, ◌++◌}
use comeback.Prelude.Go.{Bytes, codes, ok, eq_bytes}
use comeback.Blob.Store.{WithScores}
use comeback.Blob.Sample.{Objects, parts, pad}
use comeback.Repr.Info.{directory}
use comeback.Repr.Sample.{entry_of}
use comeback.Save.File.{FsNode}
use comeback.Save.Convert.{Lookup, convert_file_info, permissions_of, type_of_bits, type_bits}
use comeback.Save.Semaphore.{Guarded}
use comeback.Save.Balanced.{Balances, save_guarded-Balances}
use comeback.Save.Resolver.{LocalFs, Exclusion, find_children, find_dependencies}
use comeback.Save.Resolved.{AreChildren, find_dependencies-AreChildren}
use comeback.Save.Tests.{link_entry, link_info}

-- One unit of the first semaphore is held by another call.
abbrev guarded : WithScores (Guarded Objects)
guarded = record {
  inner = record {
    blobs = [];
    read_from_disk_sem = record { units = 1; need_to_release = none; stuck = false };
    encrypt_sem = record { units = 0; need_to_release = none; stuck = false };
  };
  scores = record { elems = [] };
}

save_guarded-Balances_example : Balances parts (record { blob = codes "hello"; score = [] }) guarded
save_guarded-Balances_example =
    save_guarded-Balances parts (record { blob = codes "hello"; score = [] }) guarded

abbrev local : LocalFs
local = record {
  read_dir = λ path. ok (record link_entry { name = codes "tmp" } ∷ link_entry ∷ []);
  read_link = λ path. ok (codes "there");
}

abbrev join : Bytes → Bytes → Bytes
join p q = p ++ (b'/' ∷ q)

abbrev exclusions : List Exclusion
exclusions = (λ path. eq_bytes path (codes "dir/tmp")) ∷ []

abbrev users : ℕ → Lookup
users u = Lookup.found (codes "jacobsa")

abbrev groups : ℕ → Lookup
groups g = Lookup.not_found

abbrev dir : FsNode
dir = record { rel_path = codes "dir"; info = entry_of directory }

abbrev child : FsNode
child = record { rel_path = codes "dir/link"; info = link_info }

resolved : find_dependencies local users groups join exclusions dir ≡ ok (child ∷ [])
unfolding find_dependencies find_children convert_file_info permissions_of type_of_bits type_bits
resolved = refl

find_dependencies-AreChildren_example :
    AreChildren local users groups join exclusions
      (codes "dir")
      (record link_entry { name = codes "tmp" } ∷ link_entry ∷ [])
      (child ∷ [])
find_dependencies-AreChildren_example =
    find_dependencies-AreChildren local users groups join exclusions dir
      (record link_entry { name = codes "tmp" } ∷ link_entry ∷ []) (child ∷ []) refl refl resolved

abbrev root : FsNode
root = record {
  rel_path = [];
  info = record (entry_of directory) { scores = pad 20 (codes "root") ∷ [] };
}
