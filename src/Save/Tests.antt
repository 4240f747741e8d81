-- ===== src/Save/Tests.antt =====
-- Visits of a file and of a symlink, with the sample bucket.
mod Composed
use comeback.Prelude.{◌≡◌, refl, true, inl, Option, none, some, List, [], ◌∷◌, is_some}
use comeback.Prelude.Go.{codes, ok}
use comeback.Blob.Hex.{encode}
use comeback.Blob.Score.{Score, compute_score, hex}
use comeback.Blob.Store.{WithScores, encrypting_save, existing_scores_save}
use comeback.Blob.Gcs.{gcs_save, make_name, check_object, create_request}
use comeback.Blob.Sample.{Objects, pad, parts}
use comeback.Blob.Stack.{new_blob_store}
use comeback.Repr.Info.{symlink, file}
use comeback.Repr.Marshal.{marshal_file}
use comeback.Repr.Sample.{proto, entry_of}
use comeback.Restore.Sample.{Scores, score_map, node, now, taco_file, first}
use comeback.Save.File.{FsNode, Saving, make_score_map_key, save_file_chunk, save_chunks, save_file}
use comeback.Prelude.Int.{pos}
use comeback.Prelude.{◌+◌, ◌^◌, ◌%◌, arith}
use comeback.Repr.Info.{FileInfo, IsFileInfo}
use comeback.Restore.Mode.{syscall_mode}
use comeback.Save.Convert.{
  OsFileInfo, Lookup, convert_file_info, permissions_of, type_of_bits, type_bits,
}
use comeback.Save.Permissions.{restored_mode}
use comeback.Save.Visitor.{Outcome, set_scores, visit, visit_scored, visit_idle}
use comeback.Util.StringSet.{contains, add}

abbrev scores : List Score
scores = pad 20 (9 ∷ codes "tacf") ∷ pad 20 (9 ∷ codes "of") ∷ []

abbrev visiting : FsNode → Outcome × Saving (WithScores Objects) Scores
visiting n =
    visit (new_blob_store parts) proto (λ f s. ok tt) (λ s. ok tt) score_map (λ path. ok taco_file)
      5 3 now none none n [] first

file_visited : (visiting node).0 ≡ some (ok (some scores))
unfolding visit set_scores save_file make_score_map_key save_chunks save_file_chunk marshal_file
    encrypting_save existing_scores_save compute_score contains add create_request gcs_save
    check_object hex encode make_name
file_visited = refl

abbrev link : FsNode
link = record { rel_path = codes "link"; info = entry_of symlink }

link_visited : (visiting link).0 ≡ some (ok none)
unfolding visit set_scores
link_visited = refl

abbrev no_scores : Option (List Score)
no_scores = none

-- A symlink with permissions 755.
abbrev link_entry : OsFileInfo
link_entry = record {
  name = codes "link";
  mode = 2 ^ 27 + 493;
  mod_time = record { second = pos 1000; nanosecond = 5 };
  sys = some (record { size = pos 4; uid = 501; gid = 20; dev = pos 1; ino = 17; rdev = pos 0 });
}

abbrev link_info : FileInfo
link_info = record {
  type = symlink;
  name = codes "link";
  permissions = 493;
  uid = 501;
  username = some (codes "jacobsa");
  gid = 20;
  groupname = none;
  m_time = record { second = pos 1000; nanosecond = 5 };
  size = 4;
  containing_device = pos 1;
  inode = 17;
  scores = [];
  hard_link_target = none;
  target = codes "there";
  device_number = pos 0;
}

converted :
    convert_file_info
      (λ u. Lookup.found (codes "jacobsa"))
      (λ g. Lookup.not_found)
      link_entry
      (codes "there")
    ≡ ok link_info
unfolding convert_file_info permissions_of type_of_bits type_bits
converted = refl

-- A file with the mode 104755, that is setuid.
abbrev setuid_entry : OsFileInfo
setuid_entry = record link_entry { mode = 2 ^ 23 + 493 }

abbrev setuid_info : FileInfo
setuid_info = record link_info { type = file; permissions = 2 ^ 23 + 493; target = [] }

setuid_converted :
    convert_file_info (λ u. Lookup.found (codes "jacobsa")) (λ g. Lookup.not_found) setuid_entry []
    ≡ ok setuid_info
unfolding convert_file_info permissions_of type_of_bits type_bits
setuid_converted = refl

restored_mode_example : syscall_mode setuid_info.permissions ≡ 0o104755 % 2 ^ 12
restored_mode_example =
    restored_mode (λ u. Lookup.found (codes "jacobsa")) (λ g. Lookup.not_found) setuid_entry []
      setuid_info 0o104755 refl setuid_converted
