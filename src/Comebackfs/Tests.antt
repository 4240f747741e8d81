-- ===== src/Comebackfs/Tests.antt =====
-- internal/comebackfs over the sample bucket, and on a listing with one symlink.
mod Listed
use comeback.Prelude.{some, ◌≡◌, refl, none, List, [], ◌∷◌}
use comeback.Prelude.Go.{Bytes, codes, Result, ok}
use comeback.Blob.Score.{Score}
use comeback.Blob.Sample.{pad, parts}
use comeback.Blob.Stack.{new_blob_store}
use comeback.Repr.Info.{type_symlink}
use comeback.Repr.Convert.{convert_entry_proto, convert_time_proto, unix}
use comeback.Repr.Marshal.{Proto, unmarshal_dir}
use comeback.Repr.Sample.{proto, proto_of}
use comeback.Save.Loads.{after_saves}
use comeback.Restore.Sample.{
  keeps, empty-IsGood, taco, taco_allowed, score_map, node, now, first, taco_file, scores, saved,
  saving,
}
use comeback.Comebackfs.{
  dir_inode, new_dir_inode, with_bit, FileSystem, FileInode, file_inode, attributes, create_inode,
  look_up_or_create_inode, put,
}
use comeback.Comebackfs.Dir.{
  WriteDirent, drop, index_entries, make_listing, ensure_children, look_up_child,
}
use comeback.Comebackfs.Handle.{TempFiles, take}
use comeback.Comebackfs.Server.{
  Op, look_up_inode, forget_inode, open_file, read_file, read_symlink, opened, bytes_read,
  new_file_system, root_entry, serve,
}
use comeback.Comebackfs.Checks.{FsChecked, new_file_system-FsChecked}
use comeback.Comebackfs.References.{references}
use comeback.Comebackfs.Refinement.{run, replay, run_refines}
use comeback.Comebackfs.Contents.{TempWorks, mounted_contents}

abbrev temp : TempFiles
temp = record { anonymous_file = ok tt; write = λ b. ok tt }

temp-TempWorks : TempWorks temp
temp-TempWorks = record { anonymous_file = refl; write = λ b. refl }

abbrev write_dirent : WriteDirent
write_dirent room de = 24

abbrev inode : FileInode
inode = record { scores = scores; attrs = attributes node.info 0 0 420 }

abbrev with_file : FileSystem
with_file = record {
  uid = 0;
  gid = 0;
  inodes = put 17 (record { lookup_count = 1; in_ = file_inode inode }) (λ i. none);
  next_handle_id = 3;
  file_handles = λ h. none;
}

mounted_contents_example :
    let load = λ (t : Score). (new_blob_store parts).load t (
      after_saves
        (new_blob_store parts)
        (record { blob = codes "other"; score = [] } ∷ [])
        saving.1.blobs) in
    let (answer, fs') = serve proto load write_dirent temp (open_file 17) with_file in
    (answer ≡ ok (opened 3))
    × ((serve proto load write_dirent temp (read_file 3 1 2) fs').0
        ≡ ok (bytes_read (take 2 (drop 1 taco))))
mounted_contents_example =
    mounted_contents (new_blob_store parts) keeps (λ f s. ok tt) score_map (λ path. ok taco_file)
      proto write_dirent temp temp-TempWorks 5 3 now node first taco_file scores
      (record { blob = codes "other"; score = [] } ∷ []) 17 1 2 with_file
      (record { lookup_count = 1; in_ = file_inode inode }) inode empty-IsGood refl taco_allowed
      (λ k e. refl) saved refl refl refl

-- A root directory with a symlink.
abbrev link_codec : Proto
link_codec = record {
  marshal = λ l. ok (codes "encoded");
  unmarshal = λ d. ok (record { entry = proto_of type_symlink (some (codes "there")) none ∷ [] });
}

abbrev load_listing : Score → Result Bytes
load_listing s = ok (codes "encodedd")

abbrev root : Score
root = pad 20 (codes "root")

abbrev mounted : FileSystem
mounted = record {
  uid = 7;
  gid = 8;
  inodes =
      put 1
        (record {
          lookup_count = 1;
          in_ = dir_inode (new_dir_inode (attributes (root_entry root) 7 8 (with_bit 31 320)) root);
        })
        (λ i. none);
  next_handle_id = 0;
  file_handles = λ h. none;
}

mounted-new_file_system : new_file_system 7 8 root ≡ ok mounted
unfolding new_file_system look_up_or_create_inode create_inode
mounted-new_file_system = refl

-- The symlink is looked up twice, read, and forgotten once.
abbrev ops : List Op
ops =
    look_up_inode 1 (codes "name")
    ∷ look_up_inode 1 (codes "name")
    ∷ read_symlink 17
    ∷ forget_inode 17 1
    ∷ []

held_once : references (run link_codec load_listing write_dirent temp ops mounted).1 17 ≡ 1
unfolding serve look_up_child ensure_children unmarshal_dir convert_entry_proto convert_time_proto
    unix index_entries make_listing look_up_or_create_inode create_inode
held_once = refl

run_refines_example :
    (references (run link_codec load_listing write_dirent temp ops mounted).1
      ≡ replay (run link_codec load_listing write_dirent temp ops mounted).0 (references mounted))
    × FsChecked (run link_codec load_listing write_dirent temp ops mounted).1
run_refines_example =
    run_refines link_codec load_listing write_dirent temp ops mounted
      (new_file_system-FsChecked 7 8 root mounted mounted-new_file_system)
