-- ===== src/Comebackfs/Tests/Listed.antt =====
-- A directory with a symlink, saved and looked up.
use comeback.Prelude.{◌≡◌, refl, none, some, List, [], ◌∷◌, map, arith, All}
use comeback.Prelude.Go.{Bytes, codes, ok}
use comeback.Blob.Score.{compute_score, hex}
use comeback.Blob.Hex.{encode}
use comeback.Blob.Store.{encrypting_save, existing_scores_save}
use comeback.Blob.Gcs.{gcs_save, make_name, check_object, create_request}
use comeback.Blob.Sample.{pad, parts, empty_bucket}
use comeback.Blob.Stack.{new_blob_store}
use comeback.Blob.Stack.Kept.{IsAllowed}
use comeback.Repr.Info.{symlink, type_symlink, FileInfoProto, IsFileInfo}
use comeback.Repr.Convert.{make_info_proto, kept}
use comeback.Repr.Marshal.{make_info_protos, marshal_dir}
use comeback.Repr.Sample.{entry_of, proto_of}
use comeback.Save.File.{FsNode}
use comeback.Save.Dir.{entries_of, save_dir}
use comeback.Save.Loads.{after_saves}
use comeback.Restore.Sample.{keeps, empty-IsGood}
use comeback.Util.StringSet.{contains, add}
use comeback.Comebackfs.{InodeAttributes, DirInode, attributes, new_dir_inode}
use comeback.Comebackfs.Dir.{look_up_child}
use comeback.Comebackfs.Listing.{find_entry, mounted_children}
use comeback.Comebackfs.Tests.{link_codec}

abbrev children : List FsNode
children = record { rel_path = codes "name"; info = entry_of symlink } ∷ []

link_made :
    make_info_protos (entries_of children)
    ≡ ok (proto_of type_symlink (some (codes "there")) none ∷ [])
unfolding make_info_proto
link_made = refl

link_law :
    (protos : List FileInfoProto) (e : Bytes)
    → make_info_protos (entries_of children) ≡ ok protos
    → link_codec.marshal (record { entry = protos }) ≡ ok e
    → link_codec.unmarshal e ≡ ok (record { entry = protos })
link_law protos e h k =
    let same : proto_of type_symlink (some (codes "there")) none ∷ [] ≡ protos =
      ground (arith, link_made) in
    rw same refl

link_marshalled : marshal_dir link_codec (entries_of children) ≡ ok (codes "encodedd")
unfolding marshal_dir make_info_proto
link_marshalled = refl

link-IsAllowed :
    (d : Bytes) → marshal_dir link_codec (entries_of children) ≡ ok d → keeps.IsAllowed d
unfolding IsAllowed
link-IsAllowed d h c k =
    let is : 9 ∷ codes "encodedd" ≡ c = ground (arith, link_marshalled) in
    rw (← is) (omega arith, ground arith)

link-IsFileInfo : All IsFileInfo (entries_of children)
link-IsFileInfo = (record { within_second = omega arith; scores = ground arith }, tt)

link_saved :
    (save_dir (new_blob_store parts) link_codec (λ s. ok tt) children empty_bucket).0
    ≡ ok (pad 20 (9 ∷ codes "encodedd") ∷ [])
unfolding save_dir marshal_dir make_info_proto encrypting_save existing_scores_save compute_score
    contains add create_request gcs_save check_object hex encode make_name
link_saved = refl

abbrev dir_attributes : InodeAttributes
dir_attributes = attributes (entry_of symlink) 0 0 0

mounted_children_example :
    (d : DirInode) × (look_up_child link_codec
        (λ t. (new_blob_store parts).load t (
          after_saves
            (new_blob_store parts)
            (record { blob = codes "other"; score = [] } ∷ [])
            (save_dir (new_blob_store parts) link_codec (λ s. ok tt) children empty_bucket).1))
        (codes "name")
        (new_dir_inode dir_attributes (pad 20 (9 ∷ codes "encodedd")))
      ≡ ok (find_entry (codes "name") (map kept (entries_of children)), d))
mounted_children_example =
    mounted_children (new_blob_store parts) keeps link_codec (λ s. ok tt) children empty_bucket
      (pad 20 (9 ∷ codes "encodedd")) (record { blob = codes "other"; score = [] } ∷ [])
      dir_attributes (codes "name") empty-IsGood link-IsAllowed link_law link-IsFileInfo
      (refl, refl, tt) link_saved
