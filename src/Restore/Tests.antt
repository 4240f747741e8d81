-- ===== src/Restore/Tests.antt =====
-- A file that is saved, and restored after another save.
mod Visits
use comeback.Prelude.{◌≡◌, refl, true, none, some, List, [], ◌∷◌, arith, is_some}
use comeback.Prelude.Go.{codes, ok}
use comeback.Blob.Score.{compute_score, hex}
use comeback.Blob.Hex.{encode}
use comeback.Blob.Store.{encrypting_save, encrypting_load, checking_load, existing_scores_save}
use comeback.Blob.Gcs.{gcs_save, gcs_load, make_name, check_object, create_request}
use comeback.Blob.Sample.{pad, parts}
use comeback.Blob.Stack.{new_blob_store}
use comeback.Repr.Marshal.{marshal_file, unmarshal_file}
use comeback.Save.File.{make_score_map_key, save_file_chunk, save_chunks, save_file}
use comeback.Blob.Sample.{empty_bucket}
use comeback.Blob.Stack.Kept.{IsAllowed}
use comeback.Prelude.{map}
use comeback.Repr.Info.{file, symlink, char_device, directory}
use comeback.Repr.Convert.{make_info_proto, kept}
use comeback.Repr.Marshal.{marshal_dir}
use comeback.Repr.Sample.{entry_of, proto, codec_law, listing-IsFileInfo, marshalled}
use comeback.Save.Dir.{entries_of, save_dir}
use comeback.Save.File.{FsNode}
use comeback.Restore.Resolver.{child_nodes, find_dependencies}
use comeback.Restore.Listed.{AreNodesFor, restored_children}
use comeback.Prelude.Go.{Bytes}
use comeback.Prelude.{ℕ, ◌%◌, ◌^◌, ◌+◌, ◌++◌, ◌<◌}
use comeback.Save.Loads.{after_saves}
use comeback.Save.Caching.{save_file_ends, save_file_again}
use comeback.Restore.File.{write_chunk, write_chunks, write_file_contents}
use comeback.Restore.Saved.{restored_contents}
use comeback.Restore.Sample.{
  keeps, empty-IsGood, taco_allowed, disk, disk_laws, score_map, score_map_law, node, now, key,
  taco_file, first, saving, scores, keyed, saved,
}
use comeback.Util.StringSet.{contains, add}

restored :
    (write_file_contents
      (new_blob_store parts)
      disk
      (codes "out")
      scores
      (after_saves
        (new_blob_store parts)
        (record { blob = codes "other"; score = [] } ∷ [])
        saving.1.blobs)
      (λ p. none)).0
    ≡ ok tt
unfolding write_file_contents write_chunks write_chunk after_saves save_file make_score_map_key
    save_chunks save_file_chunk marshal_file unmarshal_file encrypting_save existing_scores_save
    compute_score contains add create_request gcs_save check_object hex encode make_name
    encrypting_load checking_load gcs_load
restored = refl

restored_contents_example :
    (write_file_contents
        (new_blob_store parts)
        disk
        (codes "out")
        scores
        (after_saves
          (new_blob_store parts)
          (record { blob = codes "other"; score = [] } ∷ [])
          saving.1.blobs)
        (λ p. none)).1
      (codes "out")
    ≡ some (codes "taco")
restored_contents_example =
    restored_contents (new_blob_store parts) keeps (λ f s. ok tt) score_map (λ path. ok taco_file)
      disk disk_laws 5 3 now node first taco_file scores
      (record { blob = codes "other"; score = [] } ∷ []) (codes "out") (λ p. none) empty-IsGood refl
      taco_allowed (λ k e. refl) saved restored

save_file_ends_example : is_some saving.0 ≡ true
save_file_ends_example =
    save_file_ends (new_blob_store parts) (λ f s. ok tt) score_map (λ path. ok taco_file) 5 3 now
      node first (omega arith) (λ f e. ground arith)

save_file_again_example :
    save_file
      (new_blob_store parts)
      (λ f s. ok tt)
      score_map
      (λ path. ok taco_file)
      0
      0
      now
      node
      saving.1
    ≡ (some (ok scores), saving.1)
save_file_again_example =
    save_file_again (new_blob_store parts) (λ f s. ok tt) score_map (λ path. ok taco_file) 5 0 3 0
      now now node first scores key score_map_law keyed keyed saved

-- A directory with the entries of the sample listing.
abbrev children : List FsNode
children =
    record { rel_path = codes "a"; info = entry_of file }
    ∷ record { rel_path = codes "b"; info = entry_of symlink }
    ∷ record { rel_path = codes "c"; info = entry_of char_device }
    ∷ []

abbrev parent : FsNode
parent = record {
  rel_path = codes "dir";
  info = record (entry_of directory) { scores = pad 20 (9 ∷ codes "encodedd") ∷ [] };
}

abbrev join_paths : Bytes → Bytes → Bytes
join_paths p q = p ++ (b'/' ∷ q)

listing_saved :
    (save_dir (new_blob_store parts) proto (λ s. ok tt) children empty_bucket).0
    ≡ ok (pad 20 (9 ∷ codes "encodedd") ∷ [])
unfolding save_dir marshal_dir make_info_proto encrypting_save existing_scores_save compute_score
    contains add create_request gcs_save check_object hex encode make_name
listing_saved = refl

listing-IsAllowed : (d : Bytes) → marshal_dir proto (entries_of children) ≡ ok d → keeps.IsAllowed d
unfolding IsAllowed
listing-IsAllowed d h c k =
    let is : 9 ∷ codes "encodedd" ≡ c = ground (arith, marshalled) in
    rw (← is) (omega arith, ground arith)

restored_children_example :
    (nodes : List FsNode) × (find_dependencies (new_blob_store parts) proto join_paths parent (
        after_saves
          (new_blob_store parts)
          (record { blob = codes "other"; score = [] } ∷ [])
          (save_dir (new_blob_store parts) proto (λ s. ok tt) children empty_bucket).1)
      ≡ ok nodes)
    × AreNodesFor join_paths (codes "dir") children nodes
restored_children_example =
    restored_children (new_blob_store parts) keeps proto (λ s. ok tt) join_paths children
      empty_bucket (pad 20 (9 ∷ codes "encodedd") ∷ [])
      (record { blob = codes "other"; score = [] } ∷ []) parent empty-IsGood listing-IsAllowed
      codec_law listing-IsFileInfo listing_saved refl refl
