-- ===== src/Restore/Tests/Visits.antt =====
-- A file that is saved, and the node for it visited.
use comeback.Prelude.{ℕ, ◌≡◌, ◌≢◌, ◌⊎◌, inr, refl, none, some, Option, arith, if◌then◌else◌}
use comeback.Prelude.Go.{Bytes, Result, codes, ok, eq_bytes, eq_bytes_self}
use comeback.Blob.Score.{compute_score, hex}
use comeback.Blob.Hex.{encode}
use comeback.Blob.Store.{encrypting_save, encrypting_load, checking_load, existing_scores_save}
use comeback.Blob.Gcs.{gcs_save, gcs_load, make_name, check_object, create_request}
use comeback.Blob.Sample.{parts}
use comeback.Blob.Stack.{new_blob_store}
use comeback.Util.StringSet.{contains, add}
use comeback.Repr.Info.{Time, file}
use comeback.Repr.Marshal.{marshal_file, unmarshal_file}
use comeback.Save.File.{FsNode, make_score_map_key, save_file_chunk, save_chunks, save_file}
use comeback.Save.Caching.{save_file-Loads}
use comeback.Restore.File.{write_chunk, write_chunks, write_file_contents}
use comeback.Restore.Mode.{syscall_mode}
use comeback.Restore.Visitor.{Calls, chmod, chtimes, make_entry, visit}
use comeback.Restore.Visited.{CallLaws, visit_lem}
use comeback.Restore.Sample.{
  Paths, keeps, empty-IsGood, taco_allowed, disk, open_file-contents, write-contents, score_map,
  node, now, taco_file, first, saving, scores, saved,
}

-- Contents, modes and times by the paths.
record Tree : Type 0 where
  pub paths : Paths
  pub modes : Bytes → Option ℕ
  pub times : Bytes → Option Time

abbrev with_paths : Result (Unit {0}) × Paths → Tree → Result (Unit {0}) × Tree
with_paths (r, p) t = (r, record t { paths = p })

abbrev at : {A : Type 0} → Bytes → A → (Bytes → Option A) → Bytes → Option A
at path a f q = if eq_bytes path q then some a else f q

abbrev calls : Calls Tree Time
calls = record {
  disk = record {
    open_file = λ path t. with_paths (disk.open_file path t.paths) t;
    write = λ path chunk t. with_paths (disk.write path chunk t.paths) t;
    close = λ path t. (ok tt, t);
  };
  mkdir_all = λ path mode t. (ok tt, t);
  symlink = λ old new t. (ok tt, t);
  fchmodat = λ path mode t. (ok tt, record t { modes = at path mode t.modes });
  open_symlink = λ path t. (ok tt, t);
  futimes = λ path a m t. (ok tt, record t { times = at path m t.times });
  timeval = λ t. t;
}

at_same : {A : Type 0} (path : Bytes) (a : A) (f : Bytes → Option A) → at path a f path ≡ some a
at_same path a f = ground (arith, eq_bytes_self path)

abbrev call_laws : CallLaws calls
call_laws = record {
  disk_laws = record {
    contents = λ t. t.paths;
    opened = λ path t h. open_file-contents path t.paths h;
    written = λ path chunk before t h k. write-contents path chunk before t.paths h k;
    closed = λ path t. refl;
  };
  mode_of = λ t. t.modes;
  time_of = λ t. t.times;
  mode_set = λ path mode t h. at_same path mode t.modes;
  contents_kept = λ path mode t. refl;
  time_set = λ path a m t h. at_same path m t.times;
  mode_kept = λ path a m t. refl;
  contents_unchanged = λ path a m t. refl;
  opens_only = λ path t. refl;
}

abbrev empty_tree : Tree
empty_tree = record { paths = λ p. none; modes = λ p. none; times = λ p. none }

abbrev listed : FsNode
listed = record node { info = record node.info { scores = scores } }

abbrev visited : Result (Unit {0}) × Tree
visited =
    visit calls (new_blob_store parts) (λ a b. b) (λ a. a) (codes "out") now listed saving.1.blobs
      empty_tree

succeeded : visited.0 ≡ ok tt
unfolding visit make_entry chmod chtimes write_file_contents write_chunks write_chunk save_file
    make_score_map_key save_chunks save_file_chunk marshal_file unmarshal_file encrypting_save
    existing_scores_save compute_score contains add create_request gcs_save check_object hex encode
    make_name encrypting_load checking_load gcs_load syscall_mode
succeeded = refl

visit_lem_example :
    (visited.1.modes (codes "taco.txt") ≡ some (syscall_mode 420))
    × (visited.1.times (codes "taco.txt") ≡ some node.info.m_time)
    × ((file ≢ file) ⊎ (visited.1.paths (codes "taco.txt") ≡ some (codes "taco")))
visit_lem_example =
    visit_lem call_laws (new_blob_store parts) keeps (λ a b. b) (λ a. a) (codes "out") now listed
      saving.1.blobs (codes "taco") empty_tree
      (inr (
        save_file-Loads (new_blob_store parts) (λ f s. ok tt) score_map (λ path. ok taco_file) keeps
          5 3 now node first taco_file scores empty-IsGood refl taco_allowed (λ k e. refl) saved))
      succeeded
