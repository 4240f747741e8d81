-- ===== src/Restore/Resolver.antt =====
-- internal/restore/dependency_resolver.go, for a node of the right type.
-- The children that are returned are those that the code also keeps in the node. The function path.Join
-- is a parameter.
use comeback.Prelude.{Bool, true, false, not, List, [], ◌∷◌, if◌then◌else◌}
use comeback.Prelude.Go.{Bytes, message, Result, ok, err, within, ◌>>=◌}
use comeback.Blob.Score.{Score}
use comeback.Blob.Store.{Store}
use comeback.Repr.Info.{FileType, directory, FileInfo}
use comeback.Repr.Marshal.{Proto, unmarshal_dir}
use comeback.Save.File.{FsNode}

abbrev is_directory : FileType → Bool
is_directory directory = true
is_directory _ = false

-- The score of the listing.
abbrev only_score : List Score → Result Score
only_score (score ∷ []) = ok score
only_score _ = err (message "Unexpected score count")

module _ {S : Type 0} (store : Store S) (proto : Proto) (join : Bytes → Bytes → Bytes) where
  -- The loop over the listing.
  abbrev pub child_nodes : (rel_path : Bytes) → List FileInfo → List FsNode
  child_nodes rel_path [] = []
  child_nodes rel_path (entry ∷ listing) =
      record { rel_path = join rel_path entry.name; info = entry } ∷ child_nodes rel_path listing

  unfoldable pub find_dependencies : FsNode → S → Result (List FsNode)
  find_dependencies n s = if not (is_directory n.info.type) then ok [] else (do
    score ← only_score n.info.scores
    b ← within "Load" (store.load score s)
    listing ← within "UnmarshalDir" (unmarshal_dir proto b)
    ok (child_nodes n.rel_path listing))
