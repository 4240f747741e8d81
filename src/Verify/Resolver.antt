-- ===== src/Verify/Resolver.antt =====
-- internal/verify/dependency_resolver.go and visitor.go.
-- The clock, the context, the blob store and the encoding of listings are parameters: `now` is the time
-- that the clock has, `ctx_err` the error of the context if it is done when a record is to be sent.
use comeback.Prelude.{
  Bool, true, false, not, ◌&&◌, ◌||◌, Option, none, some, List, [], ◌∷◌, ◌++◌, if◌then◌else◌,
  is_empty,
}
use comeback.Prelude.Go.{Bytes, Error, message, Result, ok, err, within, ◌>>=◌, eq_bytes}
use comeback.Blob.Score.{Score}
use comeback.Repr.Info.{file, directory, symlink, FileInfo}
use comeback.Repr.Marshal.{Proto, unmarshal_dir}
use comeback.Verify.Record.{Node}
use comeback.Verify.RecordText.{Record}

-- A key of a map of scores.
abbrev pub has_score : Score → List Score → Bool
has_score t [] = false
has_score t (s ∷ ss) = eq_bytes s t || has_score t ss

abbrev pub same_bool : Bool → Bool → Bool
same_bool true b = b
same_bool false b = not b

-- m[n] on `knownStructure`, with the first entry for a key.
abbrev pub known : Node → List (Node × List Node) → Option (List Node)
known n [] = none
known n ((k, children) ∷ m) =
    if eq_bytes k.score n.score && same_bool k.dir n.dir then some children else known n m

-- The nodes for the scores of one entry.
abbrev pub nodes_of : (dir : Bool) → List Score → List Node
nodes_of dir [] = []
nodes_of dir (s ∷ ss) = record { score = s; dir = dir } ∷ nodes_of dir ss

abbrev pub entry_children : FileInfo → Result (List Node)
entry_children entry = elim entry.type [
  | file ↦ ok (nodes_of false entry.scores)
  | directory ↦ ok (nodes_of true entry.scores)
  | symlink ↦
      if not (is_empty entry.scores)
      then err (message "symlink unexpectedly contains scores")
      else ok []
  | _ ↦ err (message "unknown entry type")
]

-- The loop over the listing.
abbrev pub listing_children : List FileInfo → Result (List Node)
listing_children [] = ok []
listing_children (entry ∷ listing) = do
  cs ← entry_children entry
  rest ← listing_children listing
  ok (cs ++ rest)

-- What is returned beside the dependencies: the record that was sent, if there was one.
pub record Found (T : Type 0) : Type 0 where
  pub deps : List Node
  pub sent : Option (Record T)

module _ {T : Type 0} (proto : Proto) (load : Score → Result Bytes) (all_scores : List Score)
    (known_structure : List (Node × List Node)) where
  -- `FindDependencies`, for a node of the right type.
  unfoldable pub find_dependencies : (now : T) → (ctx_err : Option Error) → Node → Result (Found T)
  find_dependencies now ctx_err n =
      if not (has_score n.score all_scores)
      then err (message "Unknown score for node")
      else if not n.dir
      then ok (record { deps = []; sent = none })
      else elim (known n known_structure) [
        | some children ↦ ok (record { deps = children; sent = none })
        | none ↦ do
          contents ← within "Load" (load n.score)
          listing ← within "UnmarshalDir" (unmarshal_dir proto contents)
          children ← listing_children listing
          (elim ctx_err [
            | some e ↦ err e
            | none ↦ ok (record {
              deps = children;
              sent = some (record { time = now; node = n; children = children });
            })
          ])
      ]

  -- `Visit`: the record that is sent, if one is.
  unfoldable pub visit : (now : T) → (ctx_err : Option Error) → Node → Result (Option (Record T))
  visit now ctx_err n = if n.dir then ok none else (do
    _ ← within "Load" (load n.score)
    (elim ctx_err [
      | some e ↦ err e
      | none ↦ ok (some (record { time = now; node = n; children = [] }))
    ]))
