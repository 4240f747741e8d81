-- ===== src/Save/Root.antt =====
-- internal/save/save.go: `findRootScore` and `makeRootNode`. The nodes come over a channel, with
-- their scores in them.
use comeback.Prelude.{
  ◌≡◌, refl, false, List, [], ◌∷◌, ◌++◌, arith, if◌then◌else◌, is_empty, All, none,
}
use comeback.Prelude.Go.{message, Result, ok, err}
use comeback.Prelude.Int.{pos}
use comeback.Blob.Score.{Score}
use comeback.Repr.Info.{directory, zero_time}
use comeback.Save.File.{FsNode}

abbrev pub make_root_node : FsNode
make_root_node = record {
  rel_path = [];
  info = record {
    type = directory;
    name = [];
    permissions = 0;
    uid = 0;
    username = none;
    gid = 0;
    groupname = none;
    m_time = zero_time;
    size = 0;
    containing_device = pos 0;
    inode = 0;
    scores = [];
    hard_link_target = none;
    target = [];
    device_number = pos 0;
  };
}

-- The score that the root is expected to have, alone.
abbrev take_root : List Score → (rest : Score → Result Score) → Result Score
take_root (s ∷ []) rest = rest s
take_root _ rest = err (message "Unexpected score count for rooT")

-- The rest of the loop when the root has been found.
unfoldable pub after_root : Score → List FsNode → Result Score
after_root score [] = ok score
after_root score (n ∷ ns) =
    let rest = after_root score ns in
    if is_empty n.rel_path then err (message "Found a duplicate root node") else rest

unfoldable pub find_root_score : List FsNode → Result Score
find_root_score [] = err (message "No root node found")
find_root_score (n ∷ ns) =
    let rest = find_root_score ns in
    if is_empty n.rel_path then take_root n.info.scores (λ score. after_root score ns) else rest

abbrev pub IsBelow : FsNode → Type 0
IsBelow n = is_empty n.rel_path ≡ false

after_root_lem :
    (score : Score) (ns : List FsNode) → All IsBelow ns → after_root score ns ≡ ok score
unfolding after_root
after_root_lem score [] h = refl
after_root_lem score (n ∷ ns) h = ground (arith, h.0, after_root_lem score ns h.1)

-- Where one of the nodes that come is the root, with one score, that score is found, wherever the
-- root comes.
pub find_root_score_lem :
    (before after : List FsNode) (root : FsNode) (score : Score)
    → All IsBelow before
    → All IsBelow after
    → root.rel_path ≡ make_root_node.rel_path
    → root.info.scores ≡ score ∷ []
    → find_root_score (before ++ root ∷ after) ≡ ok score
unfolding find_root_score
find_root_score_lem [] after root score h k r s = ground (arith, r, s, after_root_lem score after k)
find_root_score_lem (n ∷ before) after root score h k r s =
    ground (arith, h.0, find_root_score_lem before after root score h.1 k r s)
