-- ===== src/Verify/Record.antt =====
-- internal/verify/record.go: the text form of nodes and records.
use comeback.Prelude.{◌≡◌, Bool, true, false, ◌++◌, arith, if◌then◌else◌}
use comeback.Prelude.Go.{
  Bytes, codes, message, Result, ok, err, within, ◌>>=◌, append-drop_prefix, has_prefix,
  drop_prefix,
}
use comeback.Blob.Score.{
  Score, IsScore, hex, parse_hex_score, parse_hex_score-hex, hex-parse_hex_score,
}

pub record Node : Type 0 where
  pub score : Score
  pub dir : Bool

abbrev file_prefix : Bytes
file_prefix = codes "f:"

abbrev dir_prefix : Bytes
dir_prefix = codes "d:"

-- `String` of a `Node`.
unfoldable pub show_node : Node → Bytes
show_node n = if n.dir then dir_prefix ++ hex n.score else file_prefix ++ hex n.score

unfoldable pub parse_node : Bytes → Result Node
parse_node s =
    if has_prefix s file_prefix
    then (do
      score ← within "ParseHexScore" (parse_hex_score (drop_prefix s file_prefix))
      ok (record { score = score; dir = false }))
    else if has_prefix s dir_prefix
    then (do
      score ← within "ParseHexScore" (parse_hex_score (drop_prefix s dir_prefix))
      ok (record { score = score; dir = true }))
    else err (message "Unknown prefix")

-- A node, with a score of twenty bytes, is read back from its text.
pub parse_node-show_node : (n : Node) → IsScore n.score → parse_node (show_node n) ≡ ok n
unfolding parse_node show_node
parse_node-show_node n h = ground (arith, parse_hex_score-hex n.score h)

after_prefix :
    (s prefix : Bytes) (score : Score)
    → has_prefix s prefix ≡ true
    → parse_hex_score (drop_prefix s prefix) ≡ ok score
    → (prefix ++ hex score ≡ s) × IsScore score
after_prefix s prefix score h e =
    let (q, v) = hex-parse_hex_score (drop_prefix s prefix) score e in
    (rw q (append-drop_prefix prefix s h), v)

-- A text that parses is the text of the node that is found, whose score has twenty bytes.
pub show_node-parse_node :
    (s : Bytes) (n : Node) → parse_node s ≡ ok n → (show_node n ≡ s) × IsScore n.score
unfolding parse_node show_node
show_node-parse_node s n h =
    ground (arith, after_prefix s file_prefix n.score, after_prefix s dir_prefix n.score)
