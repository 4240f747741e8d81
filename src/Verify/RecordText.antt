-- ===== src/Verify/RecordText.antt =====
-- internal/verify/record.go: `String` of a `Record`, and `ParseRecord`.
use comeback.Prelude.{
  ℕ, ◌<◌, ◌≡◌, refl, ap, ◌∙◌, Bool, true, List, [], ◌∷◌, ◌++◌, arith, All, ◌==◌, if◌then◌else◌, not,
  ◌&&◌,
}
use mathlib.Core.List.{append-nil}
use comeback.Prelude.Go.{Bytes, message, Result, ok, err, within, ◌>>=◌}
use comeback.Blob.Hex.{IsByte, encode}
use comeback.Blob.Score.{IsScore, hex}
use comeback.Verify.Record.{Node, show_node, parse_node, parse_node-show_node}

-- Go's time.Time in the format RFC3339.
pub record TimeFormat (T : Type 0) : Type 0 where
  pub format : T → Bytes
  pub parse : Bytes → Result T

pub record Record (T : Type 0) : Type 0 where
  pub time : T
  pub node : Node
  pub children : List Node

abbrev pub space : ℕ
space = b' '

abbrev pub show_children : List Node → Bytes
show_children [] = []
show_children (c ∷ cs) = (space ∷ show_node c) ++ show_children cs

abbrev pub cons_first : ℕ → List Bytes → List Bytes
cons_first c [] = (c ∷ []) ∷ []
cons_first c (w ∷ ws) = (c ∷ w) ∷ ws

-- strings.Split(s, " ")
unfoldable pub split : Bytes → List Bytes
split [] = [] ∷ []
split (c ∷ s) = let rest = split s in if c == space then [] ∷ rest else cons_first c rest

abbrev pub parse_nodes : List Bytes → Result (List Node)
parse_nodes [] = ok []
parse_nodes (c ∷ cs) = do
  node ← within "parseNode" (parse_node c)
  nodes ← parse_nodes cs
  ok (node ∷ nodes)

module _ {T : Type 0} (f : TimeFormat T) where
  unfoldable pub show_record : Record T → Bytes
  show_record r = f.format r.time ++ (space ∷ (show_node r.node ++ show_children r.children))

  unfoldable pub parse_record : Bytes → Result (Record T)
  parse_record s = elim (split s) [
    | t ∷ n ∷ cs ↦ do
      time ← within "time.Parse" (f.parse t)
      node ← within "parseNode" (parse_node n)
      nodes ← parse_nodes cs
      ok (record { time = time; node = node; children = nodes })
    | _ ↦ err (message "Expected at least two components")
  ]

-- No byte of the text is `d`.
abbrev pub free_of : ℕ → Bytes → Bool
free_of d [] = true
free_of d (c ∷ s) = not (c == d) && free_of d s

abbrev pub no_space : Bytes → Bool
no_space s = free_of space s

pub split-word : (w : Bytes) → no_space w ≡ true → split w ≡ w ∷ []
unfolding split
split-word [] h = refl
split-word (c ∷ w) h = ground (arith, split-word w)

pub split-append : (w rest : Bytes) → no_space w ≡ true → split (w ++ space ∷ rest) ≡ w ∷ split rest
unfolding split
split-append [] rest h = refl
split-append (c ∷ w) rest h = ground (arith, split-append w rest)

free_of-encode : (d : ℕ) (s : Bytes) → d < b'0' → All IsByte s → free_of d (encode s) ≡ true
unfolding encode
free_of-encode d [] h v = refl
free_of-encode d (b ∷ s) h v = ground (arith, free_of-encode d s h v.1)

-- The text of a node has no space and no newline.
pub free_of-show_node :
    (d : ℕ) (n : Node) → d < b'0' → IsScore n.score → free_of d (show_node n) ≡ true
unfolding show_node hex
free_of-show_node d n h v = ground (arith, free_of-encode d n.score h v.1)

pub no_space-show_node : (n : Node) → IsScore n.score → no_space (show_node n) ≡ true
no_space-show_node n h = free_of-show_node space n (omega arith) h

-- The components of a record's text after the time.
abbrev words : Node → List Node → List Bytes
words n [] = show_node n ∷ []
words n (c ∷ cs) = show_node n ∷ words c cs

split-children :
    (n : Node) (cs : List Node)
    → IsScore n.score
    → All (λ (c : Node). IsScore c.score) cs
    → split (show_node n ++ show_children cs) ≡ words n cs
split-children n [] h hs = rw append-nil (split-word (show_node n) (no_space-show_node n h))
split-children n (c ∷ cs) h hs =
    split-append (show_node n) (show_node c ++ show_children cs) (no_space-show_node n h)
    ∙ ap (λ (ws : List Bytes). show_node n ∷ ws) (split-children c cs hs.0 hs.1)

parse_nodes-words :
    (n : Node) (cs : List Node)
    → IsScore n.score
    → All (λ (c : Node). IsScore c.score) cs
    → parse_nodes (words n cs) ≡ ok (n ∷ cs)
parse_nodes-words n [] h hs = ground (arith, parse_node-show_node n h)
parse_nodes-words n (c ∷ cs) h hs =
    ground (arith, parse_node-show_node n h, parse_nodes-words c cs hs.0 hs.1)

words-cons :
    (n : Node) (cs : List Node)
    → (ws : List Bytes) × (words n cs ≡ show_node n ∷ ws)
      × (parse_nodes (words n cs) ≡ (
          within "parseNode" (parse_node (show_node n)) >>= λ m.
          parse_nodes ws >>= λ ms. ok (m ∷ ms)))
words-cons n [] = ([], refl, refl)
words-cons n (c ∷ cs) = (words c cs, refl, refl)

module _ {T : Type 0} (f : TimeFormat T) where
  -- A record whose scores have twenty bytes is read back from its text, if its time is and the text
  -- of its time has no space.
  pub parse_record-show_record :
      (r : Record T)
      → f.parse (f.format r.time) ≡ ok r.time
      → no_space (f.format r.time) ≡ true
      → IsScore r.node.score
      → All (λ (c : Node). IsScore c.score) r.children
      → parse_record f (show_record f r) ≡ ok r
  unfolding parse_record show_record
  parse_record-show_record r time_back time_word h hs =
      let (ws, e, q) = words-cons r.node r.children in
      ground (
        arith,
        split-append (f.format r.time) (show_node r.node ++ show_children r.children) time_word,
        split-children r.node r.children h hs,
        e,
        parse_nodes-words r.node r.children h hs,
        q,
        parse_node-show_node r.node h,
      )
