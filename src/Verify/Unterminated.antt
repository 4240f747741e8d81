-- ===== src/Verify/Unterminated.antt =====
-- verify.go: a log whose last line has no newline.
use comeback.Prelude.{
  ℕ, suc, ◌≡◌, ◌≢◌, refl, ap, ◌∙◌, true, Option, none, List, [], ◌∷◌, ◌++◌, arith, All,
  if◌then◌else◌, length,
}
use mathlib.Core.Path.{subst}
use mathlib.Core.List.{append-nil}
use comeback.Prelude.Go.{Bytes, Error, wrap, Result, ok, err, panic, drop_prefix, codes}
use comeback.Blob.Score.{IsScore, hex, length-encode, parse_hex_score}
use comeback.Verify.Record.{Node, show_node, parse_node, show_node-parse_node, parse_node-show_node}
use comeback.Verify.RecordText.{
  TimeFormat, Record, space, show_children, show_record, parse_record, parse_nodes, free_of,
  no_space-show_node, split, split-word, split-append,
}
use comeback.Verify.Log.{newline, lines, trim, parse_verify_output, print_records}
use comeback.Verify.Logged.{
  trim_after, free_of-trim, lines_last, IsLine, free_of-show_record, parse_lines_printed,
}

length-trim : (c : ℕ) (s : Bytes) → length (trim (c ∷ s)) ≡ length s
length-trim c [] = refl
length-trim c (d ∷ s) = omega (arith, length-trim d s)

length-show_node : (n : Node) → IsScore n.score → length (show_node n) ≡ 42
unfolding show_node hex
length-show_node n v = ground (arith, length-encode n.score, v.0)

parse_hex_score_returns : (s : Bytes) → parse_hex_score s ≢ panic
unfolding parse_hex_score
parse_hex_score_returns s h = ground arith

parse_node_returns : (s : Bytes) → parse_node s ≢ panic
unfolding parse_node
parse_node_returns s h = ground (
  arith,
  parse_hex_score_returns (drop_prefix s (codes "f:")),
  parse_hex_score_returns (drop_prefix s (codes "d:")),
)

show_node_cons : (n : Node) → (c : ℕ) × (s : Bytes) × (show_node n ≡ c ∷ s)
unfolding show_node
show_node_cons n = (if n.dir then b'd' else b'f', b':' ∷ hex n.score, ground arith)

-- The last byte of a node's text is missed.
parse_node-trim :
    (n : Node) → IsScore n.score → (e : Error) × (parse_node (trim (show_node n)) ≡ err e)
parse_node-trim n v = go (parse_node (trim (show_node n))) refl
  where
    go : (m : Result Node) → parse_node (trim (show_node n)) ≡ m → (e : Error) × (m ≡ err e)
    go (ok m) h = absurd (
        let (q, u) = show_node-parse_node (trim (show_node n)) m h in
        let (c, s, w) = show_node_cons n in
        let k : length (trim (show_node n)) ≡ 42 = rw (← q) (length-show_node m u) in
        let l : length (trim (show_node n)) ≡ length s = rw w (length-trim c s) in
        let j : suc (length s) ≡ 42 = rw (← ap length w) (length-show_node n v) in
        omega (arith, k, l, j))
    go (err e) h = (e, refl)
    go panic h = absurd (parse_node_returns (trim (show_node n)) h)

-- The components of a record's text after the time, with the last byte missed.
abbrev trimmed_words : Node → List Node → List Bytes
trimmed_words n [] = trim (show_node n) ∷ []
trimmed_words n (c ∷ cs) = show_node n ∷ trimmed_words c cs

trim-space :
    (c : Node) (s : Bytes) → trim (space ∷ (show_node c ++ s)) ≡ space ∷ trim (show_node c ++ s)
trim-space c s = let (d, t, w) = show_node_cons c in rw w refl

split_trimmed :
    (n : Node) (cs : List Node)
    → IsScore n.score
    → All (λ (c : Node). IsScore c.score) cs
    → split (trim (show_node n ++ show_children cs)) ≡ trimmed_words n cs
split_trimmed n [] h hs =
    rw append-nil
      (split-word (trim (show_node n)) (free_of-trim space (show_node n) (no_space-show_node n h)))
split_trimmed n (c ∷ cs) h hs =
    ap split (trim_after (show_node n) space (show_node c ++ show_children cs))
    ∙ ap (λ (t : Bytes). split (show_node n ++ t)) (trim-space c (show_children cs))
    ∙ split-append (show_node n) (trim (show_node c ++ show_children cs)) (no_space-show_node n h)
    ∙ ap (λ (ws : List Bytes). show_node n ∷ ws) (split_trimmed c cs hs.0 hs.1)

parse_nodes_trimmed :
    (n : Node) (cs : List Node)
    → IsScore n.score
    → All (λ (c : Node). IsScore c.score) cs
    → (e : Error) × (parse_nodes (trimmed_words n cs) ≡ err e)
parse_nodes_trimmed n [] h hs =
    let (e, q) = parse_node-trim n h in (wrap "parseNode" e, ground (arith, q))
parse_nodes_trimmed n (c ∷ cs) h hs =
    let (e, q) = parse_nodes_trimmed c cs hs.0 hs.1 in
    (e, ground (arith, parse_node-show_node n h, q))

lines_single :
    (l : Bytes) (c : ℕ) (s : Bytes) → l ≡ c ∷ s → free_of newline l ≡ true → lines l ≡ l ∷ []
lines_single l c s w h = rw w (lines_last c s (subst (λ (t : Bytes). free_of newline t ≡ true) w h))

module _ {T : Type 0} (f : TimeFormat T) where
  parse_trimmed_words :
      (s t : Bytes) (time : T) (n : Node) (cs : List Node)
      → f.parse t ≡ ok time
      → IsScore n.score
      → All (λ (c : Node). IsScore c.score) cs
      → split s ≡ t ∷ trimmed_words n cs
      → (e : Error) × (parse_record f s ≡ err e)
  unfolding parse_record
  parse_trimmed_words s t time n [] p h hs q =
      let (e, k) = parse_node-trim n h in (wrap "parseNode" e, ground (arith, k))
  parse_trimmed_words s t time n (c ∷ cs) p h hs q =
      let (e, k) = parse_nodes_trimmed c cs hs.0 hs.1 in
      (e, ground (arith, k, parse_node-show_node n h))

  parse_record_trimmed :
      (r : Record T) → IsLine f r → (e : Error) × (parse_record f (trim (show_record f r)) ≡ err e)
  unfolding show_record
  parse_record_trimmed r v =
      parse_trimmed_words (trim (show_record f r)) (f.format r.time) r.time r.node r.children
        v.time_back v.node v.children
        (ap split
            (trim_after (f.format r.time) space (show_node r.node ++ show_children r.children))
          ∙ ap (λ (t : Bytes). split (f.format r.time ++ t))
              (trim-space r.node (show_children r.children))
          ∙ split-append (f.format r.time) (trim (show_node r.node ++ show_children r.children))
              v.no_space
          ∙ ap (λ (ws : List Bytes). f.format r.time ∷ ws)
              (split_trimmed r.node r.children v.node v.children))

  show_record_cons : (r : Record T) → (c : ℕ) × (s : Bytes) × (show_record f r ≡ c ∷ s)
  unfolding show_record
  show_record_cons r = go (f.format r.time)
    where
      go :
          (t : Bytes)
          → (c : ℕ) × (s : Bytes) × (t ++ (space ∷ (show_node r.node ++ show_children r.children))
              ≡ c ∷ s)
      go [] = (space, show_node r.node ++ show_children r.children, refl)
      go (c ∷ t) = (c, t ++ (space ∷ (show_node r.node ++ show_children r.children)), refl)

  -- A last record that has no newline after it is not parsed: its line loses its last byte, and an
  -- error is returned after the other records, if the scores have twenty bytes, the times are read
  -- back from texts without space and newline, and the context is not done.
  pub parse_verify_output_unterminated :
      (ctx_err : ℕ → Option Error) (rs : List (Record T)) (r : Record T)
      → ((n : ℕ) → ctx_err n ≡ none)
      → All (IsLine f) rs
      → IsLine f r
      → (e : Error) × (parse_verify_output f ctx_err
            (record { contents = print_records f rs ++ show_record f r; end = none })
          ≡ record { records = rs; outcome = err e })
  unfolding parse_verify_output
  parse_verify_output_unterminated ctx_err rs r never vs v =
      let (n, q) = parse_lines_printed f ctx_err never (ok tt) rs 0 (show_record f r) vs in
      let (c, s, w) = show_record_cons r in
      let l : lines (show_record f r) ≡ show_record f r ∷ [] =
        lines_single (show_record f r) c s w (free_of-show_record f r v) in
      let (e, k) = parse_record_trimmed r v in
      (wrap "parseVerifyRecord" e, q ∙ ground (arith, l, k, append-nil rs))
