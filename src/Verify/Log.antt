-- ===== src/Verify/Log.antt =====
-- verify.go and gc.go: the log of a verification, as it is written and as it is read again.
-- `ctx_err n` is the error of the context if it is done when the record after `n` others is to be sent.
use comeback.Prelude.{ℕ, suc, Bool, Option, none, some, List, [], ◌∷◌, ◌++◌, ◌==◌, if◌then◌else◌}
use comeback.Prelude.Go.{Bytes, Error, wrap, Result, ok, err, panic, within, ◌>>=◌}
use comeback.Blob.Score.{Score}
use comeback.Verify.Record.{Node}
use comeback.Verify.RecordText.{TimeFormat, Record, cons_first, show_record, parse_record}

abbrev pub newline : ℕ
newline = 10

-- A reader: what it gives, and the error at its end if that is not io.EOF.
pub record Input : Type 0 where
  pub contents : Bytes
  pub end : Option Error

-- What successive calls of `ReadBytes('\n')` return before the end of the file, with the
-- delimiter; the last line may have none.
unfoldable pub lines : Bytes → List Bytes
lines [] = []
lines (c ∷ s) = let rest = lines s in if c == newline then (c ∷ []) ∷ rest else cons_first c rest

abbrev to_first : ℕ → List Bytes → List Bytes
to_first c [] = []
to_first c (l ∷ ls) = (c ∷ l) ∷ ls

-- Those of them that have a delimiter.
unfoldable pub whole_lines : Bytes → List Bytes
whole_lines [] = []
whole_lines (c ∷ s) =
    let rest = whole_lines s in if c == newline then (c ∷ []) ∷ rest else to_first c rest

-- line[:len(line)-1]
abbrev pub trim : Bytes → Bytes
trim [] = []
trim (c ∷ []) = []
trim (c ∷ d ∷ s) = c ∷ trim (d ∷ s)

-- The records that have been sent, and what is returned.
pub record Parsed (T : Type 0) : Type 0 where
  pub records : List (Record T)
  pub outcome : Result (Unit {0})

abbrev pub node_scores : List Node → List Score
node_scores [] = []
node_scores (n ∷ ns) = n.score ∷ node_scores ns

module _ {T : Type 0} where
  abbrev pub record_scores : List (Record T) → List Score
  record_scores [] = []
  record_scores (r ∷ rs) = r.node.score ∷ (node_scores r.children ++ record_scores rs)

  -- The map that the records are written to, the latest entry first.
  abbrev pub add_known :
      (is_stale : T → Bool) → List (Record T) → List (Node × List Node) → List (Node × List Node)
  add_known is_stale [] m = m
  add_known is_stale (r ∷ rs) m =
      add_known is_stale rs (if is_stale r.time then m else (r.node, r.children) ∷ m)

module _ {T : Type 0} (f : TimeFormat T) where
  -- The loop, where `end` is what is returned after the last line.
  abbrev pub parse_lines :
      (ctx_err : ℕ → Option Error) (end : Result (Unit {0})) (sent : ℕ) → List Bytes → Parsed T
  parse_lines ctx_err end sent [] = record { records = []; outcome = end }
  parse_lines ctx_err end sent (line ∷ ls) =
      let rest = parse_lines ctx_err end (suc sent) ls in
      elim (within "parseVerifyRecord" (parse_record f (trim line))) [
        | err e ↦ record { records = []; outcome = err e }
        | panic ↦ record { records = []; outcome = panic }
        | ok r ↦ elim (ctx_err sent) [
          | some e ↦ record { records = []; outcome = err e }
          | none ↦ record { records = r ∷ rest.records; outcome = rest.outcome }
        ]
      ]

  unfoldable pub parse_verify_output : (ctx_err : ℕ → Option Error) → Input → Parsed T
  parse_verify_output ctx_err i = elim i.end [
    | none ↦ parse_lines ctx_err (ok tt) 0 (lines i.contents)
    | some e ↦ parse_lines ctx_err (err (wrap "ReadBytes" e)) 0 (whole_lines i.contents)
  ]

  -- What `verifyImpl` writes for the records, each with `Fprintf(output, "%s\n", r.String())`.
  unfoldable pub print_records : List (Record T) → Bytes
  print_records [] = []
  print_records (r ∷ rs) = show_record f r ++ (newline ∷ print_records rs)

  -- `is_stale t` is `now.Sub(t) > stalenessThreshold`.
  unfoldable pub parse_known_structure :
      (is_stale : T → Bool) (ctx_err : ℕ → Option Error) → Input → Result (List (Node × List Node))
  parse_known_structure is_stale ctx_err i =
      let p = parse_verify_output ctx_err i in
      within "parseVerifyOutput" p.outcome >>= λ _. ok (add_known is_stale p.records [])

  -- `parseGCInput` of gc.go.
  unfoldable pub parse_gc_input : (ctx_err : ℕ → Option Error) → Input → Result (List Score)
  parse_gc_input ctx_err i =
      let p = parse_verify_output ctx_err i in
      within "parseVerifyOutput" p.outcome >>= λ _. ok (record_scores p.records)
