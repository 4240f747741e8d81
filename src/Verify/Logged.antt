-- ===== src/Verify/Logged.antt =====
-- verify.go and gc.go: what is read from a log that `verifyImpl` has written.
use comeback.Prelude.{
  ℕ, suc, ◌≡◌, refl, sym, ap, ◌∙◌, true, Option, none, List, [], ◌∷◌, ◌++◌, arith, All,
}
use mathlib.Core.List.{append_assoc, append-nil}
use comeback.Prelude.Go.{Bytes, Error, Result, ok}
use comeback.Blob.Score.{IsScore}
use comeback.Verify.Record.{Node, show_node}
use comeback.Verify.RecordText.{
  TimeFormat, Record, space, show_children, show_record, parse_record, free_of, no_space,
  free_of-show_node, parse_record-show_record,
}
use comeback.Verify.Log.{newline, lines, trim, parse_verify_output, print_records, parse_lines}

free_of-append :
    (d : ℕ) (s t : Bytes) → free_of d s ≡ true → free_of d t ≡ true → free_of d (s ++ t) ≡ true
free_of-append d [] t h k = k
free_of-append d (c ∷ s) t h k = ground (arith, free_of-append d s t)

free_of-children :
    (cs : List Node)
    → All (λ (c : Node). IsScore c.score) cs
    → free_of newline (show_children cs) ≡ true
free_of-children [] h = refl
free_of-children (c ∷ cs) h =
    free_of-append newline (space ∷ show_node c) (show_children cs)
      (free_of-show_node newline c (omega arith) h.0) (free_of-children cs h.1)

lines-append :
    (l rest : Bytes)
    → free_of newline l ≡ true
    → lines (l ++ newline ∷ rest) ≡ (l ++ newline ∷ []) ∷ lines rest
unfolding lines
lines-append [] rest h = refl
lines-append (c ∷ l) rest h = ground (arith, lines-append l rest)

pub lines_last : (c : ℕ) (l : Bytes) → free_of newline (c ∷ l) ≡ true → lines (c ∷ l) ≡ (c ∷ l) ∷ []
unfolding lines
lines_last c [] h = ground arith
lines_last c (d ∷ l) h = ground (arith, lines_last d l)

trim-append : (l : Bytes) (c : ℕ) → trim (l ++ c ∷ []) ≡ l
trim-append [] c = refl
trim-append (a ∷ []) c = refl
trim-append (a ∷ b ∷ l) c = ap (λ (s : Bytes). a ∷ s) (trim-append (b ∷ l) c)

pub trim_after : (l : Bytes) (c : ℕ) (s : Bytes) → trim (l ++ c ∷ s) ≡ l ++ trim (c ∷ s)
trim_after [] c s = refl
trim_after (a ∷ []) c s = refl
trim_after (a ∷ b ∷ l) c s = ap (λ (s : Bytes). a ∷ s) (trim_after (b ∷ l) c s)

pub free_of-trim : (d : ℕ) (s : Bytes) → free_of d s ≡ true → free_of d (trim s) ≡ true
free_of-trim d [] h = refl
free_of-trim d (c ∷ []) h = refl
free_of-trim d (c ∷ e ∷ s) h = ground (arith, free_of-trim d (e ∷ s))

module _ {T : Type 0} (f : TimeFormat T) where
  -- A record that can be written to a line of the log and read back.
  pub record IsLine (r : Record T) : Type 0 where
    pub time_back : f.parse (f.format r.time) ≡ ok r.time
    pub no_space : no_space (f.format r.time) ≡ true
    pub no_newline : free_of newline (f.format r.time) ≡ true
    pub node : IsScore r.node.score
    pub children : All (λ (c : Node). IsScore c.score) r.children

  pub free_of-show_record : (r : Record T) → IsLine r → free_of newline (show_record f r) ≡ true
  unfolding show_record
  free_of-show_record r v =
      free_of-append newline (f.format r.time)
        (space ∷ (show_node r.node ++ show_children r.children)) v.no_newline
        (free_of-append newline (space ∷ show_node r.node) (show_children r.children)
          (free_of-show_node newline r.node (omega arith) v.node)
          (free_of-children r.children v.children))

  parse_record_line :
      (r : Record T) → IsLine r → parse_record f (trim (show_record f r ++ newline ∷ [])) ≡ ok r
  parse_record_line r v =
      rw trim-append (parse_record-show_record f r v.time_back v.no_space v.node v.children)

  module _ (ctx_err : ℕ → Option Error) (never : (n : ℕ) → ctx_err n ≡ none) where
    -- Lines that were printed, before others.
    pub parse_lines_printed :
        (end : Result (Unit {0})) (rs : List (Record T)) (sent : ℕ) (tail : Bytes)
        → All IsLine rs
        → (n : ℕ) × (parse_lines f ctx_err end sent (lines (print_records f rs ++ tail)) ≡ record {
          records = rs ++ (parse_lines f ctx_err end n (lines tail)).records;
          outcome = (parse_lines f ctx_err end n (lines tail)).outcome;
        })
    unfolding print_records
    parse_lines_printed end [] sent tail v = (sent, refl)
    parse_lines_printed end (r ∷ rs) sent tail v =
        let (n, e) = parse_lines_printed end rs (suc sent) tail v.1 in
        (
          n,
          ap (λ (s : Bytes). parse_lines f ctx_err end sent (lines s))
                (append_assoc (show_record f r) (newline ∷ print_records f rs) tail)
              ∙ ap (parse_lines f ctx_err end sent) (
                  lines-append (show_record f r) (print_records f rs ++ tail)
                    (free_of-show_record r v.0))
              ∙ ground (arith, parse_record_line r v.0, never sent, e),
        )

    -- The records that are printed to a log are those that are parsed from it, without an error, if
    -- the scores have twenty bytes, the times are read back from texts without space and newline, and
    -- the context is not done.
    pub parse_verify_output-print_records :
        (rs : List (Record T))
        → All IsLine rs
        → parse_verify_output f ctx_err (record { contents = print_records f rs; end = none })
          ≡ record { records = rs; outcome = ok tt }
    unfolding parse_verify_output lines
    parse_verify_output-print_records rs v =
        let (n, e) = parse_lines_printed (ok tt) rs 0 [] v in
        ap (λ (s : Bytes). parse_lines f ctx_err (ok tt) 0 (lines s))
          (sym (append-nil (print_records f rs)))
        ∙ e
        ∙ ap (λ (qs : List (Record T)). record { records = qs; outcome = ok tt }) (append-nil rs)
