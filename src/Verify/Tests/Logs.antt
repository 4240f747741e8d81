-- ===== src/Verify/Tests/Logs.antt =====
-- A log with one record, written and read.
use comeback.Prelude.{ℕ, ◌≡◌, refl, false, none, some, [], ◌∷◌, ◌++◌, All, List, Option}
use comeback.Prelude.Go.{Bytes, Error, codes, ok, err}
use comeback.Blob.Score.{Score}
use comeback.Verify.Record.{Node}
use comeback.Verify.RecordText.{Record, show_record}
use comeback.Verify.Resolver.{find_dependencies}
use comeback.Verify.Log.{parse_verify_output, print_records, parse_known_structure, parse_gc_input}
use comeback.Verify.Logged.{IsLine}
use comeback.Verify.Unterminated.{parse_verify_output_unterminated}
use comeback.Verify.Reused.{Accessible, find_dependencies_logged, parse_gc_input-Accessible}
use comeback.Verify.Tests.{
  time_format, listing, score-IsScore, dir_node, file_node, score, load, file_codec,
}
use comeback.Repr.Convert.{convert_entry_proto, convert_time_proto, unix}
use comeback.Repr.Marshal.{unmarshal_dir}

abbrev never : ℕ → Option Error
never n = none

listing-IsLine : IsLine time_format listing
listing-IsLine = record {
  time_back = refl;
  no_space = refl;
  no_newline = refl;
  node = score-IsScore;
  children = (score-IsScore, (score-IsScore, tt));
}

parse_verify_output_unterminated_example :
    (e : Error) × (parse_verify_output time_format never (record {
      contents = print_records time_format (listing ∷ []) ++ show_record time_format listing;
      end = none;
    })
      ≡ record { records = listing ∷ []; outcome = err e })
parse_verify_output_unterminated_example =
    parse_verify_output_unterminated time_format never (listing ∷ []) listing (λ n. refl)
      (listing-IsLine, tt) listing-IsLine

parse_gc_input-Accessible_example :
    (scores : List Score) × (parse_gc_input time_format never
        (record { contents = print_records time_format (listing ∷ []); end = none })
      ≡ ok scores)
    × All (Accessible scores) (listing ∷ [])
parse_gc_input-Accessible_example =
    parse_gc_input-Accessible time_format never (listing ∷ []) (λ n. refl) (listing-IsLine, tt)

-- The record that a verification of the directory sends.
abbrev sent : Record Bytes
sent = record { time = codes "2015-06-07"; node = dir_node; children = file_node ∷ [] }

sent-IsLine : IsLine time_format sent
sent-IsLine = record {
  time_back = refl;
  no_space = refl;
  no_newline = refl;
  node = score-IsScore;
  children = (score-IsScore, tt);
}

sent_once :
    find_dependencies file_codec load (score ∷ []) [] (codes "2015-06-07") none dir_node
    ≡ ok (record { deps = file_node ∷ []; sent = some sent })
unfolding find_dependencies unmarshal_dir convert_entry_proto convert_time_proto unix
sent_once = refl

find_dependencies_logged_example :
    (ks : List (Node × List Node)) × (parse_known_structure time_format
        (λ t. false)
        never
        (record { contents = print_records time_format (sent ∷ []); end = none })
      ≡ ok ks)
    × (find_dependencies file_codec
          (λ s. err (Error.outside 1))
          (score ∷ [])
          ks
          (codes "2015-06-08")
          none
          dir_node
        ≡ ok (record { deps = file_node ∷ []; sent = none }))
find_dependencies_logged_example =
    find_dependencies_logged (λ t. false) time_format file_codec (score ∷ []) load
      (λ s. err (Error.outside 1)) [] (codes "2015-06-07") (codes "2015-06-08") none none never
      dir_node (record { deps = file_node ∷ []; sent = some sent }) [] [] sent sent_once refl
      (λ n. refl) (sent-IsLine, tt) tt refl
