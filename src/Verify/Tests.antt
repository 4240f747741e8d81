-- ===== src/Verify/Tests.antt =====
-- A record in text and back, with a time that is printed as itself.
mod Logs
mod Wholes
mod Listed
use comeback.Prelude.{inl, ℕ, ◌≡◌, refl, true, false, none, some, List, [], ◌∷◌, arith, All}
use comeback.Prelude.Go.{Bytes, codes, message, Result, ok, err}
use comeback.Blob.Score.{Score, IsScore}
use comeback.Verify.Record.{Node, show_node, parse_node, parse_node-show_node, show_node-parse_node}
use comeback.Repr.Info.{file, type_file, FileInfo, FileInfoProto, IsFileInfo}
use comeback.Repr.Convert.{make_info_proto, convert_entry_proto, convert_time_proto, unix}
use comeback.Repr.Marshal.{Proto, make_info_protos, marshal_dir, unmarshal_dir}
use comeback.Repr.Sample.{entry_of, proto_of}
use comeback.Verify.Resolver.{Found, find_dependencies}
use comeback.Verify.Certified.{
  Certified, find_dependencies-Certified, find_dependencies_again, find_dependencies-marshal_dir,
}
use comeback.Verify.RecordText.{
  TimeFormat, Record, show_record, parse_record, parse_record-show_record,
}

abbrev score : Score
score = codes "abcdefghijklmnopqrst"

score-IsScore : IsScore score
score-IsScore = (refl, ground arith)

abbrev dir_node : Node
dir_node = record { score = score; dir = true }

abbrev file_node : Node
file_node = record { score = score; dir = false }

abbrev time_format : TimeFormat Bytes
time_format = record { format = λ t. t; parse = ok }

abbrev listing : Record Bytes
listing = record {
  time = codes "2015-06-07";
  node = dir_node;
  children = file_node ∷ dir_node ∷ [];
}

parse_record-show_record_example :
    parse_record time_format (show_record time_format listing) ≡ ok listing
parse_record-show_record_example =
    parse_record-show_record time_format listing refl refl score-IsScore
      (score-IsScore, (score-IsScore, tt))

-- A listing of a file with one chunk.
abbrev files : List FileInfo
files = entry_of file ∷ []

abbrev file_codec : Proto
file_codec = record {
  marshal = λ l. ok (codes "x");
  unmarshal = λ d. ok (record { entry = proto_of type_file none none ∷ [] });
}

files_made : make_info_protos files ≡ ok (proto_of type_file none none ∷ [])
unfolding make_info_proto
files_made = refl

files_law :
    (protos : List FileInfoProto) (e : Bytes)
    → make_info_protos files ≡ ok protos
    → file_codec.marshal (record { entry = protos }) ≡ ok e
    → file_codec.unmarshal e ≡ ok (record { entry = protos })
files_law protos e h k =
    let same : proto_of type_file none none ∷ [] ≡ protos = ground (arith, files_made) in
    rw same refl

files_marshalled : marshal_dir file_codec files ≡ ok (codes "xd")
unfolding marshal_dir make_info_proto
files_marshalled = refl

files-IsFileInfo : All IsFileInfo files
files-IsFileInfo = (record { within_second = omega arith; scores = ground arith }, tt)

abbrev load : Score → Result Bytes
load s = ok (codes "xd")

abbrev found : Found ℕ
found = record {
  deps = file_node ∷ [];
  sent = some (record { time = 7; node = dir_node; children = file_node ∷ [] });
}

find_dependencies-marshal_dir_example :
    find_dependencies file_codec load (score ∷ []) [] 7 none dir_node ≡ ok found
find_dependencies-marshal_dir_example =
    find_dependencies-marshal_dir file_codec (score ∷ []) load 7 dir_node files (codes "xd")
      files_law files-IsFileInfo (inl refl, tt) files_marshalled refl refl refl

found_once : find_dependencies file_codec load (score ∷ []) [] 7 none dir_node ≡ ok found
unfolding find_dependencies unmarshal_dir convert_entry_proto convert_time_proto unix
found_once = refl

find_dependencies-Certified_example :
    Certified {T = ℕ} file_codec
      (score ∷ [])
      load
      7
      dir_node
      (file_node ∷ [])
      (record { time = 7; node = dir_node; children = file_node ∷ [] })
find_dependencies-Certified_example =
    find_dependencies-Certified file_codec (score ∷ []) load [] 7 none dir_node found _ found_once
      refl
