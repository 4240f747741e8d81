-- ===== src/Repr/Tests.antt =====
-- A listing of a file, a symlink and a device, with an encoding that keeps one listing.
use comeback.Prelude.{◌≡◌, refl, map}
use comeback.Prelude.Go.{codes, message, ok, err}
use comeback.Repr.Convert.{kept}
use comeback.Repr.Marshal.{
  marshal_file, unmarshal_dir, unmarshal_file, unmarshal_dir-marshal_dir, marshal_lem,
}
use comeback.Repr.Sample.{listing, listing-IsFileInfo, proto, codec_law, marshalled}

unmarshal_dir-marshal_dir_example : unmarshal_dir proto (codes "encodedd") ≡ ok (map kept listing)
unmarshal_dir-marshal_dir_example =
    unmarshal_dir-marshal_dir proto listing (codes "encodedd") codec_law listing-IsFileInfo
      marshalled

file_bytes : marshal_file (codes "taco") ≡ ok (codes "tacof")
unfolding marshal_file
file_bytes = refl

marshal_lem_example :
    (unmarshal_file (codes "tacof") ≡ ok (codes "taco"))
    × (unmarshal_dir proto (codes "tacof") ≡ err (message "Not a directory"))
    × (unmarshal_file (codes "encodedd") ≡ err (message "Not a file"))
marshal_lem_example =
    marshal_lem proto (codes "taco") (codes "tacof") (codes "encodedd") listing file_bytes
      marshalled
