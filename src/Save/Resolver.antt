-- ===== src/Save/Resolver.antt =====
-- internal/save/dependency_resolver.go: `FindDependencies`, for a node of the right type. The file
-- system, the exclusions (regular expressions) and path.Join are parameters; paths are relative to the
-- base path.
use comeback.Prelude.{ℕ, Bool, true, false, ◌||◌, List, [], ◌∷◌, if◌then◌else◌, ◌==◌, not}
use comeback.Prelude.Go.{Bytes, Result, ok, within, ◌>>=◌}
use comeback.Repr.Info.{FileType, directory}
use comeback.Restore.Mode.{mode_bit}
use comeback.Save.Convert.{OsFileInfo, Lookup, convert_file_info}
use comeback.Save.File.{FsNode}

-- ioutil.ReadDir, which sorts by name, and os.Readlink.
pub record LocalFs : Type 0 where
  pub read_dir : Bytes → Result (List OsFileInfo)
  pub read_link : Bytes → Result Bytes

-- A regular expression, by what it matches.
abbrev pub Exclusion : Type 0
Exclusion = Bytes → Bool

abbrev pub should_skip : List Exclusion → Bytes → Bool
should_skip [] rel_path = false
should_skip (re ∷ res) rel_path = re rel_path || should_skip res rel_path

abbrev pub is_directory : FileType → Bool
is_directory directory = true
is_directory _ = false

module _ (local : LocalFs) (users groups : ℕ → Lookup) (join : Bytes → Bytes → Bytes)
    (exclusions : List Exclusion) where
  -- The target of a symlink, and of others the empty string. The bit is os.ModeSymlink.
  abbrev pub symlink_target : OsFileInfo → (child_rel_path : Bytes) → Result Bytes
  symlink_target fi child_rel_path =
      if mode_bit 27 fi.mode == 0 then ok [] else within "Readlink" (local.read_link child_rel_path)

  -- The loop over the listing.
  unfoldable pub find_children : (rel_path : Bytes) → List OsFileInfo → Result (List FsNode)
  find_children rel_path [] = ok []
  find_children rel_path (fi ∷ listing) =
      let rest = find_children rel_path listing in
      if should_skip exclusions (join rel_path fi.name) then rest else (do
        target ← symlink_target fi (join rel_path fi.name)
        entry ← within "ConvertFileInfo" (convert_file_info users groups fi target)
        deps ← rest
        ok (record { rel_path = join rel_path fi.name; info = entry } ∷ deps))

  -- The dependencies, which are the children of the node as well.
  unfoldable pub find_dependencies : FsNode → Result (List FsNode)
  find_dependencies n = if not (is_directory n.info.type) then ok [] else (do
    listing ← within "readDir" (local.read_dir n.rel_path)
    find_children n.rel_path listing)
