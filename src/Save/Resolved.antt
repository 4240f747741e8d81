-- ===== src/Save/Resolved.antt =====
-- internal/save/dependency_resolver.go: which children are found for a directory.
use mathlib.Core.Path.{subst}
use mathlib.Core.List.{Memᴰ}
use mathlib.Core.List.Memᴰ
use comeback.Prelude.{
  ℕ, ◌≡◌, refl, ap, ◌∙◌, true, false, ◌⊎◌, List, [], ◌∷◌, arith, ◌==◌, Bool-cases, inl, inr,
}
use comeback.Prelude.Go.{Bytes, ok, within, ◌>>=◌, >>=-passes, within-eq-ok}
use comeback.Repr.Info.{directory}
use comeback.Restore.Mode.{mode_bit}
use comeback.Save.Convert.{OsFileInfo, Lookup, convert_file_info}
use comeback.Save.Converted.{IsConverted, convert_file_info-IsConverted}
use comeback.Save.File.{FsNode}
use comeback.Save.Resolver.{
  LocalFs, Exclusion, should_skip, symlink_target, find_children, find_dependencies,
}

-- One of the exclusions matches the path.
abbrev pub IsExcluded : List Exclusion → Bytes → Type 0
IsExcluded exclusions path = (re : Exclusion) × Memᴰ re exclusions × (re path ≡ true)

-- None of them does.
abbrev pub IsIncluded : List Exclusion → Bytes → Type 0
IsIncluded exclusions path = (re : Exclusion) → Memᴰ re exclusions → re path ≡ false

should_skip-IsExcluded :
    (exclusions : List Exclusion) (path : Bytes)
    → should_skip exclusions path ≡ true
    → IsExcluded exclusions path
should_skip-IsExcluded [] path h = cc
should_skip-IsExcluded (re ∷ res) path h = elim (Bool-cases (re path)) [
  | inl e ↦ (re, Memᴰ.head refl, e)
  | inr e ↦
      let (other, m, p) = should_skip-IsExcluded res path (ground arith) in (other, Memᴰ.tail m, p)
]

should_skip-IsIncluded :
    (exclusions : List Exclusion) (path : Bytes)
    → should_skip exclusions path ≡ false
    → IsIncluded exclusions path
should_skip-IsIncluded [] path h re m = absurd (Memᴰ.not-nil m)
should_skip-IsIncluded (r ∷ res) path h re m = elim (Memᴰ.cases_cons m) [
  | inl p ↦ ap (λ (x : Exclusion). x path) p ∙ ground arith
  | inr n ↦ should_skip-IsIncluded res path (ground arith) re n
]

module _ (local : LocalFs) (users groups : ℕ → Lookup) (join : Bytes → Bytes → Bytes)
    (exclusions : List Exclusion) where
  -- What a symlink points to has been read, and for what is none there is no target.
  abbrev pub IsTarget : OsFileInfo → (path target : Bytes) → Type 0
  IsTarget fi path target =
      ((mode_bit 27 fi.mode ≡ 1) × (local.read_link path ≡ ok target))
      ⊎ ((mode_bit 27 fi.mode ≡ 0) × (target ≡ []))

  -- A child for an entry of a directory.
  pub record IsChild (rel_path : Bytes) (fi : OsFileInfo) (child : FsNode) : Type 0 where
    pub path : child.rel_path ≡ join rel_path fi.name
    pub target : Bytes
    pub read : IsTarget fi (join rel_path fi.name) target
    pub converted : IsConverted users groups fi target child.info

  -- The children for a listing, in its order.
  pub data AreChildren (rel_path : Bytes) : List OsFileInfo → List FsNode → Type 0 where
    nothing : AreChildren rel_path [] []
    skipped :
        {fi : OsFileInfo} {listing : List OsFileInfo} {deps : List FsNode}
        → IsExcluded exclusions (join rel_path fi.name)
        → AreChildren rel_path listing deps
        → AreChildren rel_path (fi ∷ listing) deps
    made :
        {fi : OsFileInfo} {listing : List OsFileInfo} {child : FsNode} {deps : List FsNode}
        → IsIncluded exclusions (join rel_path fi.name)
        → IsChild rel_path fi child
        → AreChildren rel_path listing deps
        → AreChildren rel_path (fi ∷ listing) (child ∷ deps)

  symlink_target-IsTarget :
      (fi : OsFileInfo) (path target : Bytes)
      → symlink_target local users groups join exclusions fi path ≡ ok target
      → IsTarget fi path target
  symlink_target-IsTarget fi path target h = elim (Bool-cases (mode_bit 27 fi.mode == 0)) [
    | inl e ↦ inr (ground arith, ground arith)
    | inr e ↦ inl (ground arith, within-eq-ok "Readlink" (local.read_link path) (ground arith))
  ]

  find_children-AreChildren :
      (rel_path : Bytes) (listing : List OsFileInfo) (deps : List FsNode)
      → find_children local users groups join exclusions rel_path listing ≡ ok deps
      → AreChildren rel_path listing deps
  unfolding find_children
  find_children-AreChildren rel_path [] [] h = nothing
  find_children-AreChildren rel_path [] (d ∷ deps) h = absurd (ground arith)
  find_children-AreChildren rel_path (fi ∷ listing) deps h =
      let at = join rel_path fi.name in
      elim (Bool-cases (should_skip exclusions at)) [
        | inl there ↦
            skipped (should_skip-IsExcluded exclusions at there)
              (find_children-AreChildren rel_path listing deps (ground (arith, there)))
        | inr here ↦
            let rest = find_children local users groups join exclusions rel_path listing in
            let h' : (symlink_target local users groups join exclusions fi at >>= λ target.
            within "ConvertFileInfo" (convert_file_info users groups fi target) >>= λ entry.
            rest >>= λ ds. ok (record { rel_path = at; info = entry } ∷ ds))
                ≡ ok deps =
              ground (arith, here) in
            let (target, read, h1) =
              >>=-passes (symlink_target local users groups join exclusions fi at) _ h' in
            let (entry, converted, h2) =
              >>=-passes (within "ConvertFileInfo" (convert_file_info users groups fi target)) _
                h1 in
            let (ds, found, last) = >>=-passes rest _ h2 in
            let same : record { rel_path = at; info = entry } ∷ ds ≡ deps = ground arith in
            subst (AreChildren rel_path (fi ∷ listing)) same (
              made (should_skip-IsIncluded exclusions at here)
                (record {
                  path = refl;
                  target = target;
                  read = symlink_target-IsTarget fi at target read;
                  converted =
                      convert_file_info-IsConverted users groups fi target entry
                        (within-eq-ok "ConvertFileInfo" _ converted);
                })
                (find_children-AreChildren rel_path listing ds found))
      ]

  -- The dependencies that are found for a directory are children for the entries of its listing, in
  -- their order: an entry is left out if one of the exclusions matches its path, and else its child
  -- has the entry's path and information, with the target that was read if it is a symlink.
  pub find_dependencies-AreChildren :
      (n : FsNode) (listing : List OsFileInfo) (deps : List FsNode)
      → n.info.type ≡ directory
      → local.read_dir n.rel_path ≡ ok listing
      → find_dependencies local users groups join exclusions n ≡ ok deps
      → AreChildren n.rel_path listing deps
  unfolding find_dependencies
  find_dependencies-AreChildren n listing deps dir r h =
      find_children-AreChildren n.rel_path listing deps (ground (arith, dir, r))
