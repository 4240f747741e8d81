-- ===== src/Restore/Visited.antt =====
-- internal/restore/visitor.go: what there is after `Visit`.
use comeback.Prelude.{ℕ, ◌≡◌, ◌≢◌, ap, ◌∙◌, some, Option, inl, inr, ◌⊎◌}
use comeback.Prelude.Go.{Bytes, ok}
use comeback.Blob.Store.{Store}
use comeback.Blob.Keeping.{Keeps}
use comeback.Repr.Info.{FileType, file, directory, symlink, Time}
use comeback.Save.File.{FsNode}
use comeback.Save.Loads.{Loads}
use comeback.Restore.File.{DiskLaws, write_file_contents, write_file_contents_lem}
use comeback.Restore.Mode.{syscall_mode}
use comeback.Restore.Visitor.{Calls, chmod, chtimes, make_entry, visit}
use comeback.Prelude.Effects.{go_on, done, go_on-passes, or_return-passes, still_ok}

-- What is relied on of the system calls: they set what they are to set, and the two that set
-- attributes leave the rest of a file alone.
pub record CallLaws {F V : Type 0} (calls : Calls F V) : Type 0 where
  pub disk_laws : DiskLaws calls.disk
  pub mode_of : F → Bytes → Option ℕ
  pub time_of : F → Bytes → Option V
  pub mode_set :
      (path : Bytes) (mode : ℕ) (f : F)
      → (calls.fchmodat path mode f).0 ≡ ok tt
      → mode_of (calls.fchmodat path mode f).1 path ≡ some mode
  pub contents_kept :
      (path : Bytes) (mode : ℕ) (f : F)
      → disk_laws.contents (calls.fchmodat path mode f).1 path ≡ disk_laws.contents f path
  pub time_set :
      (path : Bytes) (a m : V) (f : F)
      → (calls.futimes path a m f).0 ≡ ok tt
      → time_of (calls.futimes path a m f).1 path ≡ some m
  pub mode_kept :
      (path : Bytes) (a m : V) (f : F) → mode_of (calls.futimes path a m f).1 path ≡ mode_of f path
  pub contents_unchanged :
      (path : Bytes) (a m : V) (f : F)
      → disk_laws.contents (calls.futimes path a m f).1 path ≡ disk_laws.contents f path
  pub opens_only : (path : Bytes) (f : F) → (calls.open_symlink path f).1 ≡ f

module _ {F V : Type 0} {calls : Calls F V} (laws : CallLaws calls) where
  chmod_lem :
      (path : Bytes) (mode : ℕ) (f : F)
      → (chmod calls path mode f).0 ≡ ok tt
      → (laws.mode_of (chmod calls path mode f).1 path ≡ some (syscall_mode mode))
        × (laws.disk_laws.contents (chmod calls path mode f).1 path
            ≡ laws.disk_laws.contents f path)
  unfolding chmod
  chmod_lem path mode f h =
      let (called, same) =
        go_on-passes "fchmodat" (calls.fchmodat path (syscall_mode mode) f) done h in
      rw same (
        laws.mode_set path (syscall_mode mode) f called,
        laws.contents_kept path (syscall_mode mode) f,
      )

  chtimes_lem :
      (path : Bytes) (atime mtime : Time) (f : F)
      → (chtimes calls path atime mtime f).0 ≡ ok tt
      → (laws.time_of (chtimes calls path atime mtime f).1 path ≡ some (calls.timeval mtime))
        × (laws.mode_of (chtimes calls path atime mtime f).1 path ≡ laws.mode_of f path)
        × (laws.disk_laws.contents (chtimes calls path atime mtime f).1 path
            ≡ laws.disk_laws.contents f path)
  unfolding chtimes
  chtimes_lem path atime mtime f h =
      let a = calls.timeval atime in
      let m = calls.timeval mtime in
      let (_, first) =
        or_return-passes (calls.open_symlink path f)
          (λ f'. go_on "unix.Futimes" (calls.futimes path a m f') done) h in
      let opened =
        first
        ∙ ap (λ f'. go_on "unix.Futimes" (calls.futimes path a m f') done)
            (laws.opens_only path f) in
      let (called, second) =
        go_on-passes "unix.Futimes" (calls.futimes path a m f) done (still_ok opened h) in
      rw (opened ∙ second) (
        laws.time_set path a m f called,
        laws.mode_kept path a m f,
        laws.contents_unchanged path a m f,
      )

  module _ {S : Type 0} (store : Store S) (keeps : Keeps store) (join : Bytes → Bytes → Bytes)
      (dir : Bytes → Bytes) (base_path : Bytes) where
    -- The entry that is made for a file has the contents that its scores stand for.
    make_entry-Loads :
        (n : FsNode) (path : Bytes) (s : S) (type : FileType) (contents : Bytes) (f : F)
        → (make_entry calls store join dir base_path n path s type f).0 ≡ ok tt
        → (type ≢ file) ⊎ Loads store keeps s n.info.scores contents
        → (type ≢ file)
          ⊎ (laws.disk_laws.contents
                (make_entry calls store join dir base_path n path s type f).1
                path
              ≡ some contents)
    unfolding make_entry
    make_entry-Loads n path s type contents f h (inl other) = inl other
    make_entry-Loads n path s file contents f h (inr l) =
        let (called, same) =
          go_on-passes "writeFileContents"
            (write_file_contents store calls.disk path n.info.scores s f) done h in
        inr (
          rw same (
            write_file_contents_lem store keeps calls.disk laws.disk_laws path n.info.scores s f
              contents l called))
    make_entry-Loads n path s directory contents f h (inr l) = inl (λ e. absurd (cc (e)))
    make_entry-Loads n path s symlink contents f h (inr l) = inl (λ e. absurd (cc (e)))
    make_entry-Loads n path s _ contents f h (inr l) = absurd (cc (h))

    -- When a node has been visited without an error, what is at its path has the permissions of the
    -- node as `syscallMode` gives them and its time, and, where it is a file whose scores stand for
    -- some contents, these contents. The system calls set what they are to set, and setting a mode
    -- or a time changes nothing else of a file.
    pub visit_lem :
        (now : Time) (n : FsNode) (s : S) (contents : Bytes) (f : F)
        → (n.info.type ≢ file) ⊎ Loads store keeps s n.info.scores contents
        → (visit calls store join dir base_path now n s f).0 ≡ ok tt
        → (laws.mode_of
              (visit calls store join dir base_path now n s f).1
              (join base_path n.rel_path)
            ≡ some (syscall_mode n.info.permissions))
          × (laws.time_of
                (visit calls store join dir base_path now n s f).1
                (join base_path n.rel_path)
              ≡ some (calls.timeval n.info.m_time))
          × ((n.info.type ≢ file)
              ⊎ (laws.disk_laws.contents
                    (visit calls store join dir base_path now n s f).1
                    (join base_path n.rel_path)
                  ≡ some contents))
    unfolding visit
    visit_lem now n s contents f l h =
        let path = join base_path n.rel_path in
        let (_, e1) = go_on-passes "MkdirAll" (calls.mkdir_all (dir path) 448 f) _ h in
        let f1 = (calls.mkdir_all (dir path) 448 f).1 in
        let (made, e2) =
          or_return-passes (make_entry calls store join dir base_path n path s n.info.type f1) _
            (still_ok e1 h) in
        let f2 = (make_entry calls store join dir base_path n path s n.info.type f1).1 in
        let h2 = still_ok (e1 ∙ e2) h in
        let (changed, e3) = go_on-passes "chmod" (chmod calls path n.info.permissions f2) _ h2 in
        let f3 = (chmod calls path n.info.permissions f2).1 in
        let (timed, e4) =
          go_on-passes "chtimes" (chtimes calls path now n.info.m_time f3) done (still_ok e3 h2) in
        let (mode, same) = chmod_lem path n.info.permissions f2 changed in
        let (time, same_mode, same_contents) = chtimes_lem path now n.info.m_time f3 timed in
        rw (e1 ∙ e2 ∙ e3 ∙ e4) (
          same_mode ∙ mode,
          time,
          elim (make_entry-Loads n path s n.info.type contents f1 made l) [
            | inl other ↦ inl other
            | inr whole ↦ inr (same_contents ∙ same ∙ whole)
          ],
        )
