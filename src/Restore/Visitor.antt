-- ===== src/Restore/Visitor.antt =====
-- internal/restore/visitor.go: `Visit`, for a node of the right type. The system calls are parameters,
-- as are the vendored functions on times and path.Join and path.Dir. A file that `chtimes` has opened
-- is closed again without effect.
use comeback.Prelude.{ℕ}
use comeback.Prelude.Go.{Bytes, message, err}
use comeback.Prelude.Effects.{Effect, go_on, or_return, done}
use comeback.Blob.Store.{Store}
use comeback.Repr.Info.{FileType, file, directory, symlink, Time}
use comeback.Save.File.{FsNode}
use comeback.Restore.File.{Disk, write_file_contents}
use comeback.Restore.Mode.{syscall_mode}

-- `V` is for unix.Timeval. What is opened is opened without following a symbolic link.
pub record Calls (F V : Type 0) : Type 0 where
  pub disk : Disk F
  pub mkdir_all : (path : Bytes) (mode : ℕ) → Effect F
  pub symlink : (old new : Bytes) → Effect F
  pub fchmodat : (path : Bytes) (mode : ℕ) → Effect F
  pub open_symlink : (path : Bytes) → Effect F
  pub futimes : (path : Bytes) (atime mtime : V) → Effect F
  pub timeval : Time → V

module _ {F V : Type 0} (calls : Calls F V) where
  unfoldable pub chmod : (name : Bytes) (mode : ℕ) → Effect F
  chmod name mode f = go_on "fchmodat" (calls.fchmodat name (syscall_mode mode) f) done

  unfoldable pub chtimes : (path : Bytes) (atime mtime : Time) → Effect F
  chtimes path atime mtime f = or_return (calls.open_symlink path f) (λ f'.
      go_on "unix.Futimes" (calls.futimes path (calls.timeval atime) (calls.timeval mtime) f') done)

  module _ {S : Type 0} (store : Store S) (join : Bytes → Bytes → Bytes) (dir : Bytes → Bytes)
      (base_path : Bytes) where
    -- The `switch` over the type of the node.
    unfoldable pub make_entry : FsNode → (path : Bytes) → S → FileType → Effect F
    make_entry n path s file f =
        go_on "writeFileContents" (write_file_contents store calls.disk path n.info.scores s f) done
    make_entry n path s directory f = go_on "MkdirAll (for node)" (calls.mkdir_all path 448 f) done
    make_entry n path s symlink f = go_on "os.Symlink" (calls.symlink n.info.target path f) done
    make_entry n path s _ f = (err (message "Unhandled type for node"), f)

    unfoldable pub visit : (now : Time) → FsNode → S → Effect F
    visit now n s f =
        let path = join base_path n.rel_path in
        go_on "MkdirAll" (calls.mkdir_all (dir path) 448 f) (λ f1.
          or_return (make_entry n path s n.info.type f1) (λ f2.
            go_on "chmod" (chmod path n.info.permissions f2)
              (λ f3. go_on "chtimes" (chtimes path now n.info.m_time f3) done)))
