-- ===== src/Comebackfs/Refinement.antt =====
-- internal/comebackfs/fs.go refines what the kernel keeps of it, through any run of operations.
use mathlib.Core.Path.{fun_ext}
use comeback.Prelude.{ℕ, ◌≡◌, refl, ap, ◌∙◌, Option, none, some, List, [], ◌∷◌}
use comeback.Prelude.Go.{Bytes, Result, ok, err, panic}
use comeback.Blob.Score.{Score}
use comeback.Repr.Marshal.{Proto}
use comeback.Comebackfs.{
  Inode, dir_inode, file_inode, symlink_inode, InodeRecord, FileHandle, FileSystem,
}
use comeback.Comebackfs.Dir.{WriteDirent, look_up_child}
use comeback.Comebackfs.Handle.{TempFiles}
use comeback.Comebackfs.Server.{
  Op, get_inode_attributes, look_up_inode, forget_inode, read_dir, open_file, read_file,
  release_file_handle, read_symlink, Answer, on_attributes, look_up_in, on_look_up, read_in,
  on_read_dir, on_open, on_read_file, on_release, on_symlink, serve,
}
use comeback.Comebackfs.Checks.{FsChecked}
use comeback.Comebackfs.Serving.{serve-FsChecked}
use comeback.Comebackfs.References.{
  references, kernel_step, references-set_inode, references-forget, references-child_found,
  references-open_in, references-target_of,
}

abbrev logged :
    Op
    → Result Answer
    → FileSystem
    → List (Op × Result Answer) × FileSystem
    → List (Op × Result Answer) × FileSystem
logged op (ok a) fs (answers, fs') = ((op, ok a) ∷ answers, fs')
logged op (err e) fs (answers, fs') = ((op, err e) ∷ answers, fs')
logged op panic fs rest = ((op, panic) ∷ [], fs)

-- What the kernel holds after some answers.
abbrev pub replay : List (Op × Result Answer) → (ℕ → ℕ) → ℕ → ℕ
replay [] held = held
replay ((op, answer) ∷ log) held = replay log (kernel_step op answer held)

logged_refines :
    (op : Op) (a : Result Answer) (fs fs' : FileSystem)
    (rest : List (Op × Result Answer) × FileSystem)
    → references fs' ≡ kernel_step op a (references fs)
    → FsChecked fs'
    → (references rest.1 ≡ replay rest.0 (references fs')) × FsChecked rest.1
    → (references (logged op a fs' rest).1 ≡ replay (logged op a fs' rest).0 (references fs))
      × FsChecked (logged op a fs' rest).1
logged_refines op (ok a) fs fs' rest q v (r, c) = (r ∙ ap (replay rest.0) q, c)
logged_refines op (err e) fs fs' rest q v (r, c) = (r ∙ ap (replay rest.0) q, c)
logged_refines op panic fs fs' rest q v h = (q, v)

module _ (proto : Proto) (load : Score → Result Bytes) (write : WriteDirent)
    (temp : TempFiles) where
  references-look_up_in :
      (parent : ℕ) (name : Bytes) (rec : InodeRecord) (i : Inode) (fs : FileSystem) (j : ℕ)
      → fs.inodes parent ≡ some rec
      → references (look_up_in proto load write temp parent name rec i fs).1 j
        ≡ kernel_step
            (look_up_inode parent name)
            (look_up_in proto load write temp parent name rec i fs).0
            (references fs)
            j
  unfolding kernel_step
  references-look_up_in parent name rec (dir_inode d) fs j q =
      references-child_found parent name rec (look_up_child proto load name d) fs j q
  references-look_up_in parent name rec (file_inode f) fs j q = refl
  references-look_up_in parent name rec (symlink_inode s) fs j q = refl

  references-read_in :
      (id offset room : ℕ) (rec : InodeRecord) (i : Inode) (fs : FileSystem) (j : ℕ)
      → fs.inodes id ≡ some rec
      → references (read_in proto load write temp id offset room rec i fs).1 j ≡ references fs j
  references-read_in id offset room rec (dir_inode d) fs j q = references-set_inode id rec _ fs q j
  references-read_in id offset room rec (file_inode f) fs j q = refl
  references-read_in id offset room rec (symlink_inode s) fs j q = refl

  references-serve :
      (op : Op) (fs : FileSystem) (j : ℕ)
      → references (serve proto load write temp op fs).1 j
        ≡ kernel_step op (serve proto load write temp op fs).0 (references fs) j
  unfolding serve kernel_step
  references-serve (get_inode_attributes i) fs j = go (fs.inodes i)
    where
      go : (o : Option InodeRecord) → references (on_attributes o fs).1 j ≡ references fs j
      go none = refl
      go (some rec) = refl
  references-serve (look_up_inode parent name) fs j = go (fs.inodes parent) refl
    where
      go :
          (o : Option InodeRecord)
          → fs.inodes parent ≡ o
          → references (on_look_up proto load write temp parent name o fs).1 j
            ≡ kernel_step
                (look_up_inode parent name)
                (on_look_up proto load write temp parent name o fs).0
                (references fs)
                j
      go none q = refl
      go (some rec) q = references-look_up_in parent name rec rec.in_ fs j q
  references-serve (forget_inode i n) fs j = references-forget i n (fs.inodes i) fs j refl
  references-serve (read_dir i offset room) fs j = go (fs.inodes i) refl
    where
      go :
          (o : Option InodeRecord)
          → fs.inodes i ≡ o
          → references (on_read_dir proto load write temp i offset room o fs).1 j ≡ references fs j
      go none q = refl
      go (some rec) q = references-read_in i offset room rec rec.in_ fs j q
  references-serve (open_file i) fs j = go (fs.inodes i)
    where
      go : (o : Option InodeRecord) → references (on_open o fs).1 j ≡ references fs j
      go none = refl
      go (some rec) = ap (λ (held : ℕ → ℕ). held j) (references-open_in rec.in_ fs)
  references-serve (read_file h offset n) fs j = go (fs.file_handles h)
    where
      go :
          (o : Option FileHandle)
          → references (on_read_file proto load write temp h offset n o fs).1 j ≡ references fs j
      go none = refl
      go (some fh) = refl
  references-serve (release_file_handle h) fs j = go (fs.file_handles h)
    where
      go : (o : Option FileHandle) → references (on_release h o fs).1 j ≡ references fs j
      go none = refl
      go (some fh) = refl
  references-serve (read_symlink i) fs j = go (fs.inodes i)
    where
      go : (o : Option InodeRecord) → references (on_symlink o fs).1 j ≡ references fs j
      go none = refl
      go (some rec) = ap (λ (fs' : FileSystem). references fs' j) (references-target_of rec.in_ fs)

  -- The operations in turn, with their answers, and the file system after them. A panic ends the
  -- program.
  abbrev pub run : List Op → FileSystem → List (Op × Result Answer) × FileSystem
  run [] fs = ([], fs)
  run (op ∷ ops) fs =
      let (answer, fs') = serve proto load write temp op fs in
      let rest = run ops fs' in logged op answer fs' rest

  -- Whatever the kernel asks for, the file system holds each inode as often as the kernel does, by
  -- the answers that it has had: the lookup counts are a copy of the kernel's. The file system is
  -- checked at first, and then.
  pub run_refines :
      (ops : List Op) (fs : FileSystem)
      → FsChecked fs
      → (references (run ops fs).1 ≡ replay (run ops fs).0 (references fs))
        × FsChecked (run ops fs).1
  run_refines [] fs v = (refl, v)
  run_refines (op ∷ ops) fs v =
      logged_refines op (serve proto load write temp op fs).0 fs
        (serve proto load write temp op fs).1 (run ops (serve proto load write temp op fs).1)
        (fun_ext (references-serve op fs)) (serve-FsChecked proto load write temp op fs v)
        (run_refines ops (serve proto load write temp op fs).1
          (serve-FsChecked proto load write temp op fs v))
