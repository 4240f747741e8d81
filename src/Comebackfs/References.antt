-- ===== src/Comebackfs/References.antt =====
-- internal/comebackfs/fs.go against what the kernel keeps: how often each inode was looked up, less
-- how often it was forgotten.
use mathlib.Core.Path.{fun_ext}
use comeback.Prelude.{
  ℕ, ◌+◌, ◌-◌, ◌≡◌, refl, ap, ◌∙◌, Option, none, some, arith, ◌==◌, if◌then◌else◌,
}
use comeback.Prelude.Go.{Bytes, Result, ok, err, panic, within}
use comeback.Repr.Info.{FileInfo}
use comeback.Comebackfs.{
  DirInode, Inode, dir_inode, file_inode, symlink_inode, InodeRecord, FileSystem, register,
  count_look_up, create_inode, look_up_or_create_inode,
}
use comeback.Comebackfs.Server.{
  Op, look_up_inode, forget_inode, Answer, child_entry, nothing, set_inode, entry_found,
  child_found, on_forget, open_in, target_of,
}

abbrev lookups : Option InodeRecord → ℕ
lookups none = 0
lookups (some rec) = rec.lookup_count

-- How often each inode is held, in the file system.
abbrev pub references : FileSystem → ℕ → ℕ
references fs i = lookups (fs.inodes i)

abbrev add_at : (id : ℕ) → (ℕ → ℕ) → ℕ → ℕ
add_at id held i = if i == id then held i + 1 else held i

abbrev subtract_at : (id n : ℕ) → (ℕ → ℕ) → ℕ → ℕ
subtract_at id n held i = if i == id then held i - n else held i

-- What the kernel holds after an answer: one more of an inode that was looked up, and less of one
-- that it has forgotten.
unfoldable pub kernel_step : Op → Result Answer → (ℕ → ℕ) → ℕ → ℕ
kernel_step (look_up_inode parent name) (ok (child_entry c)) held = add_at c.child held
kernel_step (forget_inode inode n) (ok nothing) held = subtract_at inode n held
kernel_step _ _ held = held

pub references-set_inode :
    (id : ℕ) (rec : InodeRecord) (i : Inode) (fs : FileSystem)
    → fs.inodes id ≡ some rec
    → (j : ℕ) → references (set_inode id rec i fs) j ≡ references fs j
references-set_inode id rec i fs h j = ground arith

references-entry_found :
    (parent : ℕ) (name : Bytes) (e : FileInfo) (fs : FileSystem) (j : ℕ)
    → references (entry_found e (look_up_or_create_inode e fs)).1 j
      ≡ kernel_step
          (look_up_inode parent name)
          (entry_found e (look_up_or_create_inode e fs)).0
          (references fs)
          j
unfolding look_up_or_create_inode kernel_step
references-entry_found parent name e fs j = go (fs.inodes e.inode) refl
  where
    go :
        (o : Option InodeRecord)
        → fs.inodes e.inode ≡ o
        → references (entry_found e (count_look_up e o fs)).1 j
          ≡ kernel_step
              (look_up_inode parent name)
              (entry_found e (count_look_up e o fs)).0
              (references fs)
              j
    go (some rec) q = ground arith
    go none q = new (create_inode e fs.uid fs.gid)
      where
        new :
            (r : Result Inode)
            → references (entry_found e (register e.inode (within "createInode" r) fs)).1 j
              ≡ kernel_step
                  (look_up_inode parent name)
                  (entry_found e (register e.inode (within "createInode" r) fs)).0
                  (references fs)
                  j
        new (ok i) = ground arith
        new (err x) = refl
        new panic = refl

pub references-forget :
    (id n : ℕ) (o : Option InodeRecord) (fs : FileSystem) (j : ℕ)
    → fs.inodes id ≡ o
    → references (on_forget id n o fs).1 j
      ≡ kernel_step (forget_inode id n) (on_forget id n o fs).0 (references fs) j
unfolding kernel_step
references-forget id n none fs j q = refl
references-forget id n (some rec) fs j q = ground arith

pub references-child_found :
    (parent : ℕ) (name : Bytes) (rec : InodeRecord) (r : Result (Option FileInfo × DirInode))
    (fs : FileSystem) (j : ℕ)
    → fs.inodes parent ≡ some rec
    → references (child_found parent rec r fs).1 j
      ≡ kernel_step (look_up_inode parent name) (child_found parent rec r fs).0 (references fs) j
unfolding kernel_step
references-child_found parent name rec (err e) fs j q = refl
references-child_found parent name rec panic fs j q = refl
references-child_found parent name rec (ok (none, d)) fs j q =
    references-set_inode parent rec (dir_inode d) fs q j
references-child_found parent name rec (ok (some e, d)) fs j q =
    let fs' = set_inode parent rec (dir_inode d) fs in
    references-entry_found parent name e fs' j
    ∙ ap
        (λ held.
          kernel_step (look_up_inode parent name) (entry_found e (look_up_or_create_inode e fs')).0
            held j)
        (fun_ext (references-set_inode parent rec (dir_inode d) fs q))

pub references-open_in : (i : Inode) (fs : FileSystem) → references (open_in i fs).1 ≡ references fs
references-open_in (file_inode f) fs = refl
references-open_in (dir_inode d) fs = refl
references-open_in (symlink_inode s) fs = refl

pub references-target_of : (i : Inode) (fs : FileSystem) → (target_of i fs).1 ≡ fs
references-target_of (symlink_inode s) fs = refl
references-target_of (dir_inode d) fs = refl
references-target_of (file_inode f) fs = refl
