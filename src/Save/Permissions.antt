-- ===== src/Save/Permissions.antt =====
-- The mode of a file from the system's, through os.Lstat, internal/fs/convert_file_info.go and
-- `syscallMode` of internal/restore/visitor.go, to the system's again.
use comeback.Prelude.{ap, ◌∙◌, ℕ, ◌+◌, ◌*◌, ◌/◌, ◌%◌, ◌^◌, ◌≡◌, ◌==◌, if◌then◌else◌, arith}
use comeback.Prelude.Go.{Bytes, ok}
use comeback.Repr.Info.{FileInfo}
use comeback.Restore.Mode.{mode_bit, syscall_mode}
use comeback.Save.Convert.{OsFileInfo, Lookup, convert_file_info}
use comeback.Save.Converted.{SamePermissions, convert_file_info-IsConverted}

-- The bits of os.FileMode for S_IFDIR, S_IFLNK, S_IFBLK, S_IFCHR, S_IFIFO, S_IFSOCK and others.
abbrev pub format_bits : ℕ → ℕ
format_bits f =
    if f == 4
    then 2 ^ 31
    else if f == 10
    then 2 ^ 27
    else if f == 6
    then 2 ^ 26
    else if f == 2
    then 2 ^ 26 + 2 ^ 21
    else if f == 1
    then 2 ^ 25
    else if f == 12
    then 2 ^ 24
    else 0

-- The os.FileMode that os.Lstat gives for `st_mode`: the permissions, the bits for setuid, setgid and
-- sticky (S_ISUID, S_ISGID and S_ISVTX), and those for the type.
abbrev pub file_mode : (st_mode : ℕ) → ℕ
file_mode m =
    m % 512
    + 2 ^ 23 * mode_bit 11 m
    + 2 ^ 22 * mode_bit 10 m
    + 2 ^ 20 * mode_bit 9 m
    + format_bits (m / 4096 % 16)

bits_with :
    (m f : ℕ)
    → syscall_mode (
        m % 512
        + 2 ^ 23 * mode_bit 11 m
        + 2 ^ 22 * mode_bit 10 m
        + 2 ^ 20 * mode_bit 9 m
        + format_bits f)
      ≡ m % 4096
unfolding syscall_mode
bits_with m f = ground arith

syscall_mode-same : (i j : ℕ) → SamePermissions i j → syscall_mode i ≡ syscall_mode j
unfolding syscall_mode
syscall_mode-same i j h = omega (arith, h.0, h.1, h.2, h.3)

-- A file with the mode `st_mode` that is saved has the mode for the system call that restores it the
-- twelve low bits of `st_mode`: the permissions, and setuid, setgid and sticky each in its place.
pub restored_mode :
    (users groups : ℕ → Lookup) (info : OsFileInfo) (target : Bytes) (out : FileInfo) (st_mode : ℕ)
    → info.mode ≡ file_mode st_mode
    → convert_file_info users groups info target ≡ ok out
    → syscall_mode out.permissions ≡ st_mode % 2 ^ 12
restored_mode users groups info target out st_mode e h =
    let c = convert_file_info-IsConverted users groups info target out h in
    syscall_mode-same out.permissions info.mode c.permissions
    ∙ ap syscall_mode e
    ∙ bits_with st_mode (st_mode / 4096 % 16)
