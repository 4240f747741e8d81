-- ===== src/Restore/Mode.antt =====
-- internal/restore/visitor.go: `syscallMode`. A mode is a number of 32 bits.
use comeback.Prelude.{ℕ, ◌+◌, ◌*◌, ◌/◌, ◌%◌, ◌^◌}

-- A bit of a mode, as 0 or 1.
abbrev pub mode_bit : (k : ℕ) → ℕ → ℕ
mode_bit k i = i / 2 ^ k % 2

-- The bits of os.ModeSetuid, os.ModeSetgid and os.ModeSticky, moved to those of S_ISUID, S_ISGID and
-- S_ISVTX. The four parts have no bit in common, so that `|=` adds them.
unfoldable pub syscall_mode : ℕ → ℕ
syscall_mode i = i % 512 + 2048 * mode_bit 23 i + 1024 * mode_bit 22 i + 512 * mode_bit 20 i
