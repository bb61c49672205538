-- ===== src/Syscall/Devices.antt =====
-- kern/syscall_all.c: sys_write_dev and sys_read_dev, with the accesses of include/io.h.
use os_challenge_sudo_shell.Base.{
  ℕ, zero, suc, ◌+◌, ◌*◌, ◌/◌, ◌%◌, ◌^◌, Bool, ◌&&◌, ◌||◌, List, [], ◌∷◌, ◌++◌, leb, ◌==◌,
  if◌then◌else◌, update, Exec, done, stop, fault, Result, ok, err, e_inval,
}
use os_challenge_sudo_shell.Syscall.{is_illegal_va_range}

abbrev pub malta_serial_base : ℕ
malta_serial_base = 402653184 + 1016

abbrev pub malta_ide_base : ℕ
malta_ide_base = 402653184 + 496

-- An access to a device: its address, its width in bytes and the value that is written
pub record Access : Type 0 where
  pub pa : ℕ
  pub width : ℕ
  pub value : ℕ

-- The bytes of the user's memory, and what was written to the devices, the latest at the end
pub record Machine : Type 0 where
  pub memory : ℕ → ℕ
  pub written : List Access

-- `len` bytes as a number, the lowest first
abbrev pub load : ℕ → ℕ → (ℕ → ℕ) → ℕ
load zero va m = 0
load (suc len) va m = m va + 256 * load len (va + 1) m

abbrev pub store : ℕ → ℕ → ℕ → (ℕ → ℕ) → ℕ → ℕ
store zero va v m = m
store (suc len) va v m = store len (va + 1) (v / 256) (update m va (v % 256))

-- The test of `pa`, with the sum in 32 bits
abbrev pub is_dev_range : ℕ → ℕ → Bool
is_dev_range pa len =
    let end : ℕ = (pa + len) % 2 ^ 32 in
    (leb malta_ide_base pa && leb end (malta_ide_base + 8))
    || (leb malta_serial_base pa && leb end (malta_serial_base + 32))

-- A number of bytes for which there is an access
abbrev pub is_width : ℕ → Bool
is_width len = (len == 1) || ((len == 2) || (len == 4))

-- An address that is not a multiple of the width is an exception in the kernel.
abbrev pub is_aligned : ℕ → ℕ → ℕ → Bool
is_aligned va pa len = (va % len == 0) && (pa % len == 0)

unfoldable pub sys_write_dev : ℕ → ℕ → ℕ → Exec Machine (Result ℕ)
sys_write_dev va pa len m =
    if is_illegal_va_range va len
    then done (err e_inval, m)
    else if is_dev_range pa len
    then (if is_width len
        then (if is_aligned va pa len
            then done (
              ok 0,
              record m {
                written =
                    m.written
                    ++ (record { pa = pa; width = len; value = load len va m.memory } ∷ []);
              },
            )
            else stop fault)
        else done (err e_inval, m))
    else done (err e_inval, m)

-- What a device gives for an address and a width is an argument.
unfoldable pub sys_read_dev : (ℕ → ℕ → ℕ) → ℕ → ℕ → ℕ → Exec Machine (Result ℕ)
sys_read_dev device va pa len m =
    if is_illegal_va_range va len
    then done (err e_inval, m)
    else if is_dev_range pa len
    then (if is_width len
        then (if is_aligned va pa len
            then done (ok 0, record m { memory = store len va (device pa len) m.memory })
            else stop fault)
        else done (err e_inval, m))
    else done (err e_inval, m)
