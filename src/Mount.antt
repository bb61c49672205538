-- ===== src/Mount.antt =====
-- fs/fs.c: how the file server finds its file system, from read_super to fs_init.
pub mod Bits
use os_challenge_sudo_shell.Base.{
  ℕ, zero, suc, ◌+◌, ◌*◌, ◌/◌, ◌%◌, ◌^◌, ◌≡◌, Bool, true, false, not, ◌&&◌, Option, none, some, ltb,
  leb, ◌==◌, if◌then◌else◌, update, Exec, done, stop, panic, pure, halt, modify, ensure, branch,
  panic_on, ◌>>=◌, ◌>>◌, Result, ok, err,
}
use os_challenge_sudo_shell.Fs.{
  Fs, bits_per_block, read_block, write_block, block_is_free, with_super,
}

-- FS_MAGIC
abbrev pub fs_magic : ℕ
fs_magic = 0x68286097

-- DISKMAX / BLOCK_SIZE
abbrev pub max_blocks : ℕ
max_blocks = 0x40000

-- `super = blk`, where the number of blocks is word 1 of block 1.
pub set_super : Exec Fs (Unit {0})
set_super = modify λ s. record s { super = some (s.cache 1 1) }

pub read_super : Exec Fs (Unit {0})
read_super = do
  isnew ← panic_on (read_block 1)
  set_super
  (λ s. ensure (s.cache 1 0 == fs_magic) s)
  with_super λ n. ensure (leb n max_blocks)

-- The first loop of read_bitmap, over `count` blocks of the bitmap from `i` on. Errors are not looked at.
pub read_blocks : ℕ → ℕ → Exec Fs (Unit {0})
read_blocks zero i = pure tt
read_blocks (suc count) i = read_block (i + 2) >>= λ r. read_blocks count (i + 1)

pub ensure_used : ℕ → Exec Fs (Unit {0})
ensure_used b = block_is_free b >>= λ free. ensure (not free)

-- The second loop of read_bitmap
pub ensure_all_used : ℕ → ℕ → Exec Fs (Unit {0})
ensure_all_used zero i = pure tt
ensure_all_used (suc count) i = ensure_used (i + 2) >> ensure_all_used count (i + 1)

-- The number of blocks that hold the bitmap of `n` blocks
abbrev pub nbitmap : ℕ → ℕ
nbitmap n = n / bits_per_block + 1

pub read_bitmap : Exec Fs (Unit {0})
read_bitmap = with_super λ n.
    read_blocks (nbitmap n) 0
    >> (modify (λ s. record s { bitmap_read = true })
        >> (ensure_used 0 >> (ensure_used 1 >> ensure_all_used (nbitmap n) 0)))

-- memcpy of a whole block in the cache
pub copy_block : ℕ → ℕ → Exec Fs (Unit {0})
copy_block dst src = modify λ s. record s { cache = update s.cache dst (s.cache src) }

-- The words of "OOPS!\n" with its terminating zero; strcpy leaves the last byte of the second.
abbrev pub oops_0 : ℕ
oops_0 = 0x53504f4f

abbrev pub oops_1 : ℕ
oops_1 = 0x000a21

pub smash : Exec Fs (Unit {0})
smash = modify λ s. record s {
  cache =
      update s.cache 1
        (update (update (s.cache 1) 0 oops_0) 1 (s.cache 1 1 / 2 ^ 24 * 2 ^ 24 + oops_1));
}

-- strcmp of block 1 with that string: the first six characters and the terminating zero
abbrev pub is_smashed : Fs → Bool
is_smashed s = s.cache 1 0 == oops_0 && s.cache 1 1 % 2 ^ 24 == oops_1

pub check_write_block : Exec Fs (Unit {0})
check_write_block = do
  modify (λ s. record s { super = none })
  first ← panic_on (read_block 0)
  copy_block 0 1
  smash
  write_block 1
  (λ s. ensure (s.mapped 1) s)
  modify (λ s. record s { mapped = update s.mapped 1 false; room = s.room + 1 })
  (λ s. ensure (not (s.mapped 1)) s)
  second ← panic_on (read_block 1)
  (λ s. ensure (is_smashed s) s)
  copy_block 1 0
  write_block 1
  set_super

pub fs_init : Exec Fs (Unit {0})
fs_init = read_super >> (check_write_block >> read_bitmap)
