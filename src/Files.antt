-- ===== src/Files.antt =====
-- fs/fs.c: the blocks of a file, by the pointers of its entry in a directory.
pub mod Walk
pub mod Truncate
pub mod Cached
use os_challenge_sudo_shell.Base.{
  ℕ, zero, suc, ◌+◌, ◌-◌, ◌*◌, ◌/◌, ◌%◌, ◌^◌, ◌≡◌, refl, Bool, true, false, not, ◌&&◌, ◌||◌, Option,
  none, some, ltb, leb, ◌==◌, if◌then◌else◌, update, Exec, Outcome, done, stop, Stop, fault, panic,
  pure, halt, modify, branch, attempt, panic_on, ◌>>=◌, ◌>>◌, Result, ok, err, e_not_found,
  e_no_mem, e_inval,
}
use os_challenge_sudo_shell.Fs.{
  Fs, ndirect, nindirect, block_size, alloc_block, read_block, free_block, dirty_block, write_block,
  block_is_dirty, with_super,
}

-- A word of a cached block. A `struct File *` is the place of the file's first word, in a block that is in
-- the cache.
abbrev pub Place : Type 0
Place = ℕ × ℕ

abbrev pub word_at : Place → Fs → ℕ
word_at (b, i) s = s.cache b i

unfoldable pub put : Place → ℕ → Exec Fs (Unit {0})
put (b, i) v = modify λ s. record s { cache = update s.cache b (update (s.cache b) i v) }

-- The fields of struct File, in words: 128 bytes of name come first.
abbrev pub field : ℕ → Place → Place
field k (b, i) = (b, i + k)

abbrev pub f_size : Place → Place
f_size f = field 32 f

abbrev pub f_direct : ℕ → Place → Place
f_direct n f = field (34 + n) f

abbrev pub f_indirect : Place → Place
f_indirect f = field 44 f

abbrev pub f_dir : Place → Place
f_dir f = field 45 f

-- The pointer in the indirect block, which is read first.
pub indirect_slot : Place → ℕ → Exec Fs (Result Place)
indirect_slot f n s =
    attempt (read_block (word_at (f_indirect f) s))
      (λ isnew. pure (ok (word_at (f_indirect f) s, n))) s

pub file_block_walk : Place → ℕ → Bool → Exec Fs (Result Place)
file_block_walk f n alloc s =
    branch (ltb n ndirect) (pure (ok (f_direct n f)))
      (branch (ltb n nindirect)
        (branch (word_at (f_indirect f) s == 0)
          (branch alloc (attempt alloc_block λ r. put (f_indirect f) r >> indirect_slot f n)
            (pure (err e_not_found)))
          (indirect_slot f n))
        (pure (err e_inval)))
      s

-- `*ptr`, where a missing block is allocated if that is asked for.
pub block_at : Place → Bool → Exec Fs (Result ℕ)
block_at p alloc s =
    branch (word_at p s == 0)
      (branch alloc (attempt alloc_block λ r. put p r >> (λ t. done (ok (word_at p t), t)))
        (pure (err e_not_found)))
      (pure (ok (word_at p s))) s

pub file_map_block : Place → ℕ → Bool → Exec Fs (Result ℕ)
file_map_block f n alloc = attempt (file_block_walk f n alloc) λ p. block_at p alloc

pub clear_at : Place → Exec Fs (Result (Unit {0}))
clear_at p s =
    branch (word_at p s == 0) (pure (ok tt)) (free_block (word_at p s) >> (put p 0 >> pure (ok tt)))
      s

pub file_clear_block : Place → ℕ → Exec Fs (Result (Unit {0}))
file_clear_block f n = attempt (file_block_walk f n false) clear_at

-- file_get_block, with the number of the block for its address.
pub file_get_block : Place → ℕ → Exec Fs (Result ℕ)
file_get_block f n =
    attempt (file_map_block f n true) λ d. attempt (read_block d) λ isnew. pure (ok d)

pub file_dirty : Place → ℕ → Exec Fs (Result (Unit {0}))
file_dirty f offset = attempt (file_map_block f (offset / block_size) false) dirty_block

-- ROUND(size, BLOCK_SIZE) / BLOCK_SIZE, in 32 bits; it is 0 for size 0.
abbrev pub blocks_of : ℕ → ℕ
blocks_of size = (size + 4095) % 2 ^ 32 / 4096

-- The loop of file_truncate, over `count` blocks from `n` on.
pub clear_blocks : ℕ → ℕ → Place → Exec Fs (Unit {0})
clear_blocks zero n f = pure tt
clear_blocks (suc count) n f = panic_on (file_clear_block f n) >> clear_blocks count (n + 1) f

pub drop_indirect : Place → Exec Fs (Unit {0})
drop_indirect f s =
    branch (word_at (f_indirect f) s == 0) (pure tt)
      (free_block (word_at (f_indirect f) s) >> put (f_indirect f) 0) s

pub file_truncate : Place → ℕ → Exec Fs (Unit {0})
file_truncate f newsize s =
    (clear_blocks (blocks_of (word_at (f_size f) s) - blocks_of newsize) (blocks_of newsize) f
        >> (branch (leb (blocks_of newsize) ndirect) (drop_indirect f) (pure tt)
            >> put (f_size f) newsize))
      s

pub flush_found : Result ℕ → Exec Fs (Unit {0})
flush_found (err e) = pure tt
flush_found (ok d) = λ s. branch (block_is_dirty s d) (write_block d) (pure tt) s

-- The loop of file_flush, over `count` blocks from `n` on.
pub flush_blocks : ℕ → ℕ → Place → Exec Fs (Unit {0})
flush_blocks zero n f = pure tt
flush_blocks (suc count) n f =
    (file_map_block f n false >>= flush_found) >> flush_blocks count (n + 1) f

pub file_flush : Place → Exec Fs (Unit {0})
file_flush f s = flush_blocks (blocks_of (word_at (f_size f) s)) 0 f s

abbrev pub diskmap : ℕ
diskmap = 0x10000000

-- The place that a pointer `struct File *` leads to
abbrev pub place_of : ℕ → Place
place_of va = ((va - diskmap) / 4096, va % 4096 / 4)

pub flush_dir : Place → Exec Fs (Unit {0})
flush_dir f s =
    branch (word_at (f_dir f) s == 0) (pure tt) (file_flush (place_of (word_at (f_dir f) s))) s

pub file_set_size : Place → ℕ → Exec Fs (Result (Unit {0}))
file_set_size f newsize s =
    (branch (ltb newsize (word_at (f_size f) s)) (file_truncate f newsize) (pure tt)
        >> (put (f_size f) newsize >> (flush_dir f >> pure (ok tt))))
      s

pub file_close : Place → Exec Fs (Unit {0})
file_close f = file_flush f >> flush_dir f

-- The loop of fs_sync, over `count` blocks from `n` on.
pub sync_blocks : ℕ → ℕ → Exec Fs (Unit {0})
sync_blocks zero n s = done (tt, s)
sync_blocks (suc count) n s =
    (branch (block_is_dirty s n) (write_block n) (pure tt) >> sync_blocks count (n + 1)) s

pub fs_sync : Exec Fs (Unit {0})
fs_sync = with_super λ n. sync_blocks n 0
