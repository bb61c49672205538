-- ===== src/Fs.antt =====
-- fs/fs.c: the block cache, the bitmap of free blocks and the block pointers of a file.
pub mod Blocks
pub mod Cache
pub mod Load
use os_challenge_sudo_shell.Base.{
  ℕ, zero, suc, ◌+◌, ◌-◌, ◌*◌, ◌/◌, ◌%◌, ◌^◌, ◌≡◌, refl, Bool, true, false, not, ◌&&◌, ◌||◌, Option,
  none, some, ltb, leb, ◌==◌, if◌then◌else◌, update, Exec, Outcome, done, stop, Stop, fault, panic,
  pure, halt, modify, branch, attempt, panic_on, ◌>>=◌, ◌>>◌, Result, ok, err, e_not_found,
  e_no_mem, e_no_disk, e_inval,
}
use os_challenge_sudo_shell.Base.Bitmap.{bit, set_bit, clear_bit}

abbrev pub block_size : ℕ
block_size = 4096

-- BLOCK_SIZE_BIT
abbrev pub bits_per_block : ℕ
bits_per_block = 32768

abbrev pub ndirect : ℕ
ndirect = 10

abbrev pub nindirect : ℕ
nindirect = 1024

-- A block is 1024 words. The cache page of a block is named by the block's number, which disk_addr
-- turns into the page's address.
pub record Fs : Type 0 where
  -- super->s_nblocks; none while `super` is null
  pub super : Option ℕ
  -- whether `bitmap` points to block 2
  pub bitmap_read : Bool
  -- the bits PTE_V and PTE_DIRTY of the cache page
  pub mapped : ℕ → Bool
  pub dirty : ℕ → Bool
  pub cache : ℕ → ℕ → ℕ
  pub disk : ℕ → ℕ → ℕ
  -- how many pages syscall_mem_alloc can still give
  pub room : ℕ

-- bitmap[i]
abbrev pub bitmap_word : Fs → ℕ → ℕ
bitmap_word s i = s.cache (2 + i / 1024) (i % 1024)

pub set_bitmap_word : ℕ → ℕ → Fs → Fs
set_bitmap_word i w s = record s {
  cache = update s.cache (2 + i / 1024) (update (s.cache (2 + i / 1024)) (i % 1024) w);
}

-- The bit of a block in the bitmap; it is set if the block is free.
unfoldable pub free_bit : Fs → ℕ → Bool
free_bit s b = bit (b % 32) (bitmap_word s (b / 32))

pub block_is_dirty : Fs → ℕ → Bool
block_is_dirty s b = s.mapped b && s.dirty b

-- syscall_mem_map on a page that is mapped already sets its bits and cannot fail.
pub dirty_block : ℕ → Exec Fs (Result (Unit {0}))
dirty_block b s =
    if not (s.mapped b)
    then done (err e_not_found, s)
    else (if s.dirty b
        then done (ok tt, s)
        else done (ok tt, record s { dirty = update s.dirty b true }))

pub write_block : ℕ → Exec Fs (Unit {0})
write_block b s =
    if s.mapped b then done (tt, record s { disk = update s.disk b (s.cache b) }) else stop panic

-- A bitmap that is asked before it is read is a null pointer.
below_super : ℕ → Option ℕ → Bool
below_super b none = false
below_super b (some n) = ltb b n

pub block_is_free : ℕ → Exec Fs Bool
block_is_free b s =
    if below_super b s.super
    then (if s.bitmap_read then done (free_bit s b, s) else stop fault)
    else done (false, s)

-- syscall_mem_alloc of the block's page
alloc_page_from : ℕ → ℕ → Exec Fs (Result (Unit {0}))
alloc_page_from zero b s = done (err e_no_mem, s)
alloc_page_from (suc n) b s = done (
  ok tt,
  record s {
    mapped = update s.mapped b true;
    dirty = update s.dirty b false;
    cache = update s.cache b (λ _. 0);
    room = n;
  },
)

pub alloc_page : ℕ → Exec Fs (Result (Unit {0}))
alloc_page b s = alloc_page_from s.room b s

pub map_block : ℕ → Exec Fs (Result (Unit {0}))
map_block b s = branch (s.mapped b) (pure (ok tt)) (alloc_page b) s

past_super : ℕ → Option ℕ → Bool
past_super b none = false
past_super b (some n) = leb n b

load_block : ℕ → Exec Fs (Result (Unit {0}))
load_block b =
    attempt (alloc_page b)
      λ _. do modify (λ s. record s { cache = update s.cache b (s.disk b) }); pure (ok tt)

-- read_block; the result is whether the block came from the disk.
pub read_block : ℕ → Exec Fs (Result Bool)
read_block b s =
    if past_super b s.super
    then stop panic
    else (if s.bitmap_read && (below_super b s.super && free_bit s b)
        then stop panic
        else (if s.mapped b
            then done (ok false, s)
            else attempt (load_block b) (λ _. pure (ok true)) s))

pub unmap_block : ℕ → Exec Fs (Unit {0})
unmap_block b s =
    branch (s.mapped b)
      (do
        free ← block_is_free b
        (λ t. branch (not free && block_is_dirty t b) (write_block b) (pure tt) t)
        modify (λ t. record t { mapped = update t.mapped b false; room = t.room + 1 }))
      (pure tt) s

-- What reads `super` follows a null pointer before read_super.
abbrev pub with_super_at : {A : Type 0} → Option ℕ → (ℕ → Exec Fs A) → Exec Fs A
with_super_at none f s = stop fault
with_super_at (some n) f s = f n s

abbrev pub with_super : {A : Type 0} → (ℕ → Exec Fs A) → Exec Fs A
with_super f s = with_super_at s.super f s

pub mark_free : ℕ → Fs → Fs
mark_free b s = set_bitmap_word (b / 32) (set_bit (b % 32) (bitmap_word s (b / 32))) s

pub mark_used : ℕ → Fs → Fs
mark_used b s = set_bitmap_word (b / 32) (clear_bit (b % 32) (bitmap_word s (b / 32))) s

pub free_block : ℕ → Exec Fs (Unit {0})
free_block b =
    branch (b == 0) (pure tt) (with_super λ n. branch (leb n b) (pure tt) (modify (mark_free b)))

-- The loop of alloc_block_num: the first free block of the `n` from `b` on.
pub first_free : ℕ → ℕ → Fs → Option ℕ
first_free zero b s = none
first_free (suc n) b s = if free_bit s b then some b else first_free n (b + 1) s

pub take_block : Option ℕ → Exec Fs (Result ℕ)
take_block none = pure (err e_no_disk)
take_block (some b) = do modify (mark_used b); write_block (b / bits_per_block + 2); pure (ok b)

pub alloc_block_num : Exec Fs (Result ℕ)
alloc_block_num = with_super λ n. λ s. take_block (first_free (n - 3) 3 s) s

pub alloc_block : Exec Fs (Result ℕ)
alloc_block =
    attempt alloc_block_num
      λ b. do r ← map_block b; elim r [ ok x ↦ pure (ok b) | err e ↦ free_block b >> pure (err e) ]
