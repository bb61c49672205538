-- ===== src/Fs/Blocks.antt =====
-- The bitmap of free blocks in fs/fs.c: alloc_block_num, alloc_block and free_block.
use os_challenge_sudo_shell.Base.{
  ◌≢◌, ℕ, zero, suc, ◌+◌, ◌-◌, ◌/◌, ◌%◌, ◌≤◌, ◌<◌, ◌≡◌, refl, sym, true, false, Option, none, some,
  ◌==◌, if◌then◌else◌, update, ◌>>=◌, Result, ok, err, e_no_disk, arith, subst, Returns, Bool-cases,
  inl, inr, ==_iff,
}
use os_challenge_sudo_shell.Base.Bitmap.{bit-set_self, bit-set_ne, bit-clear_self, bit-clear_ne}
use os_challenge_sudo_shell.Fs.{
  Fs, free_bit, set_bitmap_word, bitmap_word, mark_used, mark_free, first_free, take_block,
  write_block, alloc_block_num, bits_per_block, with_super_at,
}

-- The bitmap after a block is taken, and after one is freed: that block's bit changes and no other.
pub free_bit-mark_used :
    (b c : ℕ) (s : Fs) → free_bit (mark_used b s) c ≡ (if b == c then false else free_bit s c)
unfolding free_bit mark_used set_bitmap_word
free_bit-mark_used b c s = ground (
  arith,
  bit-clear_self (b % 32) (bitmap_word s (b / 32)),
  bit-clear_ne (b % 32) (c % 32) (bitmap_word s (b / 32)),
)

pub free_bit-mark_free :
    (b c : ℕ) (s : Fs) → free_bit (mark_free b s) c ≡ (if b == c then true else free_bit s c)
unfolding free_bit mark_free set_bitmap_word
free_bit-mark_free b c s = ground (
  arith,
  bit-set_self (b % 32) (bitmap_word s (b / 32)),
  bit-set_ne (b % 32) (c % 32) (bitmap_word s (b / 32)),
)

-- The super block and the bitmap have been read: `n` blocks, and the blocks of their bits are mapped.
pub record Ready (n : ℕ) (s : Fs) : Type 0 where
  pub size : s.super ≡ some n
  pub read : s.bitmap_read ≡ true
  pub bits : (b : ℕ) → b < n → s.mapped (b / bits_per_block + 2) ≡ true

-- The scan finds the least free block of the range, or there is none.
abbrev pub Scanned : ℕ → ℕ → Fs → Option ℕ → Type 0
Scanned lo n s (some b) =
    (lo ≤ b)
    × (b < lo + n)
    × (free_bit s b ≡ true)
    × ((c : ℕ) → lo ≤ c → c < b → free_bit s c ≡ false)
Scanned lo n s none = (c : ℕ) → lo ≤ c → c < lo + n → free_bit s c ≡ false

scan_on :
    (lo n : ℕ) (s : Fs) (o : Option ℕ)
    → free_bit s lo ≡ false
    → Scanned (lo + 1) n s o
    → Scanned lo (suc n) s o
scan_on lo n s (some b) e (g, l, f, m) = (
  omega arith,
  omega arith,
  f,
  λ c h k. elim (Bool-cases (lo == c)) [
    | inl y ↦ let q : lo ≡ c = (==_iff lo c).0 y in rw (← q) e
    | inr x ↦ m c (ground arith) k
  ],
)
scan_on lo n s none e m = λ c h k. elim (Bool-cases (lo == c)) [
  | inl y ↦ let q : lo ≡ c = (==_iff lo c).0 y in rw (← q) e
  | inr x ↦ m c (ground arith) (omega arith)
]

first_free-Scanned : (n lo : ℕ) (s : Fs) → Scanned lo n s (first_free n lo s)
unfolding first_free
first_free-Scanned zero lo s = λ c h k. absurd (omega arith)
first_free-Scanned (suc n) lo s = elim (Bool-cases (free_bit s lo)) [
  | inl y ↦ rw y (omega arith, omega arith, y, λ c h k. absurd (omega arith))
  | inr e ↦ rw e (scan_on lo n s (first_free n (lo + 1) s) e (first_free-Scanned n (lo + 1) s))
]

-- The block is none of those that hold the bitmap.
abbrev pub Apart : ℕ → ℕ → Type 0
Apart n x = (c : ℕ) → c < n → c / bits_per_block + 2 ≢ x

-- What is in the cache stays there, and is the same outside the bitmap.
abbrev pub Kept : ℕ → Fs → Fs → Type 0
Kept n s t = (x : ℕ) → s.mapped x ≡ true → Apart n x → (t.cache x ≡ s.cache x) × (t.mapped x ≡ true)

-- The outcome of alloc_block_num.
abbrev pub Numbered : ℕ → Fs → Result ℕ → Fs → Type 0
Numbered n s (ok b) t =
    (3 ≤ b)
    × (b < n)
    × (free_bit s b ≡ true)
    × ((c : ℕ) → 3 ≤ c → c < b → free_bit s c ≡ false)
    × ((c : ℕ) → free_bit t c ≡ (if b == c then false else free_bit s c))
    × (t.disk ≡ update s.disk (b / bits_per_block + 2) (t.cache (b / bits_per_block + 2)))
    × (t.mapped ≡ s.mapped)
    × (t.room ≡ s.room)
    × Ready n t
    × Kept n s t
Numbered n s (err e) t =
    (e ≡ e_no_disk) × (t ≡ s) × ((c : ℕ) → 3 ≤ c → c < n → free_bit s c ≡ false)

take_block-Numbered :
    (n : ℕ) (s : Fs) (o : Option ℕ)
    → Ready n s
    → Scanned 3 (n - 3) s o
    → Returns (take_block o s) (Numbered n s)
unfolding take_block write_block mark_used set_bitmap_word free_bit
take_block-Numbered n s none r m = (refl, refl, λ c h k. m c h (omega arith))
take_block-Numbered n s (some b) r (g, l, f, m) =
    let lt : b < n = omega arith in
    rw (◌>>=◌, r.bits b lt)
      (
        g,
        lt,
        f,
        m,
        λ c. free_bit-mark_used b c s,
        refl,
        refl,
        refl,
        record { size = r.size; read = r.read; bits = r.bits },
        λ x k a. (ground (arith, a b lt), k),
      )

-- With the super block read and the bitmap in the cache, `alloc_block_num` comes to an end and
-- takes the least free block from 3 on: of all bits of the bitmap just that one is cleared, the
-- block of the bitmap that holds it is written to the disk as it then is in the cache, and no other
-- block is written. It fails with E_NO_DISK, with nothing changed, only if no block from 3 on is
-- free.
pub alloc_block_num-Numbered :
    (n : ℕ) (s : Fs) → Ready n s → Returns (alloc_block_num s) (Numbered n s)
unfolding alloc_block_num
alloc_block_num-Numbered n s r =
    subst
      (λ o.
        Returns (with_super_at o (λ n' s'. take_block (first_free (n' - 3) 3 s') s') s)
          (Numbered n s))
      (sym r.size)
      (take_block-Numbered n s (first_free (n - 3) 3 s) r (first_free-Scanned (n - 3) 3 s))
