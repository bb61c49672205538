-- ===== src/Fs/Load.antt =====
-- read_block of fs/fs.c before the bitmap is read.
use os_challenge_sudo_shell.Base.{
  ℕ, suc, ◌+◌, ◌/◌, ◌%◌, fault, ◌<◌, ◌≡◌, refl, sym, ap, ◌∙◌, Bool, true, false, ◌&&◌, some, ◌==◌,
  if◌then◌else◌, update, Exec, Outcome, done, stop, Result, ok, err, arith, subst, Returns,
  Returns-bind,
}
use os_challenge_sudo_shell.Fs.{
  Fs, read_block, load_block, alloc_page, alloc_page_from, past_super, below_super, free_bit,
  block_is_free, bits_per_block,
}
use os_challenge_sudo_shell.Fs.Cache.{disk_bit}
use os_challenge_sudo_shell.Base.Bitmap.{bit}

-- The block is in the cache as it is on the disk, and nothing else has changed but the pages that are left.
pub record Loaded (b : ℕ) (s t : Fs) : Type 0 where
  pub super : t.super ≡ s.super
  pub read : t.bitmap_read ≡ s.bitmap_read
  pub disk : t.disk ≡ s.disk
  pub room : suc t.room ≡ s.room
  pub mapped : (x : ℕ) → t.mapped x ≡ (if b == x then true else s.mapped x)
  pub cache : (x i : ℕ) → t.cache x i ≡ (if b == x then s.disk x i else s.cache x i)

load_from :
    (b m : ℕ) (s : Fs)
    → s.room ≡ suc m
    → Returns
        (alloc_page_from (suc m) b s)
        (λ r t. (r ≡ ok tt) × Loaded b s (record t { cache = update t.cache b (t.disk b) }))
unfolding alloc_page_from
load_from b m s q = (
  refl,
  record {
    super = refl;
    read = refl;
    disk = refl;
    room = sym q;
    mapped = λ x. ground arith;
    cache = λ x i. ground arith;
  },
)

load_block-Loaded :
    (b m : ℕ) (s : Fs)
    → s.room ≡ suc m
    → Returns (load_block b s) (λ r t. (r ≡ ok tt) × Loaded b s t)
unfolding load_block alloc_page
load_block-Loaded b m s q =
    Returns-bind
      (λ r t. (r ≡ ok tt) × Loaded b s (record t { cache = update t.cache b (t.disk b) })) _
      alloc_page_b _ s
      (subst
        (λ k.
          Returns (alloc_page_from k b s)
            (λ r t. (r ≡ ok tt) × Loaded b s (record t { cache = update t.cache b (t.disk b) })))
        (sym q) (load_from b m s q))
      (elim [ ok x ↦ λ t h. (refl, h.1) | err x ↦ λ t h. absurd (ground (arith, h.0)) ])
  where
    alloc_page_b : Exec Fs (Result (Unit {0}))
    alloc_page_b s' = alloc_page_from s'.room b s'

pub read_block-Loaded :
    (n b m : ℕ) (s : Fs)
    → s.super ≡ some n
    → b < n
    → s.bitmap_read ≡ false
    → s.mapped b ≡ false
    → s.room ≡ suc m
    → Returns (read_block b s) (λ r t. (r ≡ ok true) × Loaded b s t)
unfolding read_block past_super
read_block-Loaded n b m s q lt r u k =
    let e : past_super b s.super ≡ false = rw q (ground arith) in
    let g : (s.bitmap_read && (below_super b s.super && free_bit s b)) ≡ false =
      ap (λ z. z && (below_super b s.super && free_bit s b)) r in
    rw (e, g, u)
      (Returns-bind (λ x t. (x ≡ ok tt) × Loaded b s t) _ (load_block b) _ s
        (load_block-Loaded b m s k)
        (elim [ ok x ↦ λ t h. (refl, h.1) | err x ↦ λ t h. absurd (ground (arith, h.0)) ]))

unused-false : (x : Bool) (y : Bool) → y ≡ false → (x && y) ≡ false
unused-false true y h = h
unused-false false y h = refl

-- A block that is in use and in the cache is there already.
pub read_block-mapped :
    (n b : ℕ) (s : Fs)
    → s.super ≡ some n
    → b < n
    → free_bit s b ≡ false
    → s.mapped b ≡ true
    → read_block b s ≡ done (ok false, s)
unfolding read_block past_super
read_block-mapped n b s q lt f m =
    let p : past_super b s.super ≡ false = ap (past_super b) q ∙ ground (arith, lt) in
    let u : (s.bitmap_read && (below_super b s.super && free_bit s b)) ≡ false =
      unused-false s.bitmap_read _ (unused-false (below_super b s.super) _ f) in
    rw (p, u, m) refl

-- The answer for a block below the size of the disk.
abbrev free_answer : ℕ → Fs → Bool → Outcome (Bool × Fs)
free_answer b s z = if z then done (free_bit s b, s) else stop fault

pub block_is_free-read :
    (n b : ℕ) (s : Fs)
    → s.super ≡ some n
    → b < n
    → s.bitmap_read ≡ true
    → Returns (block_is_free b s) (λ r t. (r ≡ free_bit s b) × (t ≡ s))
unfolding block_is_free below_super
block_is_free-read n b s q lt r =
    let e : below_super b s.super ≡ true = rw q (ground arith) in
    rw e (
      subst (λ z. Returns (free_answer b s z) (λ x t. (x ≡ free_bit s b) × (t ≡ s))) (sym r)
        (refl, refl))

-- A bit whose block was read is that of the disk.
pub free_bit-loaded :
    (b : ℕ) (s t : Fs)
    → ((i : ℕ) → t.cache (b / bits_per_block + 2) i ≡ s.disk (b / bits_per_block + 2) i)
    → free_bit t b ≡ disk_bit s b
unfolding free_bit
free_bit-loaded b s t f =
    let e : 2 + b / 32 / 1024 ≡ b / 32768 + 2 = omega arith in
    ap (λ x. bit (b % 32) (t.cache x (b / 32 % 1024))) e
    ∙ ap (λ w. bit (b % 32) w) (f (b / 32 % 1024))
