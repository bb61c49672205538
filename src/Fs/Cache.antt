-- ===== src/Fs/Cache.antt =====
-- alloc_block and free_block of fs/fs.c, on the bitmap and on the cache of blocks.
use os_challenge_sudo_shell.Base.{
  ℕ, zero, suc, ◌+◌, ◌/◌, ◌%◌, ◌≤◌, ◌<◌, ◌≡◌, refl, sym, ◌∙◌, Bool, true, false, not, ◌&&◌, some,
  ltb, leb, ◌==◌, if◌then◌else◌, update, pure, modify, branch, ◌>>◌, Result, ok, err, e_no_disk,
  e_no_mem, arith, subst, Returns, Returns-bind, Bool-cases, inl, inr, ◌⊎◌,
}
use os_challenge_sudo_shell.Base.Bitmap.{bit}
use os_challenge_sudo_shell.Fs.Blocks.{
  Kept, Apart, Ready, Numbered, alloc_block_num-Numbered, free_bit-mark_free,
}
use os_challenge_sudo_shell.Fs.{
  Fs, free_bit, set_bitmap_word, mark_free, free_block, alloc_block_num, alloc_block, map_block,
  alloc_page, alloc_page_from, bits_per_block, with_super_at,
}

-- Blocks below `n` are as free as before.
abbrev pub SameBits : ℕ → Fs → Fs → Type 0
SameBits n s t = (c : ℕ) → c < n → free_bit t c ≡ free_bit s c

abbrev pub Mapped : ℕ → ℕ → Fs → Result (Unit {0}) → Fs → Type 0
Mapped n b s (ok u) t =
    (t.mapped b ≡ true) × SameBits n s t × (t.disk ≡ s.disk) × Ready n t × Kept n s t
Mapped n b s (err e) t = (e ≡ e_no_mem) × (s.room ≡ 0) × (t ≡ s)

alloc_page_from-Mapped :
    (n b room : ℕ) (s : Fs)
    → s.room ≡ room
    → s.mapped b ≡ false
    → Ready n s
    → Returns (alloc_page_from room b s) (Mapped n b s)
unfolding alloc_page_from free_bit
alloc_page_from-Mapped n b zero s q u r = (refl, q, refl)
alloc_page_from-Mapped n b (suc m) s q u r = (
  ground arith,
  λ c h. ground (arith, r.bits c h),
  refl,
  record { size = r.size; read = r.read; bits = λ c h. ground (arith, r.bits c h) },
  λ x k a. (ground arith, ground arith),
)

map_block-Mapped : (n b : ℕ) (s : Fs) → Ready n s → Returns (map_block b s) (Mapped n b s)
unfolding map_block alloc_page
map_block-Mapped n b s r = elim (Bool-cases (s.mapped b)) [
  | inl y ↦ rw y (y, λ c h. refl, refl, r, λ x' k a. (refl, k))
  | inr x ↦ rw x (alloc_page_from-Mapped n b s.room s refl x r)
]

mark_free-Ready : (n b : ℕ) (s : Fs) → Ready n s → Ready n (mark_free b s)
unfolding mark_free set_bitmap_word
mark_free-Ready n b s r = record { size = r.size; read = r.read; bits = r.bits }

mark_free-disk : (b : ℕ) (s : Fs) → (mark_free b s).disk ≡ s.disk
unfolding mark_free set_bitmap_word
mark_free-disk b s = refl

mark_free-Kept : (n b : ℕ) (s : Fs) → b < n → Kept n s (mark_free b s)
unfolding mark_free set_bitmap_word
mark_free-Kept n b s l x k a = (ground (arith, a b l), k)

-- Freeing sets the bit of a block of the disk other than 0, in the cache, and changes no other bit.
abbrev pub Freed : ℕ → ℕ → Fs → Unit {0} → Fs → Type 0
Freed n b s u t =
    (t.disk ≡ s.disk)
    × ((c : ℕ)
        → free_bit t c ≡ (if (not (b == 0) && ltb b n) && b == c then true else free_bit s c))
    × (Ready n s → Ready n t)
    × Kept n s t

-- With the super block read, `free_block` comes to an end. For a block of the disk other than 0 it
-- sets that block's bit in the cached bitmap and changes no other; for any other number no bit
-- changes. The disk is not written, and a bitmap that was in the cache still is.
pub free_block-Freed :
    (n b : ℕ) (s : Fs) → s.super ≡ some n → Returns (free_block b s) (Freed n b s)
unfolding free_block
free_block-Freed n b s q = elim (Bool-cases (b == 0)) [
  | inl y ↦ rw y (refl, λ c. ground (arith, y), λ r. r, λ x k a. (refl, k))
  | inr x ↦ rw x (
      subst
        (λ o.
          Returns (with_super_at o (λ n'. branch (leb n' b) (pure tt) (modify (mark_free b))) s)
            (Freed n b s))
        (sym q)
        (elim (Bool-cases (leb n b)) [
          | inl y ↦ rw y (refl, λ c. ground arith, λ r. r, λ x' k a. (refl, k))
          | inr z ↦ rw z (
            mark_free-disk b s,
            λ c. free_bit-mark_free b c s ∙ ground (arith, x, z),
            mark_free-Ready n b s,
            mark_free-Kept n b s (ground arith),
          )
        ]))
]

-- The bit of a block in the bitmap on the disk.
abbrev pub disk_bit : Fs → ℕ → Bool
disk_bit s b = bit (b % 32) (s.disk (b / bits_per_block + 2) (b / 32 % 1024))

-- The outcome of alloc_block.
abbrev pub Allocated : ℕ → Fs → Result ℕ → Fs → Type 0
Allocated n s (ok b) t =
    (3 ≤ b)
    × (b < n)
    × (free_bit s b ≡ true)
    × ((c : ℕ) → 3 ≤ c → c < b → free_bit s c ≡ false)
    × ((c : ℕ) → c < n → free_bit t c ≡ (if b == c then false else free_bit s c))
    × (t.mapped b ≡ true)
    × Ready n t
    × Kept n s t
Allocated n s (err e) t =
    ((e ≡ e_no_disk) × (t ≡ s) × ((c : ℕ) → 3 ≤ c → c < n → free_bit s c ≡ false))
    ⊎ ((e ≡ e_no_mem)
        × (s.room ≡ 0)
        × SameBits n s t
        × Ready n t
        × Kept n s t
        × ((b : ℕ) × (b < n) × (free_bit t b ≡ true) × (disk_bit t b ≡ false)))

pub Kept-trans : (n : ℕ) (s t u : Fs) → Kept n s t → Kept n t u → Kept n s u
Kept-trans n s t u f g x k a = let e = f x k a in let e' = g x e.1 a in (e'.0 ∙ e.0, e'.1)

synced :
    (b : ℕ) (s t : Fs)
    → t.disk ≡ update s.disk (b / bits_per_block + 2) (t.cache (b / bits_per_block + 2))
    → free_bit t b ≡ false
    → disk_bit t b ≡ false
unfolding free_bit
synced b s t d f =
    let e : 2 + b / 32 / 1024 ≡ b / 32768 + 2 = omega arith in
    let g : bit (b % 32) (t.cache (b / 32768 + 2) (b / 32 % 1024)) ≡ false =
      subst (λ z. bit (b % 32) (t.cache z (b / 32 % 1024)) ≡ false) e f in
    rw d (ground (arith, g))

no_room :
    (n b : ℕ) (s t : Fs)
    → Numbered n s (ok b) t
    → t.room ≡ 0
    → Returns ((free_block b >> pure {A = Result ℕ} (err e_no_mem)) t) (Allocated n s)
no_room n b s t h z =
    Returns-bind (Freed n b t) _ (free_block b) _ t (free_block-Freed n b t h.8.size) λ u w k. inr (
      refl,
      sym h.7 ∙ z,
      λ c l. k.1 c ∙ ground (arith, h.4 c, h.2, h.0, h.1),
      k.2 h.8,
      Kept-trans n s t w h.9 k.3,
      (b, h.1, k.1 b ∙ ground arith, rw k.0 (synced b s t h.5 (h.4 b ∙ ground arith))),
    )

-- With the super block read and the bitmap in the cache, `alloc_block` comes to an end. It takes
-- the least free block from 3 on, of all bits below the size of the disk clears just that one, and
-- leaves the block in the cache. It fails with E_NO_DISK, with nothing changed, only if no block
-- from 3 on is free, and with E_NO_MEM only if there is no page for the cache; then every bit below
-- the size of the disk is as before in the cache, but the bit of a block that is free there is
-- cleared on the disk.
pub alloc_block-Allocated : (n : ℕ) (s : Fs) → Ready n s → Returns (alloc_block s) (Allocated n s)
unfolding alloc_block
alloc_block-Allocated n s r =
    Returns-bind (Numbered n s) _ alloc_block_num _ s (alloc_block_num-Numbered n s r) (elim [
      | err e ↦ λ t h. inl h
      | ok b ↦ λ t h.
          Returns-bind (Mapped n b t) _ (map_block b) _ t (map_block-Mapped n b t h.8) (elim [
            | ok x ↦ λ u k.
                (h.0, h.1, h.2, h.3, λ c l. k.1 c l ∙ h.4 c, k.0, k.3, Kept-trans n s t u h.9 k.4)
            | err x ↦ λ u k. rw (k.0, k.2) (no_room n b s t h k.1)
          ])
    ])

-- A write to a block outside the bitmap changes no bit.
pub free_bit-put :
    (n x c : ℕ) (g : ℕ → ℕ) (s : Fs)
    → Apart n x
    → c < n
    → free_bit (record s { cache = update s.cache x g }) c ≡ free_bit s c
unfolding free_bit
free_bit-put n x c g s a l = ground (arith, a c l)
