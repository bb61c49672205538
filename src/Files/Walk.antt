-- ===== src/Files/Walk.antt =====
-- file_map_block and file_clear_block of fs/fs.c on the direct pointers of a file.
use os_challenge_sudo_shell.Base.{
  ℕ, ◌+◌, ◌≤◌, ◌<◌, ◌≡◌, refl, sym, ap, ◌∙◌, ◌≢◌, Bool, true, false, ◌&&◌, ltb, ◌==◌, if◌then◌else◌,
  update, attempt, Result, ok, err, Error, e_no_disk, e_no_mem, arith, subst, Returns, Returns-bind,
  Returns-weaken, Bool-cases, inl, inr, ==_iff, lt→ltb, ◌⊎◌,
}
use os_challenge_sudo_shell.Fs.Blocks.{Ready, Apart}
use os_challenge_sudo_shell.Fs.Cache.{
  SameBits, Allocated, Freed, alloc_block-Allocated, free_block-Freed, free_bit-put,
}
use os_challenge_sudo_shell.Fs.{Fs, free_bit, ndirect, alloc_block, free_block}
use os_challenge_sudo_shell.Files.{
  put, file_block_walk, block_at, file_map_block, clear_at, file_clear_block,
}

-- The state after a word of block `b` is written.
abbrev pub written : ℕ → ℕ → ℕ → Fs → Fs
written b i v s = record s { cache = update s.cache b (update (s.cache b) i v) }

pub written-bits : (n b i v : ℕ) (s : Fs) → Apart n b → SameBits n s (written b i v s)
written-bits n b i v s a c l = free_bit-put n b c (update (s.cache b) i v) s a l

pub written-Ready : (n b i v : ℕ) (s : Fs) → Ready n s → Ready n (written b i v s)
written-Ready n b i v s r = record { size = r.size; read = r.read; bits = r.bits }

-- The outcome of a pointer that is followed, and filled in if it is zero. The pointer is word `i` of block
-- `b`.
abbrev pub Pointed : ℕ → ℕ → ℕ → Fs → Result ℕ → Fs → Type 0
Pointed n b i s (ok d) t =
    ((s.cache b i ≢ 0) × (d ≡ s.cache b i) × (t ≡ s))
    ⊎ ((s.cache b i ≡ 0)
        × (3 ≤ d)
        × (d < n)
        × (free_bit s d ≡ true)
        × ((c : ℕ) → c < n → free_bit t c ≡ (if d == c then false else free_bit s c))
        × ((j : ℕ) → t.cache b j ≡ (if i == j then d else s.cache b j))
        × Ready n t
        × (t.mapped b ≡ true))
Pointed n b i s (err e) t =
    (s.cache b i ≡ 0)
    × ((e ≡ e_no_disk) ⊎ (e ≡ e_no_mem))
    × SameBits n s t
    × ((j : ℕ) → t.cache b j ≡ s.cache b j)
    × Ready n t
    × (t.mapped b ≡ true)

-- What is left after a write of the new block's number.
-- The outcome of clearing a pointer: its block is free, and it is zero.
abbrev pub Cleared : ℕ → ℕ → ℕ → Fs → Fs → Type 0
Cleared n b i s t =
    ((j : ℕ) → t.cache b j ≡ (if i == j then 0 else s.cache b j))
    × ((c : ℕ)
        → c < n
        → free_bit t c ≡ (if ltb 0 (s.cache b i) && s.cache b i == c then true else free_bit s c))
    × Ready n t
    × (t.mapped b ≡ true)

module _ (n b i : ℕ) (s : Fs) (r : Ready n s) (m : s.mapped b ≡ true) (a : Apart n b) where
  filled :
      (d : ℕ) (t : Fs)
      → s.cache b i ≡ 0
      → Allocated n s (ok d) t
      → Pointed n b i s (ok ((written b i d t).cache b i)) (written b i d t)
  filled d t z h =
      let k = h.7 b m a in
      let q : (written b i d t).cache b i ≡ d = ground arith in
      subst (λ x. Pointed n b i s (ok x) (written b i d t)) (sym q)
        (inr (
          z,
          h.0,
          h.1,
          h.2,
          λ c l. written-bits n b i d t a c l ∙ h.4 c l,
          λ j. ground (arith, k.0),
          written-Ready n b i d t h.6,
          k.1,
        ))

  none_left :
      (e : Error) (t : Fs) → s.cache b i ≡ 0 → Allocated n s (err e) t → Pointed n b i s (err e) t
  none_left e t z (inl (q, same, f)) = rw same (z, inl q, λ c l. refl, λ j. refl, r, m)
  none_left e t z (inr (q, room, bits, ready, kept, rest)) =
      (z, inr q, bits, λ j. ap (λ g. g j) (kept b m a).0, ready, (kept b m a).1)

  pub block_at-Pointed : Returns (block_at (b, i) true s) (Pointed n b i s)
  unfolding block_at put
  block_at-Pointed = elim (Bool-cases (s.cache b i == 0)) [
    | inr x ↦ rw x (inl (ground arith, refl, refl))
    | inl y ↦
        let z : s.cache b i ≡ 0 = (==_iff (s.cache b i) 0).0 y in
        rw y (
          Returns-bind (Allocated n s) (Pointed n b i s) alloc_block _ s
            (alloc_block-Allocated n s r)
            (elim [ ok d ↦ λ t h. filled d t z h | err e ↦ λ t h. none_left e t z h ]))
  ]

  cleared :
      (t : Fs)
      → (s.cache b i == 0) ≡ false
      → Freed n (s.cache b i) s tt t
      → Cleared n b i s (written b i 0 t)
  cleared t x h =
      let k = h.3 b m a in
      (
        λ j. ground (arith, k.0),
        λ c l. written-bits n b i 0 t a c l ∙ (h.1 c ∙ ground (arith, l, x)),
        written-Ready n b i 0 t (h.2 r),
        k.1,
      )

  pub clear_at-Cleared : Returns (clear_at (b, i) s) (λ x t. (x ≡ ok tt) × Cleared n b i s t)
  unfolding clear_at put
  clear_at-Cleared = elim (Bool-cases (s.cache b i == 0)) [
    | inl y ↦ rw y (refl, (λ j. ground (arith, y), λ c l. ground (arith, y), r, m))
    | inr x ↦ rw x (
        Returns-bind (Freed n (s.cache b i) s) _ (free_block (s.cache b i)) _ s
          (free_block-Freed n (s.cache b i) s r.size) λ u t h. (refl, cleared t x h))
  ]

-- The pointer `k` of the file at word `o` of block `b`.
pub file_block_walk-direct :
    (b o k : ℕ) (c : Bool) (s : Fs)
    → k < ndirect
    → Returns (file_block_walk (b, o) k c s) (λ x t. (x ≡ ok (b, o + (34 + k))) × (t ≡ s))
unfolding file_block_walk
file_block_walk-direct b o k c s lt = rw (lt→ltb k ndirect lt) (refl, refl)

module _ (n b o k : ℕ) (s : Fs) (lt : k < ndirect) (r : Ready n s) (m : s.mapped b ≡ true)
    (a : Apart n b) where
  -- For a direct pointer of a file whose entry is in a cached block that holds no part of the bitmap,
  -- which is in the cache, `file_map_block`, told to allocate, comes to an end. A pointer that is not
  -- 0 is the result, with nothing changed. One that is 0 is set to a block that was free and is the
  -- result: of the words of the entry's block just the pointer changes, and of the bits below the
  -- size of the disk just that block's. It fails only for a pointer that is 0, with E_NO_DISK or
  -- E_NO_MEM, with every such word and bit as before.
  pub file_map_block-Pointed :
      Returns (file_map_block (b, o) k true s) (Pointed n b (o + (34 + k)) s)
  unfolding file_map_block
  file_map_block-Pointed =
      Returns-bind _ (Pointed n b (o + (34 + k)) s) (file_block_walk (b, o) k true) _ s
        (file_block_walk-direct b o k true s lt)
        λ x t h. rw (h.0, h.1) (block_at-Pointed n b (o + (34 + k)) s r m a)

  pub file_clear_block-Cleared :
      Returns (file_clear_block (b, o) k s) (λ x t. (x ≡ ok tt) × Cleared n b (o + (34 + k)) s t)
  unfolding file_clear_block
  file_clear_block-Cleared =
      Returns-bind _ (λ x t. (x ≡ ok tt) × Cleared n b (o + (34 + k)) s t)
        (file_block_walk (b, o) k false) _ s (file_block_walk-direct b o k false s lt)
        λ x t h. rw (h.0, h.1) (clear_at-Cleared n b (o + (34 + k)) s r m a)

-- Nothing is left of a block: the bitmap and the file's entry are as before.
abbrev pub Restored : ℕ → ℕ → Fs → Fs → Type 0
Restored n b s t = SameBits n s t × ((j : ℕ) → t.cache b j ≡ s.cache b j) × Ready n t

restored :
    (n b i d : ℕ) (s t u : Fs)
    → s.cache b i ≡ 0
    → Pointed n b i s (ok d) t
    → Cleared n b i t u
    → Restored n b s u
restored n b i d s t u z (inl (nz, q, e)) k = absurd (nz z)
restored n b i d s t u z (inr (z', g, l, f, bits, words, ready, m)) (w, c, r, m') = (
  λ x h. c x h ∙ ground (arith, bits x h, words i, f, g),
  λ j. w j ∙ ground (arith, words j, z),
  r,
)

-- For a direct pointer that is 0, of a file whose entry is in a cached block that holds no part of
-- the bitmap, which is in the cache: `file_map_block`, told to allocate, and then
-- `file_clear_block` if that succeeds, come to an end, and on success and on every error each word
-- of the entry's block and each cached bit of the bitmap below the size of the disk are as before.
-- The bitmap on the disk and the block's own page are not compared.
pub file_map_block-file_clear_block :
    (n b o k : ℕ) (s : Fs)
    → k < ndirect
    → Ready n s
    → s.mapped b ≡ true
    → Apart n b
    → s.cache b (o + (34 + k)) ≡ 0
    → Returns
        (attempt (file_map_block (b, o) k true) (λ d. file_clear_block (b, o) k) s)
        (λ x t. Restored n b s t)
file_map_block-file_clear_block n b o k s lt r m a z =
    Returns-bind (Pointed n b (o + (34 + k)) s) _ (file_map_block (b, o) k true) _ s
      (file_map_block-Pointed n b o k s lt r m a)
      (elim [ ok d ↦ λ t h. again d t h | err e ↦ λ t h. (h.2, h.3, h.4) ])
  where
    again :
        (d : ℕ) (t : Fs)
        → Pointed n b (o + (34 + k)) s (ok d) t
        → Returns (file_clear_block (b, o) k t) (λ x u. Restored n b s u)
    again d t (inl (nz, q, e)) = absurd (nz z)
    again d t (inr h) =
        Returns-weaken _ _ (file_clear_block (b, o) k t)
          (file_clear_block-Cleared n b o k t lt h.6 h.7 a)
          λ x u g. restored n b (o + (34 + k)) d s t u z (inr h) g.1
