-- ===== src/Files/Truncate.antt =====
-- file_truncate of fs/fs.c on a file without an indirect block.
use os_challenge_sudo_shell.Base.{
  ℕ, zero, suc, ◌+◌, ◌-◌, ◌≤◌, ◌<◌, ◌≡◌, refl, ◌∙◌, Bool, true, false, ◌&&◌, ◌||◌, ltb, leb, ◌==◌,
  if◌then◌else◌, pure, branch, panic_on, ◌>>◌, ok, err, arith, subst, Returns, Returns-bind,
  Returns-weaken, Bool-cases, inl, inr,
}
use os_challenge_sudo_shell.Fs.Blocks.{Ready, Apart}
use os_challenge_sudo_shell.Fs.{Fs, free_bit, ndirect}
use os_challenge_sudo_shell.Files.{
  put, file_clear_block, clear_blocks, drop_indirect, file_truncate, blocks_of,
}
use os_challenge_sudo_shell.Files.Walk.{
  Cleared, file_clear_block-Cleared, written, written-bits, written-Ready,
}

-- Whether one of the `count` words from `i` on of block `b` points to `c`, which is not 0.
pub held : ℕ → ℕ → ℕ → Fs → ℕ → Bool
held zero i b s c = false
held (suc count) i b s c = (ltb 0 (s.cache b i) && s.cache b i == c) || held count (i + 1) b s c

held-same :
    (count i b : ℕ) (s t : Fs) (c : ℕ)
    → ((j : ℕ) → i ≤ j → t.cache b j ≡ s.cache b j)
    → held count i b t c ≡ held count i b s c
unfolding held
held-same zero i b s t c f = refl
held-same (suc count) i b s t c f =
    let e : held count (i + 1) b t c ≡ held count (i + 1) b s c =
      held-same count (i + 1) b s t c (λ j h. f j (omega arith)) in
    rw (f i (omega arith), e) refl

-- The `count` words from `i` on are cleared, and the blocks that they name are free.
abbrev pub Emptied : ℕ → ℕ → ℕ → ℕ → Fs → Fs → Type 0
Emptied n b i count s t =
    ((j : ℕ) → t.cache b j ≡ (if leb i j && ltb j (i + count) then 0 else s.cache b j))
    × ((c : ℕ) → c < n → free_bit t c ≡ (if held count i b s c then true else free_bit s c))
    × Ready n t
    × (t.mapped b ≡ true)

Emptied-trans :
    (n b i count : ℕ) (s t u : Fs)
    → Cleared n b i s t
    → Emptied n b (i + 1) count t u
    → Emptied n b i (suc count) s u
unfolding held
Emptied-trans n b i count s t u (w, f, r, m) (w', f', r', m') = (
  λ j. w' j ∙ ground (arith, w j),
  λ c l.
      f' c l ∙ ground (arith, f c l, held-same count (i + 1) b s t c (λ j h. w j ∙ ground arith)),
  r',
  m',
)

module _ (n b o : ℕ) (a : Apart n b) where
  clear_blocks-Emptied :
      (count k : ℕ) (s : Fs)
      → k + count ≤ ndirect
      → Ready n s
      → s.mapped b ≡ true
      → Returns (clear_blocks count k (b, o) s) (λ _ t. Emptied n b (o + (34 + k)) count s t)
  unfolding clear_blocks held
  clear_blocks-Emptied zero k s h r m = (λ j. ground arith, λ c l. refl, r, m)
  clear_blocks-Emptied (suc count) k s h r m =
      let e : o + (34 + (k + 1)) ≡ o + (34 + k) + 1 = omega arith in
      Returns-bind (λ _ t. Cleared n b (o + (34 + k)) s t) _ (panic_on (file_clear_block (b, o) k))
        _ s
        (Returns-bind (λ x t. (x ≡ ok tt) × Cleared n b (o + (34 + k)) s t) _
          (file_clear_block (b, o) k) _ s (file_clear_block-Cleared n b o k s (omega arith) r m a)
          (elim [ ok x ↦ λ t g. g.1 | err x ↦ λ t g. absurd (ground (arith, g.0)) ]))
        λ x t g.
          Returns-weaken _ _ (clear_blocks count (k + 1) (b, o) t)
            (clear_blocks-Emptied count (k + 1) t (omega arith) g.2 g.3)
            λ y u q.
              Emptied-trans n b (o + (34 + k)) count s t u g
                (subst (λ i. Emptied n b i count t u) e q)

-- The number of blocks that a file of the entry gives up for the new size.
abbrev pub lost : ℕ → ℕ → ℕ → Fs → ℕ
lost b o newsize s = blocks_of (s.cache b (o + 32)) - blocks_of newsize

-- The entry after file_truncate: the size is set, the pointers past the new size are cleared, and the blocks
-- that they named are free.
abbrev pub Shrunk : ℕ → ℕ → ℕ → ℕ → Fs → Fs → Type 0
Shrunk n b o newsize s t =
    ((j : ℕ)
      → t.cache b j ≡ (
          if o + 32 == j
          then newsize
          else (if leb (o + (34 + blocks_of newsize)) j
                && ltb j (o + (34 + blocks_of newsize) + lost b o newsize s)
              then 0
              else s.cache b j)))
    × ((c : ℕ)
        → c < n
        → free_bit t c ≡ (
            if held (lost b o newsize s) (o + (34 + blocks_of newsize)) b s c
            then true
            else free_bit s c))
    × Ready n t

drop_indirect-none :
    (b o : ℕ) (s : Fs) → s.cache b (o + 44) ≡ 0 → Returns (drop_indirect (b, o) s) (λ _ t. t ≡ s)
unfolding drop_indirect
drop_indirect-none b o s z = let y : (s.cache b (o + 44) == 0) ≡ true = ground arith in rw y refl

module _ (n b o newsize : ℕ) (s : Fs) (a : Apart n b) (r : Ready n s) (m : s.mapped b ≡ true)
    (old : blocks_of (s.cache b (o + 32)) ≤ ndirect) (new : blocks_of newsize ≤ ndirect)
    (z : s.cache b (o + 44) ≡ 0) where
  sized :
      (t : Fs)
      → Emptied n b (o + (34 + blocks_of newsize)) (lost b o newsize s) s t
      → Shrunk n b o newsize s (written b (o + 32) newsize t)
  sized t (w, f, r', m') = (
    λ j. ground (arith, w j),
    λ c l. written-bits n b (o + 32) newsize t a c l ∙ f c l,
    written-Ready n b (o + 32) newsize t r',
  )

  end_of :
      (t : Fs)
      → Emptied n b (o + (34 + blocks_of newsize)) (lost b o newsize s) s t
      → Returns
          ((branch (leb (blocks_of newsize) ndirect) (drop_indirect (b, o)) (pure tt)
              >> put (b, o + 32) newsize)
            t)
          (λ _ u. Shrunk n b o newsize s u)
  unfolding put
  end_of t h =
      Returns-bind (λ _ u. u ≡ t) _
        (branch (leb (blocks_of newsize) ndirect) (drop_indirect (b, o)) (pure tt)) _ t
        (elim (Bool-cases (leb (blocks_of newsize) ndirect)) [
          | inl y ↦ rw y (drop_indirect-none b o t (h.0 (o + 44) ∙ ground (arith, z)))
          | inr x ↦ rw x refl
        ])
        λ x u e. rw e (sized t h)

  -- Let a file with no indirect block have at most ten blocks, let the new size have at most ten, and
  -- let the file's entry be in a cached block that holds no part of the bitmap, which is in the
  -- cache. Then `file_truncate` comes to an end: the entry has the new size, the pointers from the
  -- new number of blocks up to the old one are 0, and every other word of its block is as before;
  -- just the blocks that those pointers named become free, and every other bit below the size of the
  -- disk is as before.
  pub file_truncate-Shrunk :
      Returns (file_truncate (b, o) newsize s) (λ _ t. Shrunk n b o newsize s t)
  unfolding file_truncate
  file_truncate-Shrunk =
      Returns-bind (λ _ t. Emptied n b (o + (34 + blocks_of newsize)) (lost b o newsize s) s t) _
        (clear_blocks (lost b o newsize s) (blocks_of newsize) (b, o)) _ s
        (clear_blocks-Emptied n b o a (lost b o newsize s) (blocks_of newsize) s
          (omega (arith, old, new)) r m)
        λ x t h. end_of t h
