-- ===== src/Mount/Bits.antt =====
-- read_bitmap of fs/fs.c.
use os_challenge_sudo_shell.Base.{
  ℕ, zero, suc, ◌+◌, ◌/◌, ◌≤◌, ◌<◌, ◌≡◌, refl, sym, ap, ◌∙◌, true, false, ◌&&◌, some, ltb, leb,
  if◌then◌else◌, Exec, modify, ◌>>◌, ok, arith, subst, Returns, Returns-bind, Returns-weaken,
}
use os_challenge_sudo_shell.Fs.{
  Fs, bits_per_block, free_bit, read_block, block_is_free, with_super_at,
}
use os_challenge_sudo_shell.Fs.Blocks.{Ready}
use os_challenge_sudo_shell.Fs.Cache.{disk_bit}
use os_challenge_sudo_shell.Fs.Load.{Loaded, read_block-Loaded, block_is_free-read, free_bit-loaded}
use os_challenge_sudo_shell.Mount.{read_blocks, ensure_used, ensure_all_used, read_bitmap, nbitmap}

-- Blocks i + 2 up to i + count + 2 have been read from the disk, and nothing else has changed.
pub record Fetched (i count : ℕ) (s t : Fs) : Type 0 where
  pub super : t.super ≡ s.super
  pub read : t.bitmap_read ≡ s.bitmap_read
  pub disk : t.disk ≡ s.disk
  pub mapped :
      (x : ℕ) → t.mapped x ≡ (if leb (i + 2) x && ltb x (i + count + 2) then true else s.mapped x)
  pub cache :
      (x j : ℕ)
      → t.cache x j ≡ (if leb (i + 2) x && ltb x (i + count + 2) then s.disk x j else s.cache x j)

Fetched-trans :
    (i count : ℕ) (s t u : Fs)
    → Loaded (i + 2) s t
    → Fetched (i + 1) count t u
    → Fetched i (suc count) s u
Fetched-trans i count s t u l f = record {
  super = f.super ∙ l.super;
  read = f.read ∙ l.read;
  disk = f.disk ∙ l.disk;
  mapped = λ x. f.mapped x ∙ ground (arith, l.mapped x);
  cache = λ x j. f.cache x j ∙ ground (arith, l.cache x j, ap (λ d. d x j) l.disk);
}

read_blocks-Fetched :
    (n count i m : ℕ) (s : Fs)
    → s.super ≡ some n
    → i + count + 2 ≤ n
    → s.bitmap_read ≡ false
    → ((x : ℕ) → i + 2 ≤ x → x < i + count + 2 → s.mapped x ≡ false)
    → s.room ≡ count + m
    → Returns (read_blocks count i s) (λ _ t. Fetched i count s t)
unfolding read_blocks
read_blocks-Fetched n zero i m s q l r u k = record {
  super = refl;
  read = refl;
  disk = refl;
  mapped = λ x. ground arith;
  cache = λ x j. ground arith;
}
read_blocks-Fetched n (suc count) i m s q l r u k =
    Returns-bind (λ x t. (x ≡ ok true) × Loaded (i + 2) s t) _ (read_block (i + 2))
      (λ r'. read_blocks count (i + 1)) s
      (read_block-Loaded n (i + 2) (count + m) s q (omega (arith, l)) r
        (u (i + 2) (omega arith) (omega arith)) (omega (arith, k)))
      λ x t h.
        Returns-weaken _ _ (read_blocks count (i + 1) t)
          (read_blocks-Fetched n count (i + 1) m t (h.1.super ∙ q) (omega (arith, l)) (h.1.read ∙ r)
            (λ y a b. h.1.mapped y ∙ ground (arith, u y)) (omega (arith, k, h.1.room)))
          λ y w f. Fetched-trans i count s t w h.1 f

module _ (n : ℕ) (s : Fs) (q : s.super ≡ some n) (r : s.bitmap_read ≡ true) where
  ensure_used-same :
      (b : ℕ) → b < n → free_bit s b ≡ false → Returns (ensure_used b s) (λ _ t. t ≡ s)
  unfolding ensure_used
  ensure_used-same b l f =
      Returns-bind (λ x t. (x ≡ free_bit s b) × (t ≡ s)) _ (block_is_free b) _ s
        (block_is_free-read n b s q l r) λ x t h. rw (h.0, h.1, f) refl

  ensure_all_used-same :
      (count i : ℕ)
      → i + count + 2 ≤ n
      → ((b : ℕ) → i + 2 ≤ b → b < i + count + 2 → free_bit s b ≡ false)
      → Returns (ensure_all_used count i s) (λ _ t. t ≡ s)
  unfolding ensure_all_used
  ensure_all_used-same zero i l f = refl
  ensure_all_used-same (suc count) i l f =
      Returns-bind (λ _ t. t ≡ s) _ (ensure_used (i + 2)) _ s
        (ensure_used-same (i + 2) (omega (arith, l)) (f (i + 2) (omega arith) (omega arith)))
        λ x t e. rw e (
          ensure_all_used-same count (i + 1) (omega (arith, l))
            λ b g h. f b (omega (arith, g)) (omega (arith, h)))

-- With the super block read, on a disk that is larger than what holds its bitmap, none of which is
-- in the cache, with enough pages for it, and where the blocks up to the end of the bitmap are
-- marked as used on the disk: `read_bitmap` comes to an end, with no check failed. Then the blocks
-- of the bitmap are in the cache, and each bit below the size of the disk is that of the disk.
pub read_bitmap-Ready :
    (n m : ℕ) (s : Fs)
    → s.super ≡ some n
    → nbitmap n + 2 ≤ n
    → s.bitmap_read ≡ false
    → ((x : ℕ) → 2 ≤ x → x < nbitmap n + 2 → s.mapped x ≡ false)
    → s.room ≡ nbitmap n + m
    → ((b : ℕ) → b < nbitmap n + 2 → disk_bit s b ≡ false)
    → Returns (read_bitmap s) (λ _ t. Ready n t × ((b : ℕ) → b < n → free_bit t b ≡ disk_bit s b))
unfolding read_bitmap
read_bitmap-Ready n m s q l r u k f =
    subst (λ o. Returns (with_super_at o body s) result) (sym q)
      (Returns-bind (λ _ t. Fetched 0 (nbitmap n) s t) result (read_blocks (nbitmap n) 0) _ s
        (read_blocks-Fetched n (nbitmap n) 0 m s q (omega (arith, l)) r
          (λ x a b. u x (omega (arith, a)) (omega (arith, b))) k)
        λ x t h. checks t h)
  where
    body : ℕ → Exec Fs (Unit {0})
    body n' =
        read_blocks (nbitmap n') 0
        >> (modify (λ s'. record s' { bitmap_read = true })
            >> (ensure_used 0 >> (ensure_used 1 >> ensure_all_used (nbitmap n') 0)))

    result : Unit {0} → Fs → Type 0
    result _ t = Ready n t × ((b : ℕ) → b < n → free_bit t b ≡ disk_bit s b)

    checks :
        (t : Fs)
        → Fetched 0 (nbitmap n) s t
        → Returns
            ((ensure_used 0 >> (ensure_used 1 >> ensure_all_used (nbitmap n) 0))
              (record t { bitmap_read = true }))
            result
    checks t h =
        let v : Fs = record t { bitmap_read = true } in
        let p : v.super ≡ some n = h.super ∙ q in
        let bits : (b : ℕ) → b < n → free_bit v b ≡ disk_bit s b =
          λ b lt. free_bit-loaded b s v (λ i. h.cache (b / bits_per_block + 2) i ∙ ground arith) in
        Returns-bind (λ _ w. w ≡ v) result (ensure_used 0) _ v
          (ensure_used-same n v p refl 0 (omega (arith, l))
            (bits 0 (omega (arith, l)) ∙ f 0 (omega arith)))
          λ x w e. rw e (
            Returns-bind (λ _ w'. w' ≡ v) result (ensure_used 1) _ v
              (ensure_used-same n v p refl 1 (omega (arith, l))
                (bits 1 (omega (arith, l)) ∙ f 1 (omega arith)))
              λ y w' e'. rw e' (
                Returns-weaken _ result (ensure_all_used (nbitmap n) 0 v)
                  (ensure_all_used-same n v p refl (nbitmap n) 0 (omega (arith, l))
                    (λ b g h'. bits b (omega (arith, h', l)) ∙ f b (omega (arith, h'))))
                  λ z w'' e''. rw e'' (
                    record {
                      size = p;
                      read = refl;
                      bits = λ b lt. h.mapped (b / bits_per_block + 2) ∙ ground arith;
                    },
                    bits,
                  )))
