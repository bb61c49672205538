-- ===== src/Elf/Segment.antt =====
-- elf_load_seg of lib/elfloader.c with the callback of load_icode: what it leaves in memory.
use os_challenge_sudo_shell.Base.{
  ℕ, ◌+◌, ◌-◌, ◌*◌, ◌/◌, ◌%◌, ◌^◌, ◌≤◌, ◌<◌, ◌≡◌, ◌≢◌, ◌⊎◌, inl, inr, refl, ap, ◌∙◌, min, Bool,
  false, ◌&&◌, Option, none, some, ltb, leb, if◌then◌else◌, update, update_self, update_ne,
  e_no_mem, Result, ok, err, Bool-cases, ltb→lt, ltb→le, le→ltb, arith, Fails,
}
use os_challenge_sudo_shell.Elf.{
  Phdr, seg_perm, seg_offset, first_len, first_chunk, content_chunk, Mapped, Image, page_bytes,
}

-- The call comes to an end: without memory, if a page was refused, or this holds of what it returns and
-- leaves.
abbrev pub Ended : (ℕ → Bool) → Option (Result ℕ × Image) → (ℕ → Image → Type 0) → Type 0
Ended refused none Q = Fails
Ended refused (some (err e, t)) Q = (e ≡ e_no_mem) × ¬ ((x : ℕ) → refused x ≡ false)
Ended refused (some (ok r, t)) Q = Q r t

-- The byte at an address, with the permission of its page
abbrev pub byte_of : ℕ → Option Mapped → Option (ℕ × ℕ)
byte_of x none = none
byte_of x (some m) = some (m.perm, m.bytes x)

abbrev pub at : Image → ℕ → Option (ℕ × ℕ)
at t a = byte_of (a % 4096) (t (a / 4096))

-- What a segment has at a place: the bytes of the file, and zeros behind them
abbrev pub wanted : (ℕ → ℕ) → Phdr → ℕ → ℕ
wanted bin ph j = if ltb j ph.p_filesz then bin j else 0

-- The first `k` bytes of the segment are in place, and the pages without a byte of it are as before.
abbrev pub Placed : (ℕ → ℕ) → Phdr → Image → ℕ → Image → Type 0
Placed bin ph s k t =
    ((j : ℕ) → j < k → j < ph.p_memsz → at t (ph.p_vaddr + j) ≡ some (seg_perm ph, wanted bin ph j))
    × ((x : ℕ) → (x * 4096 + 4096 ≤ ph.p_vaddr) ⊎ (ph.p_vaddr + ph.p_memsz ≤ x * 4096) → t x ≡ s x)

-- The segment is in place.
abbrev pub Loaded : (ℕ → ℕ) → Phdr → Image → ℕ → Image → Type 0
Loaded bin ph s r t = (r ≡ 0) × Placed bin ph s ph.p_memsz t

-- Either the next page has no byte of the segment yet, or there is nothing left to do.
abbrev pub Aligned : Phdr → ℕ → Type 0
Aligned ph i = ((ph.p_vaddr + i) % 4096 ≡ 0) ⊎ (ph.p_memsz ≤ i)

at-of :
    (t : Image) (a p : ℕ) (m : Mapped)
    → a / 4096 ≡ p
    → t p ≡ some m
    → at t a ≡ some (m.perm, m.bytes (a % 4096))
at-of t a p m e h = ap (λ x. byte_of (a % 4096) (t x)) e ∙ ap (byte_of (a % 4096)) h

at-same : (t u : Image) (a : ℕ) → t (a / 4096) ≡ u (a / 4096) → at t a ≡ at u a
at-same t u a e = ap (byte_of (a % 4096)) e

abbrev pub page_of : Phdr → (ℕ → ℕ) → Mapped
page_of ph b = record { perm = seg_perm ph; bytes = b }

module _ (bin : ℕ → ℕ) (ph : Phdr) (s : Image) where
  -- A page that follows those in place
  pub put_page :
      (i : ℕ) (t : Image) (b : ℕ → ℕ)
      → (ph.p_vaddr + i) % 4096 ≡ 0
      → i < ph.p_memsz
      → ((x : ℕ) → x < 4096 → b x ≡ wanted bin ph (i + x))
      → Placed bin ph s i t
      → Placed bin ph s (i + 4096) (update t ((ph.p_vaddr + i) / 4096) (some (page_of ph b)))
  put_page i t b al lt hb (h, g) = (
    λ j jk jm. elim (Bool-cases (ltb j i)) [
      | inl y ↦
          let ji = ltb→lt j i y in
          let ne : (ph.p_vaddr + i) / 4096 ≢ (ph.p_vaddr + j) / 4096 = λ e. omega arith in
          at-same (update t ((ph.p_vaddr + i) / 4096) (some (page_of ph b))) t (ph.p_vaddr + j) (
            update_ne t ((ph.p_vaddr + i) / 4096) ((ph.p_vaddr + j) / 4096) (some (page_of ph b))
              ne)
          ∙ h j ji jm
      | inr y ↦
          let ij = ltb→le j i y in
          let e : (ph.p_vaddr + j) / 4096 ≡ (ph.p_vaddr + i) / 4096 = omega arith in
          let d : (ph.p_vaddr + j) % 4096 ≡ j - i = omega arith in
          let sum : i + (j - i) ≡ j = omega arith in
          at-of (update t ((ph.p_vaddr + i) / 4096) (some (page_of ph b))) (ph.p_vaddr + j)
            ((ph.p_vaddr + i) / 4096) (page_of ph b) e
            (update_self t ((ph.p_vaddr + i) / 4096) (some (page_of ph b)))
          ∙ ap (λ x. some (seg_perm ph, x))
              (ap b d ∙ hb (j - i) (omega arith) ∙ ap (wanted bin ph) sum)
    ],
    λ x out.
        let ne : (ph.p_vaddr + i) / 4096 ≢ x =
          λ e. elim out [ inl o ↦ omega arith | inr o ↦ omega arith ] in
        update_ne t ((ph.p_vaddr + i) / 4096) x (some (page_of ph b)) ne ∙ g x out,
  )

  content_test :
      (i x : ℕ)
      → i < ph.p_filesz
      → x < 4096
      → (leb 0 x && ltb x (0 + min (ph.p_filesz - i) 4096)) ≡ ltb (i + x) ph.p_filesz
  content_test i x lt h = ground arith

  pub content_bytes :
      (i x : ℕ)
      → i < ph.p_filesz
      → x < 4096
      → page_bytes bin (content_chunk ph i) x ≡ wanted bin ph (i + x)
  content_bytes i x lt h =
      let e : i + (x - 0) ≡ i + x = omega arith in
      ap (λ y. if y then bin (i + (x - 0)) else 0) (content_test i x lt h)
      ∙ ap (λ k. if ltb (i + x) ph.p_filesz then bin k else 0) e

  first_test :
      (x : ℕ)
      → seg_offset ph ≤ x
      → x < 4096
      → (leb (seg_offset ph) x && ltb x (seg_offset ph + first_len ph))
        ≡ ltb (x - seg_offset ph) ph.p_filesz
  first_test x h lt = ground arith

  first_bytes :
      (x : ℕ)
      → seg_offset ph ≤ x
      → x < 4096
      → page_bytes bin (first_chunk ph) x ≡ wanted bin ph (x - seg_offset ph)
  first_bytes x h lt =
      let e : 0 + (x - seg_offset ph) ≡ x - seg_offset ph = omega arith in
      ap (λ y. if y then bin (0 + (x - seg_offset ph)) else 0) (first_test x h lt)
      ∙ ap (λ k. if ltb (x - seg_offset ph) ph.p_filesz then bin k else 0) e

  -- Step 2 has zeros for all that is behind the file's bytes.
  pub zero_bytes : (i x : ℕ) → ph.p_filesz ≤ i → 0 ≡ wanted bin ph (i + x)
  zero_bytes i x h = rw (le→ltb (i + x) ph.p_filesz (omega arith)) refl

  pub wrap : (a : ℕ) → a < 4294967296 → a % 2 ^ 32 ≡ a
  wrap a h = omega arith

  -- The page in which the segment starts
  pub put_first :
      0 < ph.p_memsz
      → Placed bin ph s
          (first_len ph)
          (update s (ph.p_vaddr / 4096) (some (page_of ph (page_bytes bin (first_chunk ph)))))
  put_first some_bytes = (
    λ j jk jm.
        let e : (ph.p_vaddr + j) / 4096 ≡ ph.p_vaddr / 4096 = omega arith in
        let d : (ph.p_vaddr + j) % 4096 ≡ seg_offset ph + j = omega arith in
        let r : seg_offset ph + j - seg_offset ph ≡ j = omega arith in
        at-of (update s (ph.p_vaddr / 4096) (some (page_of ph (page_bytes bin (first_chunk ph)))))
          (ph.p_vaddr + j) (ph.p_vaddr / 4096) (page_of ph (page_bytes bin (first_chunk ph))) e
          (update_self s (ph.p_vaddr / 4096) (some (page_of ph (page_bytes bin (first_chunk ph)))))
        ∙ ap (λ x. some (seg_perm ph, x))
            (ap (page_bytes bin (first_chunk ph)) d
              ∙ first_bytes (seg_offset ph + j) (omega arith) (omega arith)
              ∙ ap (wanted bin ph) r),
    λ x out.
        let ne : ph.p_vaddr / 4096 ≢ x =
          λ e. elim out [ inl o ↦ omega arith | inr o ↦ omega arith ] in
        update_ne s (ph.p_vaddr / 4096) x (some (page_of ph (page_bytes bin (first_chunk ph)))) ne,
  )
