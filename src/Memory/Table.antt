-- ===== src/Memory/Table.antt =====
-- kern/pmap.c against the reading of a page table: what `page_insert` and `page_remove` map.
use os_challenge_sudo_shell.Base.{
  ℕ, ◌/◌, ◌^◌, ◌<◌, bit_or, ◌≡◌, refl, sym, ap, ◌∙◌, ◌≢◌, true, false, ◌==◌, update, arith, subst,
  has, Bool-cases, ◌⊎◌, inl, inr,
}
use native.Mathlib.Decide.{ℕ_discrete}
use os_challenge_sudo_shell.Base.Bits.{div_4096-bit_or, bit_7-bit_or, bit_or-zero}
use os_challenge_sudo_shell.Memory.View.{dir_entry, pte, translate}
use os_challenge_sudo_shell.Memory.{
  Memory, pdx, ptx, ppn, is_valid, page2pa, entry_for, utop, pte_v, pte_c_cacheable,
}

-- An entry that is made for a page is valid, and names the page with the perm bits above 4096 mixed in.
pub entry_for-is_valid : (p perm : ℕ) → is_valid (entry_for p perm) ≡ true
entry_for-is_valid p perm =
    ground (arith, bit_7-bit_or (bit_or (bit_or (page2pa p) perm) pte_c_cacheable) pte_v)

pub ppn-entry_for : (p perm : ℕ) → p < 2 ^ 20 → ppn (entry_for p perm) ≡ bit_or p (perm / 4096)
ppn-entry_for p perm h =
    let e : page2pa p / 4096 ≡ p = omega arith in
    rw (div_4096-bit_or, bit_or-zero, div_4096-bit_or, bit_or-zero, div_4096-bit_or, e)

pub dir_entry_for :
    (p : ℕ)
    → p < 2 ^ 20
    → (is_valid (bit_or (bit_or (page2pa p) pte_v) pte_c_cacheable) ≡ true)
      × (ppn (bit_or (bit_or (page2pa p) pte_v) pte_c_cacheable) ≡ p)
dir_entry_for p h = (
  ground (
    arith,
    bit_7-bit_or (bit_or (page2pa p) pte_v) pte_c_cacheable,
    bit_7-bit_or (page2pa p) pte_v,
  ),
  let e : page2pa p / 4096 ≡ p = omega arith in
      rw (div_4096-bit_or, bit_or-zero, div_4096-bit_or, bit_or-zero, e),
)

-- The page tables below UTOP are pages of their own, apart from the directory.
pub record Shape (m : Memory) (d : ℕ) : Type 0 where
  pub other : (va : ℕ) → va < utop → is_valid (dir_entry m d va) ≡ true → ppn (dir_entry m d va) ≢ d
  pub apart :
      (va vb : ℕ)
      → va < utop
      → vb < utop
      → is_valid (dir_entry m d va) ≡ true
      → is_valid (dir_entry m d vb) ≡ true
      → pdx va ≢ pdx vb
      → ppn (dir_entry m d va) ≢ ppn (dir_entry m d vb)

-- The pages of a table are not free.
pub record InUse (m : Memory) (d : ℕ) : Type 0 where
  pub dir_used : has d m.free ≡ false
  pub table_used :
      (va : ℕ)
      → va < utop
      → is_valid (dir_entry m d va) ≡ true
      → has (ppn (dir_entry m d va)) m.free ≡ false

-- Two addresses on one page.
abbrev pub SamePage : ℕ → ℕ → Type 0
SamePage va vb = va / 4096 ≡ vb / 4096

-- Everything but the page of `va` is mapped as before.
abbrev pub SameElsewhere : ℕ → ℕ → Memory → Memory → Type 0
SameElsewhere d va m t =
    (vb : ℕ) → vb < utop → ¬ SamePage va vb → translate t d vb ≡ translate m d vb

-- A write of the entry for `va` in its table.
abbrev pub written : Memory → ℕ → ℕ → ℕ → Memory
written m d va v = record m {
  word =
      update m.word (ppn (dir_entry m d va)) (update (m.word (ppn (dir_entry m d va))) (ptx va) v);
}

module _ (d va v : ℕ) (m : Memory) (lt : va < utop) (valid : is_valid (dir_entry m d va) ≡ true)
    (s : Shape m d) where
  pub written-dir_entry : (vb : ℕ) → dir_entry (written m d va v) d vb ≡ dir_entry m d vb
  written-dir_entry vb = ground (arith, s.other va lt valid)

  pub written-pte : pte (written m d va v) d va ≡ v
  written-pte = rw (written-dir_entry va) (ground arith)

  pub written-Shape : Shape (written m d va v) d
  written-Shape = record {
    other = λ vb h e. rw (written-dir_entry vb) (s.other vb h (rw (← written-dir_entry vb) e));
    apart = λ vb vc h k e f n.
        rw (written-dir_entry vb, written-dir_entry vc)
          (s.apart vb vc h k (rw (← written-dir_entry vb) e) (rw (← written-dir_entry vc) f) n);
  }

  written-pte_else :
      (vb : ℕ)
      → vb < utop
      → ¬ SamePage va vb
      → is_valid (dir_entry m d vb) ≡ true
      → pte (written m d va v) d vb ≡ pte m d vb
  written-pte_else vb h n e = rw (written-dir_entry vb) (ground (arith, s.apart va vb lt h valid e))

  pub written-SameElsewhere : SameElsewhere d va m (written m d va v)
  written-SameElsewhere vb h n = elim (Bool-cases (is_valid (dir_entry m d vb))) [
    | inl e ↦ rw (written-pte_else vb h n e, written-dir_entry vb)
    | inr e ↦ rw (written-dir_entry vb, e)
  ]

-- A fresh page table for `va`, on a page `p` that was free.
abbrev pub tabled : Memory → ℕ → ℕ → ℕ → ℕ → ℕ → ℕ
tabled m d va p = update (update m.word p (λ _. 0)) d (
    update (update m.word p (λ _. 0) d) (pdx va)
      (bit_or (bit_or (page2pa p) pte_v) pte_c_cacheable))

module _ (d va p : ℕ) (m t : Memory) (lt : va < utop) (small : p < 2 ^ 20)
    (was_free : has p m.free ≡ true) (none_yet : is_valid (dir_entry m d va) ≡ false)
    (s : Shape m d) (u : InUse m d) (now : t.word ≡ tabled m d va p) where
  apart_dir : p ≢ d
  apart_dir e = let h = u.dir_used in ground arith

  pub tabled-dir_self :
      (vb : ℕ)
      → pdx va ≡ pdx vb
      → dir_entry t d vb ≡ bit_or (bit_or (page2pa p) pte_v) pte_c_cacheable
  tabled-dir_self vb e = rw now (ground (arith, apart_dir))

  tabled-dir_else : (vb : ℕ) → pdx va ≢ pdx vb → dir_entry t d vb ≡ dir_entry m d vb
  tabled-dir_else vb e = rw now (ground (arith, apart_dir))

  tabled-pte_self : (vb : ℕ) → pdx va ≡ pdx vb → pte t d vb ≡ 0
  tabled-pte_self vb e =
      ap (λ x. t.word x (ptx vb)) (ap ppn (tabled-dir_self vb e) ∙ (dir_entry_for p small).1)
      ∙ rw now (ground (arith, apart_dir))

  tabled-pte_else :
      (vb : ℕ)
      → vb < utop
      → pdx va ≢ pdx vb
      → is_valid (dir_entry m d vb) ≡ true
      → pte t d vb ≡ pte m d vb
  tabled-pte_else vb h n e =
      ap (λ x. t.word (ppn x) (ptx vb)) (tabled-dir_else vb n)
      ∙ rw now (ground (arith, s.other vb h e, u.table_used vb h e))

  pub tabled-translate : (vb : ℕ) → vb < utop → translate t d vb ≡ translate m d vb
  tabled-translate vb h = elim (Bool-cases (pdx va == pdx vb)) [
    | inl same ↦
        let e : pdx va ≡ pdx vb = ground arith in
        let old : is_valid (dir_entry m d vb) ≡ false =
          subst (λ i. is_valid (m.word d i) ≡ false) e none_yet in
        rw (tabled-pte_self vb e, old) (ground arith)
    | inr diff ↦
        let n : pdx va ≢ pdx vb = ground arith in
        elim (Bool-cases (is_valid (dir_entry m d vb))) [
          | inl e ↦ rw (tabled-pte_else vb h n e, tabled-dir_else vb n)
          | inr e ↦ rw (tabled-dir_else vb n, e)
        ]
  ]

  pub tabled-is_valid : is_valid (dir_entry t d va) ≡ true
  tabled-is_valid = rw (tabled-dir_self va refl) (dir_entry_for p small).0

  tabled-cases :
      (vb : ℕ)
      → vb < utop
      → is_valid (dir_entry t d vb) ≡ true
      → ((pdx va ≡ pdx vb) × (ppn (dir_entry t d vb) ≡ p))
        ⊎ ((pdx va ≢ pdx vb)
            × (dir_entry t d vb ≡ dir_entry m d vb)
            × (is_valid (dir_entry m d vb) ≡ true))
  tabled-cases vb h e = elim (ℕ_discrete (pdx va) (pdx vb)) [
    | yes q ↦ inl (q, ap ppn (tabled-dir_self vb q) ∙ (dir_entry_for p small).1)
    | no q ↦ inr (q, tabled-dir_else vb q, rw (← tabled-dir_else vb q) e)
  ]

  pub tabled-Shape : Shape t d
  tabled-Shape = record {
    other = λ vb h e. elim (tabled-cases vb h e) [
      | inl c ↦ λ q. apart_dir (sym c.1 ∙ q)
      | inr c ↦ rw c.1 (s.other vb h c.2)
    ];
    apart = λ vb vc h k e f n. elim (tabled-cases vb h e) [
      | inl b ↦ elim (tabled-cases vc k f) [
        | inl c ↦ absurd (n (sym b.0 ∙ c.0))
        | inr c ↦ rw (b.1, c.1) (λ q. ground (arith, u.table_used vc k c.2))
      ]
      | inr b ↦ elim (tabled-cases vc k f) [
        | inl c ↦ rw (b.1, c.1) (λ q. ground (arith, u.table_used vb h b.2))
        | inr c ↦ rw (b.1, c.1) (s.apart vb vc h k b.2 c.2 n)
      ]
    ];
  }
