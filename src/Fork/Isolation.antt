-- ===== src/Fork/Isolation.antt =====
-- fork of user/lib/fork.c: which pages parent and child share, and who can write them.
use os_challenge_sudo_shell.Base.{
  ℕ, suc, ◌/◌, ◌%◌, ◌^◌, ◌<◌, ◌≡◌, refl, sym, ap, ◌∙◌, Bool, true, false, not, ◌&&◌, ◌⊎◌, ◌||◌,
  ◌==◌, if◌then◌else◌, bit_or, ok, arith, subst, Bool-cases, inl, inr,
}
use os_challenge_sudo_shell.Base.Bits.{bit_8-bit_or, bit_or-zero}
use os_challenge_sudo_shell.Memory.{entry_for, page2pa, ppn, pte_c_cacheable, pte_v}
use os_challenge_sudo_shell.Memory.Table.{ppn-entry_for}
use os_challenge_sudo_shell.Fork.{
  Space, Around, low, unmapped, touched, own_perm, has_cow, has_d, has_library, keeps, cow_perm,
  stack_tables, dup_tables, fork,
}
use os_challenge_sudo_shell.Fork.Entries.{own_entry, child_entry, Passed}
use os_challenge_sudo_shell.Fork.Pages.{passes, all_tables-Passed}

-- The bit PTE_D of an entry is that of the permissions it is made with.
has_d-entry_for : (p perm : ℕ) → has_d (entry_for p perm) ≡ has_d perm
has_d-entry_for p perm =
    ap (λ b. b == 1)
      (bit_8-bit_or (bit_or (bit_or (page2pa p) perm) pte_c_cacheable) pte_v
        ∙ omega (
          arith,
          bit_8-bit_or (bit_or (page2pa p) perm) pte_c_cacheable,
          bit_8-bit_or (page2pa p) perm,
        ))

ppn-small : (p perm : ℕ) → p < 2 ^ 20 → perm < 4096 → ppn (entry_for p perm) ≡ p
ppn-small p perm h l = ppn-entry_for p perm h ∙ (ap (bit_or p) (omega (arith, l)) ∙ bit_or-zero p)

-- The parent's entry, if it does not write the page
abbrev pub plain_entry : ℕ → ℕ
plain_entry pte = if keeps pte then pte else entry_for (pte / 4096) cow_perm

-- Whether a page that may be written keeps PTE_D only if it is a library page
keeps-library : (pte : ℕ) → keeps pte ≡ true → has_d pte ≡ true → has_library pte ≡ true
keeps-library pte k d = subst (λ b. (not b || has_library pte) ≡ true) d k

plain_entry-library : (pte : ℕ) → has_d (plain_entry pte) ≡ true → has_library pte ≡ true
plain_entry-library pte h = elim (Bool-cases (keeps pte)) [
  | inl y ↦
      keeps-library pte y
        (sym (ap (λ b. has_d (if b then pte else entry_for (pte / 4096) cow_perm)) y) ∙ h)
  | inr n ↦ absurd (
      ground (
        arith,
        sym (ap (λ b. has_d (if b then pte else entry_for (pte / 4096) cow_perm)) n) ∙ h,
        has_d-entry_for (pte / 4096) cow_perm,
      ))
]

child_entry-library : (pte : ℕ) → has_d (child_entry pte) ≡ true → has_library pte ≡ true
child_entry-library pte h =
    let e : has_d (if keeps pte then pte % 4096 else cow_perm) ≡ true =
      sym (has_d-entry_for (pte / 4096) (if keeps pte then pte % 4096 else cow_perm)) ∙ h in
    elim (Bool-cases (keeps pte)) [
      | inl y ↦
          let d : has_d (pte % 4096) ≡ true =
            sym (ap (λ b. has_d (if b then pte % 4096 else cow_perm)) y) ∙ e in
          let same : has_d (pte % 4096) ≡ has_d pte = ground arith in
          keeps-library pte y (sym same ∙ d)
      | inr n ↦
          absurd (ground (arith, sym (ap (λ b. has_d (if b then pte % 4096 else cow_perm)) n) ∙ e))
    ]

plain_entry-ppn : (pte : ℕ) → pte / 4096 < 2 ^ 20 → plain_entry pte / 4096 ≡ pte / 4096
plain_entry-ppn pte h = elim (Bool-cases (keeps pte)) [
  | inl y ↦ rw y refl
  | inr n ↦ rw n (ppn-small (pte / 4096) cow_perm h (omega arith))
]

child_entry-ppn : (pte : ℕ) → pte / 4096 < 2 ^ 20 → child_entry pte / 4096 ≡ pte / 4096
child_entry-ppn pte h = elim (Bool-cases (keeps pte)) [
  | inl y ↦ rw y (ppn-small (pte / 4096) (pte % 4096) h (omega arith))
  | inr n ↦ rw n (ppn-small (pte / 4096) cow_perm h (omega arith))
]

touched-cases :
    (around : Around) (x pte : ℕ)
    → (touched around x pte ≡ pte)
      ⊎ ((around.writes x ≡ true) × (touched around x pte ≡ entry_for (around.fresh x) own_perm))
touched-cases around x pte = elim (Bool-cases (around.writes x)) [
  | inr n ↦ inl (rw n refl)
  | inl y ↦ elim (Bool-cases (has_cow pte && not (has_d pte))) [
    | inl z ↦ inr (y, rw (y, z) refl)
    | inr z ↦ inl (rw (y, z) refl)
  ]
]

not-keeps : (pte : ℕ) → keeps pte ≡ false → has_d pte ≡ true
not-keeps pte n = elim (Bool-cases (has_d pte)) [
  | inl y ↦ y
  | inr z ↦ absurd (ground (arith, sym (ap (λ b. not b || has_library pte) z) ∙ n))
]

stays : (around : Around) (x pte : ℕ) → has_d pte ≡ true → touched around x pte ≡ pte
stays around x pte d = elim (Bool-cases (around.writes x && (has_cow pte && not (has_d pte)))) [
  | inr z ↦ rw z refl
  | inl z ↦ absurd (ground (arith, z, d))
]

-- Either as if the parent did not write the page, or a page of its own
own-plain :
    (around : Around) (x pte : ℕ)
    → low x ≡ false
    → (own_entry around x pte ≡ plain_entry pte)
      ⊎ ((around.writes x ≡ true) × (own_entry around x pte ≡ entry_for (around.fresh x) own_perm))
own-plain around x pte l = elim (Bool-cases (keeps pte)) [
  | inl y ↦ rw y (touched-cases around x pte)
  | inr n ↦
      let d : has_d pte ≡ true = not-keeps pte n in
      let same : touched around x pte ≡ pte = stays around x pte d in
      rw (n, l, same) (touched-cases around x (entry_for (pte / 4096) cow_perm))
]

-- What the parent has of a page, with `f` for a page of its own that it has got for what it writes
abbrev pub Shared : ℕ → ℕ → Type 0
Shared pte own = (own / 4096 ≡ pte / 4096) × (has_d own ≡ true → has_library pte ≡ true)

abbrev pub Owned : Bool → ℕ → ℕ → ℕ → Type 0
Owned false f pte own = Shared pte own
Owned true f pte own = Shared pte own ⊎ (own / 4096 ≡ f)

-- What the child has of it, where the mapping is refused or not
abbrev pub Handed : Bool → ℕ → ℕ → ℕ → Type 0
Handed true pte old child = child ≡ old
Handed false pte old child = Shared pte child

abbrev pub Isolated : Around → Space → Space → Type 0
Isolated around s t =
    (x : ℕ)
    → (passes s x ≡ true
        → s.vpt x / 4096 < 2 ^ 20
        → around.fresh x < 2 ^ 20
        → low x ≡ false
        → Owned (around.writes x) (around.fresh x) (s.vpt x) (t.vpt x)
          × Handed (around.refused x) (s.vpt x) (s.child x) (t.child x))
      × (passes s x ≡ false → (t.vpt x ≡ s.vpt x) × (t.child x ≡ s.child x))

plain-Owned : (b : Bool) (f pte own : ℕ) → Shared pte own → Owned b f pte own
plain-Owned false f pte own h = h
plain-Owned true f pte own h = inl h

own_entry-Owned :
    (around : Around) (x pte own : ℕ)
    → pte / 4096 < 2 ^ 20
    → around.fresh x < 2 ^ 20
    → low x ≡ false
    → own ≡ own_entry around x pte
    → Owned (around.writes x) (around.fresh x) pte own
own_entry-Owned around x pte own h hf l q = elim (own-plain around x pte l) [
  | inl e ↦ plain-Owned (around.writes x) (around.fresh x) pte own (
    ap (λ z. z / 4096) (q ∙ e) ∙ plain_entry-ppn pte h,
    λ d. plain_entry-library pte (sym (ap has_d (q ∙ e)) ∙ d),
  )
  | inr (w, e) ↦
      rw w (inr (ap (λ z. z / 4096) (q ∙ e) ∙ ppn-small (around.fresh x) own_perm hf (omega arith)))
]

child_entry-Handed :
    (b : Bool) (pte old child : ℕ)
    → pte / 4096 < 2 ^ 20
    → child ≡ (if b then old else child_entry pte)
    → Handed b pte old child
child_entry-Handed true pte old child h f = f
child_entry-Handed false pte old child h f = (
  ap (λ w. w / 4096) f ∙ child_entry-ppn pte h,
  λ d. child_entry-library pte (sym (ap has_d f) ∙ d),
)

Passed-Isolated :
    (around : Around) (s t : Space) → Passed around (passes s) s t → Isolated around s t
Passed-Isolated around s t (e, a, b) x = (
  λ y h hf l. (
    own_entry-Owned around x (s.vpt x) (t.vpt x) h hf l
        (a x ∙ ap (λ (c : Bool). if c then own_entry around x (s.vpt x) else s.vpt x) y),
    child_entry-Handed (around.refused x) (s.vpt x) (s.child x) (t.child x) h (
        b x
        ∙ ap
            (λ (c : Bool).
              if c
              then (if unmapped around x then s.child x else child_entry (s.vpt x))
              else s.child x)
            y
        ∙ ap (λ (c : Bool). if c || around.refused x then s.child x else child_entry (s.vpt x)) l),
  ),
  λ n. (
    a x ∙ ap (λ (c : Bool). if c then own_entry around x (s.vpt x) else s.vpt x) n,
    b x
        ∙ ap
            (λ (c : Bool).
              if c
              then (if unmapped around x then s.child x else child_entry (s.vpt x))
              else s.child x)
            n,
  ),
)

-- In the parent, when syscall_exofork has given a child: for each page from UTEMP up to the stack's
-- top that is mapped, with page numbers below 2^20: the child gets the page that the parent had,
-- with PTE_D only if that was a PTE_LIBRARY page; where the kernel refuses the mapping, the child's
-- entry is as before. The parent has the same page, with PTE_D only if it was a PTE_LIBRARY page; a
-- page that the parent itself writes in between can be a new one instead, which the handler of
-- copy-on-write pages has given it. The entries of all pages that are not mapped, or not below the
-- stack's top, are as before.
pub fork-Isolated :
    (around : Around) (n : ℕ) (s : Space) → Isolated around s (fork around (ok (suc n)) s).1
unfolding fork
fork-Isolated around n s =
    Passed-Isolated around s (dup_tables stack_tables around 0 (record s { handler = true }))
      (all_tables-Passed around (record s { handler = true }))
