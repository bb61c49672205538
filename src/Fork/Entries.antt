-- ===== src/Fork/Entries.antt =====
-- duppage of user/lib/fork.c: what it leaves for one page, and for pages one after the other.
use os_challenge_sudo_shell.Base.{
  ℕ, ◌/◌, ◌%◌, ◌≡◌, ◌≢◌, refl, sym, ap, ◌∙◌, Bool, true, false, ◌||◌, ◌==◌, if◌then◌else◌, update,
  update_self, update_ne, subst, Bool-cases, fun_ext, inl, inr, ==_iff, ==→ne,
}
use os_challenge_sudo_shell.Memory.{entry_for}
use os_challenge_sudo_shell.Fork.{
  Space, Around, low, unmapped, touched, touch, keeps, cow_perm, map_child, map_own, duppage,
}

-- What fork leaves for a page of the parent, and for the child's page
abbrev pub own_entry : Around → ℕ → ℕ → ℕ
own_entry around x pte =
    if keeps pte
    then touched around x pte
    else touched around x
        (if low x then touched around x pte else entry_for (touched around x pte / 4096) cow_perm)

abbrev pub child_entry : ℕ → ℕ
child_entry pte = entry_for (pte / 4096) (if keeps pte then pte % 4096 else cow_perm)

-- The pages of `p` are passed on, and no others change.
abbrev pub Passed : Around → (ℕ → Bool) → Space → Space → Type 0
Passed around p s t =
    (t.vpd ≡ s.vpd)
    × ((x : ℕ) → t.vpt x ≡ (if p x then own_entry around x (s.vpt x) else s.vpt x))
    × ((x : ℕ)
        → t.child x ≡ (
            if p x
            then (if unmapped around x then s.child x else child_entry (s.vpt x))
            else s.child x))

point :
    (old new h : ℕ → ℕ) (k : ℕ)
    → new k ≡ h k
    → ((x : ℕ) → x ≢ k → new x ≡ old x)
    → (x : ℕ) → new x ≡ (if k == x then h x else old x)
point old new h k e n x = elim (Bool-cases (k == x)) [
  | inl y ↦ rw y (subst (λ z. new z ≡ h z) ((==_iff k x).0 y) e)
  | inr y ↦ rw y (n x (λ q. ==→ne k x y (sym q)))
]

-- A page's entry that is written, and the others
set_at : (f : ℕ → ℕ) (k v x : ℕ) → x ≢ k → update f k v x ≡ f x
set_at f k v x n = update_ne f k x v (λ q. n (sym q))

module _ (around : Around) (vpn : ℕ) (s : Space) where
  child_at : ℕ → ℕ
  child_at x = if unmapped around x then s.child x else child_entry (s.vpt x)

  duppage-vpd : (duppage around vpn s).vpd ≡ s.vpd
  unfolding duppage map_child map_own touch
  duppage-vpd = elim (Bool-cases (keeps (s.vpt vpn))) [ inl y ↦ rw y refl | inr y ↦ rw y refl ]

  duppage-own : (duppage around vpn s).vpt vpn ≡ own_entry around vpn (s.vpt vpn)
  unfolding duppage map_child map_own touch
  duppage-own = elim (Bool-cases (keeps (s.vpt vpn))) [
    | inl y ↦ rw y (update_self s.vpt vpn (touched around vpn (s.vpt vpn)))
    | inr y ↦
        let f : ℕ → ℕ = update s.vpt vpn (touched around vpn (s.vpt vpn)) in
        let g : ℕ → ℕ =
          update f vpn (if low vpn then f vpn else entry_for (f vpn / 4096) cow_perm) in
        rw y (
          update_self g vpn (touched around vpn (g vpn))
          ∙ ap (touched around vpn) (
              update_self f vpn (if low vpn then f vpn else entry_for (f vpn / 4096) cow_perm)
              ∙ ap (λ z. if low vpn then z else entry_for (z / 4096) cow_perm)
                  (update_self s.vpt vpn (touched around vpn (s.vpt vpn)))))
  ]

  duppage-own_ne : (x : ℕ) → x ≢ vpn → (duppage around vpn s).vpt x ≡ s.vpt x
  unfolding duppage map_child map_own touch
  duppage-own_ne x n = elim (Bool-cases (keeps (s.vpt vpn))) [
    | inl y ↦ rw y (set_at s.vpt vpn (touched around vpn (s.vpt vpn)) x n)
    | inr y ↦
        let f : ℕ → ℕ = update s.vpt vpn (touched around vpn (s.vpt vpn)) in
        let g : ℕ → ℕ =
          update f vpn (if low vpn then f vpn else entry_for (f vpn / 4096) cow_perm) in
        rw y (
          set_at g vpn (touched around vpn (g vpn)) x n
          ∙ (set_at f vpn (if low vpn then f vpn else entry_for (f vpn / 4096) cow_perm) x n
              ∙ set_at s.vpt vpn (touched around vpn (s.vpt vpn)) x n))
  ]

  -- What is stored for the child, in both cases
  handed : ℕ → ℕ
  handed perm = if unmapped around vpn then s.child vpn else entry_for (s.vpt vpn / 4096) perm

  duppage-child : (duppage around vpn s).child vpn ≡ child_at vpn
  unfolding duppage map_child map_own touch child_at handed
  duppage-child = elim (Bool-cases (keeps (s.vpt vpn))) [
    | inl y ↦ rw y (update_self s.child vpn (handed (s.vpt vpn % 4096)))
    | inr y ↦ rw y (update_self s.child vpn (handed cow_perm))
  ]

  duppage-child_ne : (x : ℕ) → x ≢ vpn → (duppage around vpn s).child x ≡ s.child x
  unfolding duppage map_child map_own touch handed
  duppage-child_ne x n = elim (Bool-cases (keeps (s.vpt vpn))) [
    | inl y ↦ rw y (set_at s.child vpn (handed (s.vpt vpn % 4096)) x n)
    | inr y ↦ rw y (set_at s.child vpn (handed cow_perm) x n)
  ]

  pub duppage-Passed : Passed around (λ x. vpn == x) s (duppage around vpn s)
  unfolding child_at
  duppage-Passed = (
    duppage-vpd,
    point s.vpt (duppage around vpn s).vpt (λ x. own_entry around x (s.vpt x)) vpn duppage-own
        duppage-own_ne,
    point s.child (duppage around vpn s).child child_at vpn duppage-child duppage-child_ne,
  )

pub Passed-nothing : (around : Around) (s : Space) → Passed around (λ x. false) s s
Passed-nothing around s = (refl, λ x. refl, λ x. refl)

pub Passed-pred :
    (around : Around) (p q : ℕ → Bool) (s t : Space)
    → ((x : ℕ) → p x ≡ q x)
    → Passed around p s t
    → Passed around q s t
Passed-pred around p q s t e h = subst (λ r. Passed around r s t) (fun_ext e) h

-- Two runs of pages one after the other, with no page in both
pub Passed-then :
    (around : Around) (p q : ℕ → Bool) (s t u : Space)
    → ((x : ℕ) → p x ≡ true → q x ≡ false)
    → Passed around p s t
    → Passed around q t u
    → Passed around (λ x. p x || q x) s u
Passed-then around p q s t u apart (e, a, b) (f, c, d) = (
  f ∙ e,
  λ x. elim (Bool-cases (p x)) [
    | inl y ↦ let n = apart x y in c x ∙ rw (y, n) (a x ∙ rw y refl)
    | inr y ↦
        let k : t.vpt x ≡ s.vpt x = a x ∙ rw y refl in
        c x ∙ rw y (ap (λ w. if q x then own_entry around x w else w) k)
  ],
  λ x. elim (Bool-cases (p x)) [
    | inl y ↦ let n = apart x y in d x ∙ rw (y, n) (b x ∙ rw y refl)
    | inr y ↦
        let k : t.vpt x ≡ s.vpt x = a x ∙ rw y refl in
        let m : t.child x ≡ s.child x = b x ∙ rw y refl in
        d x
        ∙ rw y (λ i. if q x then (if unmapped around x then m i else child_entry (k i)) else m i)
  ],
)
