-- ===== src/Shell/Scan.antt =====
-- The loops of _gettoken in user/sh.c: where they stop, and that the end of the string is fuel enough.
use os_challenge_sudo_shell.Base.{
  ℕ, zero, suc, ◌+◌, ◌≤◌, ◌<◌, ◌≡◌, ◌≢◌, refl, sym, ap, ◌∙◌, ◌⊎◌, inl, inr, Bool, true, false, ◌||◌,
  ◌==◌, if◌then◌else◌, update, update_ne, arith, subst, Bool-cases, ltb, ==_iff, ==→ne, leb, Fails,
  ◌&&◌,
}
use os_challenge_sudo_shell.Strings.{Bytes, strchr}
use os_challenge_sudo_shell.Shell.{is_found, is_white, skip_white, scan}

-- The string from `s` on has its terminating zero at `e`.
abbrev pub EndsAt : ℕ → ℕ → Bytes → Type 0
EndsAt e s m = (s ≤ e) × (m e ≡ 0) × ((i : ℕ) → s ≤ i → i < e → m i ≢ 0)

pub EndsAt-later : (e s k : ℕ) (m : Bytes) → EndsAt e s m → s ≤ k → k ≤ e → EndsAt e k m
EndsAt-later e s k m (l, z, n) h g = (g, z, λ i a b. n i (omega arith) b)

-- The string is not at its end.
pub EndsAt-more : (e s : ℕ) (m : Bytes) → EndsAt e s m → m s ≢ 0 → s < e
EndsAt-more e s m (l, z, n) h = elim (Bool-cases (ltb s e)) [
  | inl y ↦ ground (arith, y)
  | inr x ↦ let q : s ≡ e = ground (arith, x, l) in absurd (h (subst (λ k. m k ≡ 0) (sym q) z))
]

pub is_white-zero : is_white 0 ≡ false
unfolding is_white strchr is_found
is_white-zero = refl

-- `b` is the first place from `s` on where the string ends or `stop` holds.
abbrev pub StopsAt : (ℕ → Bool) → ℕ → ℕ → ℕ → Bytes → Type 0
StopsAt stop e s b m =
    (s ≤ b)
    × (b ≤ e)
    × ((i : ℕ) → s ≤ i → i < b → (m i ≢ 0) × (stop (m i) ≡ false))
    × ((b ≡ e) ⊎ (stop (m b) ≡ true))

neither : (a b : Bool) → (a || b) ≡ false → (a ≡ false) × (b ≡ false)
neither true b h = absurd (ground (arith, h))
neither false b h = (refl, h)

either : (a b : Bool) → (a || b) ≡ true → (a ≡ true) ⊎ (b ≡ true)
either true b h = inl refl
either false b h = inr h

stopped :
    (stop : ℕ → Bool) (e s : ℕ) (m : Bytes)
    → EndsAt e s m
    → (m s == 0 || stop (m s)) ≡ true
    → StopsAt stop e s s m
stopped stop e s m (l, z, n) y = (
  omega arith,
  l,
  λ i a b. absurd (omega (arith, a, b)),
  elim (either (m s == 0) (stop (m s)) y) [
    | inl q ↦ elim (Bool-cases (ltb s e)) [
      | inl k ↦ absurd (n s (omega arith) (ground (arith, k)) ((==_iff (m s) 0).0 q))
      | inr k ↦ inl (ground (arith, k, l))
    ]
    | inr q ↦ inr q
  ],
)

went_on :
    (stop : ℕ → Bool) (e s b : ℕ) (m : Bytes)
    → (m s == 0 || stop (m s)) ≡ false
    → StopsAt stop e (s + 1) b m
    → StopsAt stop e s b m
went_on stop e s b m x (l, h, before, end) = (
  omega (arith, l),
  h,
  λ i a c. elim (Bool-cases (s == i)) [
    | inl y ↦
        let w = neither (m s == 0) (stop (m s)) x in
        subst (λ j. (m j ≢ 0) × (stop (m j) ≡ false)) ((==_iff s i).0 y) (==→ne (m s) 0 w.0, w.1)
    | inr n ↦ before i (ground (arith, n, a)) c
  ],
  end,
)

more_left :
    (stop : ℕ → Bool) (e s : ℕ) (m : Bytes)
    → EndsAt e s m
    → (m s == 0 || stop (m s)) ≡ false
    → s < e
more_left stop e s m h x = EndsAt-more e s m h (==→ne (m s) 0 (neither (m s == 0) (stop (m s)) x).0)

pub scan-StopsAt :
    (stop : ℕ → Bool) (e fuel s : ℕ) (m : Bytes)
    → EndsAt e s m
    → e ≤ s + fuel
    → StopsAt stop e s (scan stop fuel s m) m
unfolding scan
scan-StopsAt stop e zero s m h l =
    (omega arith, h.0, λ i a b. absurd (omega (arith, a, b)), inl (omega (arith, h.0, l)))
scan-StopsAt stop e (suc fuel) s m h l = elim (Bool-cases (m s == 0 || stop (m s))) [
  | inl y ↦ rw y (stopped stop e s m h y)
  | inr x ↦
      let k = more_left stop e s m h x in
      rw x (
        went_on stop e s (scan stop fuel (s + 1) m) m x (
          scan-StopsAt stop e fuel (s + 1) m
            (EndsAt-later e s (s + 1) m h (omega arith) (omega arith)) (omega arith)))
]

before_stop :
    (stop : ℕ → Bool) (e s b d : ℕ) (m : Bytes)
    → StopsAt stop e s b m
    → StopsAt stop e s d m
    → b < d
    → Fails {0}
before_stop stop e s b d m (l, h, f, end) (l', h', f', end') lt = elim end [
  | inl q ↦ absurd (omega (arith, q, lt, h'))
  | inr y ↦ absurd (ground (arith, y, (f' b l lt).1))
]

StopsAt-unique :
    (stop : ℕ → Bool) (e s b d : ℕ) (m : Bytes)
    → StopsAt stop e s b m
    → StopsAt stop e s d m
    → b ≡ d
StopsAt-unique stop e s b d m p q = elim (Bool-cases (ltb b d)) [
  | inl y ↦ elim (before_stop stop e s b d m p q (ground (arith, y))) [ ]
  | inr x ↦ elim (Bool-cases (ltb d b)) [
    | inl y ↦ elim (before_stop stop e s d b m q p (ground (arith, y))) [ ]
    | inr z ↦ ground (arith, x, z)
  ]
]

pub scan-same :
    (stop : ℕ → Bool) (e fuel more s : ℕ) (m : Bytes)
    → EndsAt e s m
    → e ≤ s + fuel
    → e ≤ s + more
    → scan stop fuel s m ≡ scan stop more s m
scan-same stop e fuel more s m h l g =
    StopsAt-unique stop e s (scan stop fuel s m) (scan stop more s m) m
      (scan-StopsAt stop e fuel s m h l) (scan-StopsAt stop e more s m h g)

-- White space up to `k` is cleared.
abbrev pub Skipped : ℕ → ℕ → Bytes → ℕ × Bytes → Type 0
Skipped e s m (k, m') =
    (s ≤ k)
    × (k ≤ e)
    × (is_white (m k) ≡ false)
    × ((i : ℕ) → s ≤ i → i < k → is_white (m i) ≡ true)
    × ((i : ℕ) → m' i ≡ (if leb s i && ltb i k then 0 else m i))

pub skip_white-at : (fuel s : ℕ) (m : Bytes) → is_white (m s) ≡ false → skip_white fuel s m ≡ (s, m)
unfolding skip_white
skip_white-at zero s m x = refl
skip_white-at (suc fuel) s m x = rw x refl

-- The string after its first character is cleared.
pub EndsAt-update : (e s c : ℕ) (m : Bytes) → EndsAt e s m → s < e → EndsAt e (s + 1) (update m s c)
EndsAt-update e s c m (l, z, n) h = (
  omega arith,
  update_ne m s e c (λ q. omega (arith, q, h)) ∙ z,
  λ i a b w. n i (omega arith) b (sym (update_ne m s i c (λ q. omega (arith, q, a))) ∙ w),
)

white_more : (e s : ℕ) (m : Bytes) → EndsAt e s m → is_white (m s) ≡ true → s < e
white_more e s m h y =
    EndsAt-more e s m h λ z. absurd (ground (arith, y, ap is_white z ∙ is_white-zero))

Skipped-next :
    (e s : ℕ) (m : Bytes) (r : ℕ × Bytes)
    → is_white (m s) ≡ true
    → Skipped e (s + 1) (update m s 0) r
    → Skipped e s m r
Skipped-next e s m (k, m') y (l, h, w, before, buf) = (
  omega (arith, l),
  h,
  ap is_white (sym (update_ne m s k 0 (λ q. omega (arith, q, l)))) ∙ w,
  λ i a b. elim (Bool-cases (s == i)) [
    | inl q ↦ subst (λ j. is_white (m j) ≡ true) ((==_iff s i).0 q) y
    | inr n ↦
        ap is_white (sym (update_ne m s i 0 (==→ne s i n))) ∙ before i (ground (arith, n, a)) b
  ],
  λ i. buf i ∙ ground (arith, l),
)

pub skip_white-Skipped :
    (e fuel s : ℕ) (m : Bytes) → EndsAt e s m → e ≤ s + fuel → Skipped e s m (skip_white fuel s m)
unfolding skip_white
skip_white-Skipped e zero s m h l =
    let q : s ≡ e = omega (arith, h.0, l) in
    (
      omega arith,
      h.0,
      ap is_white (subst (λ k. m k ≡ 0) (sym q) h.1) ∙ is_white-zero,
      λ i a b. absurd (omega (arith, a, b)),
      λ i. ground arith,
    )
skip_white-Skipped e (suc fuel) s m h l = elim (Bool-cases (is_white (m s))) [
  | inl y ↦
      let k = white_more e s m h y in
      rw y (
        Skipped-next e s m (skip_white fuel (s + 1) (update m s 0)) y (
          skip_white-Skipped e fuel (s + 1) (update m s 0) (EndsAt-update e s 0 m h k)
            (omega (arith, l))))
  | inr x ↦ rw x (omega arith, h.0, x, λ i a b. absurd (omega (arith, a, b)), λ i. ground arith)
]

pub skip_white-same :
    (e fuel more s : ℕ) (m : Bytes)
    → EndsAt e s m
    → e ≤ s + fuel
    → e ≤ s + more
    → skip_white fuel s m ≡ skip_white more s m
unfolding skip_white
skip_white-same e zero more s m h l g =
    let q : s ≡ e = omega (arith, h.0, l) in
    sym (skip_white-at more s m (ap is_white (subst (λ k. m k ≡ 0) (sym q) h.1) ∙ is_white-zero))
skip_white-same e (suc fuel) zero s m h l g =
    let q : s ≡ e = omega (arith, h.0, g) in
    skip_white-at (suc fuel) s m (ap is_white (subst (λ k. m k ≡ 0) (sym q) h.1) ∙ is_white-zero)
skip_white-same e (suc fuel) (suc more) s m h l g = elim (Bool-cases (is_white (m s))) [
  | inl y ↦
      let k = white_more e s m h y in
      rw y (
        skip_white-same e fuel more (s + 1) (update m s 0) (EndsAt-update e s 0 m h k)
          (omega (arith, l)) (omega (arith, g)))
  | inr x ↦ rw x refl
]
