-- ===== src/Shell/Bounds.antt =====
-- _gettoken of user/sh.c: what it reads and writes stays within the string.
use os_challenge_sudo_shell.Base.{
  ℕ, ◌+◌, ◌≤◌, ◌<◌, ◌≡◌, ◌≢◌, refl, sym, ◌∙◌, ◌⊎◌, inl, inr, Bool, true, false, ◌&&◌, ◌==◌, update,
  update_ne, arith, Bool-cases, none, some, ltb, ==_iff, ==→ne,
}
use os_challenge_sudo_shell.Strings.{Bytes}
use os_challenge_sudo_shell.Shell.{
  Token, quote, backquote, scan, skip_white, quoted, backquoted, is_double, symbol, is_symbol, word,
  token_at, next_token, gettoken_from, ends_word,
}
use os_challenge_sudo_shell.Shell.Scan.{
  EndsAt, EndsAt-later, EndsAt-more, StopsAt, scan-StopsAt, Skipped, skip_white-Skipped,
}
use os_challenge_sudo_shell.Shell.Tokens.{EndsAt-Skipped, behind}

-- The quotation mark at `k` has no partner in the string.
abbrev pub Unterminated : ℕ → ℕ → Bytes → Type 0
Unterminated e k m =
    ((m k ≡ quote) ⊎ (m k ≡ backquote)) × (k < e) × ((i : ℕ) → k < i → i < e → m i ≢ m k)

-- Where a token lies: in the string that ends at `e`; past its end only if it has a mark without a partner.
abbrev pub Within : ℕ → ℕ → Bytes → Token → Type 0
Within e s m t =
    (((t.kind ≡ 0) × (t.p1 ≡ none) × (t.p2 ≡ none))
      ⊎ ((a : ℕ) × (b : ℕ) × (t.p1 ≡ some a)
          × (t.p2 ≡ some b)
          × (s ≤ a)
          × (a ≤ b)
          × ((b ≤ e) ⊎ ((b ≡ e + 1) × ((k : ℕ) × (a ≡ k + 1) × (s ≤ k) × Unterminated e k m)))))
    × ((i : ℕ) → (i < s) ⊎ (e < i) → t.buf i ≡ m i)

outside :
    (e s j c : ℕ) (m : Bytes) → s ≤ j → j ≤ e → (i : ℕ) → (i < s) ⊎ (e < i) → update m j c i ≡ m i
outside e s j c m l h i (inl x) = update_ne m j i c (λ q. omega (arith, q, l, x))
outside e s j c m l h i (inr x) = update_ne m j i c (λ q. omega (arith, q, h, x))

-- A mark at `k`, with the first place behind it that has the mark or ends the string
marked :
    (e k b q kind : ℕ) (m m' : Bytes)
    → (m k == q) ≡ true
    → (q ≡ quote) ⊎ (q ≡ backquote)
    → k < e
    → ((i : ℕ) → k < i → m' i ≡ m i)
    → ((i : ℕ) → (i < k) ⊎ (e < i) → m' i ≡ m i)
    → StopsAt (λ c. c == q) e (k + 1) b m'
    → Within e k m
        (record { kind = kind; p1 = some (k + 1); p2 = some (b + 1); buf = update m' b 0 })
marked e k b q kind m m' y mark lt same out (l, h, f, end) = (
  inr (
    k + 1,
    b + 1,
    refl,
    refl,
    omega arith,
    omega (arith, l),
    elim (Bool-cases (ltb b e)) [
      | inl z ↦ inl (ground (arith, z))
      | inr z ↦
          let at : b ≡ e = ground (arith, z, h) in
          let mk : m k ≡ q = (==_iff (m k) q).0 y in
          inr (
            omega (arith, at),
            (
              k,
              refl,
              omega arith,
              (
                elim mark [ inl w ↦ inl (mk ∙ w) | inr w ↦ inr (mk ∙ w) ],
                lt,
                λ i a c w. absurd (
                    ==→ne (m' i) q (f i (omega arith) (omega (arith, at, c))).1
                      (same i a ∙ (w ∙ mk))),
              ),
            ),
          )
    ],
  ),
  λ i o. outside e k b 0 m' (omega (arith, l)) h i o ∙ out i o,
)

double_eq : (k : ℕ) (m : Bytes) → is_double k m ≡ true → m (k + 1) ≡ m k
unfolding is_double
double_eq k m y = (==_iff (m (k + 1)) (m k)).0 (left (m (k + 1) == m k) _ y)
  where
    left : (a b : Bool) → (a && b) ≡ true → a ≡ true
    left true b h = refl
    left false b h = absurd (ground (arith, h))

symbol-Within : (e k : ℕ) (m : Bytes) → EndsAt e k m → k < e → Within e k m (symbol k m)
unfolding symbol
symbol-Within e k m h lt = elim (Bool-cases (is_double k m)) [
  | inl y ↦
      let n : m (k + 1) ≢ 0 = λ z. absurd (h.2 k (omega arith) lt (sym (double_eq k m y) ∙ z)) in
      let l : k + 1 < e =
        EndsAt-more e (k + 1) m (EndsAt-later e k (k + 1) m h (omega arith) (omega arith)) n in
      rw y (
        inr (k, k + 2, refl, refl, omega arith, omega arith, inl (omega arith)),
        outside e k (k + 1) 0 m (omega arith) (omega arith),
      )
  | inr n ↦ rw n (
    inr (k, k + 1, refl, refl, omega arith, omega arith, inl (omega arith)),
    outside e k k 0 m (omega arith) (omega arith),
  )
]

pub token_at-Within :
    (e fuel k : ℕ) (m : Bytes) → EndsAt e k m → e ≤ k + fuel → Within e k m (token_at fuel k m)
unfolding token_at quoted backquoted word
token_at-Within e fuel k m h l = elim (Bool-cases (m k == quote)) [
  | inl y ↦
      let b = behind e k 33 m h y in
      rw y (
        marked e k (scan (λ c. c == quote) fuel (k + 1) m) quote 119 m m y (inl refl) b.0
          (λ i a. refl) (λ i a. refl)
          (scan-StopsAt (λ c. c == quote) e fuel (k + 1) m b.1 (omega (arith, l))))
  | inr x ↦ rw x (elim (Bool-cases (m k == backquote)) [
    | inl y ↦
        let b = behind e k 95 m h y in
        rw y (
          marked e k (scan (λ c. c == backquote) fuel (k + 1) (update m k 0)) backquote 102 m
            (update m k 0) y (inr refl) b.0 (λ i a. update_ne m k i 0 (λ q. omega (arith, q, a)))
            (outside e k k 0 m (omega arith) (omega (arith, b.0)))
            (scan-StopsAt (λ c. c == backquote) e fuel (k + 1) (update m k 0) b.2
              (omega (arith, l))))
    | inr z ↦ rw z (elim (Bool-cases (m k == 0)) [
      | inl y ↦ rw y (inl (refl, refl, refl), λ i o. refl)
      | inr n ↦ rw n (elim (Bool-cases (is_symbol (m k))) [
        | inl y ↦ rw y (symbol-Within e k m h (EndsAt-more e k m h (==→ne (m k) 0 n)))
        | inr w ↦
            let b = scan-StopsAt ends_word e fuel k m h l in
            rw w
              (inr (k, scan ends_word fuel k m, refl, refl, omega arith, b.0, inl b.1), λ i o. refl)
      ])
    ])
  ])
]

-- From the place past the white space to the place before it
Within-Skipped :
    (e s : ℕ) (m : Bytes) (r : ℕ × Bytes) (t : Token)
    → Skipped e s m r
    → Within e r.0 r.1 t
    → Within e s m t
Within-Skipped e s m (k, m') t (l, h, w, before, buf) (place, same) = (
  elim place [
    | inl z ↦ inl z
    | inr (a, b, p, q, x, y, end) ↦ inr (
      a,
      b,
      p,
      q,
      omega (arith, l, x),
      y,
      elim end [
        | inl z ↦ inl z
        | inr (z, (j, i, v, (mark, lt, alone))) ↦
            let at : (c : ℕ) → j ≤ c → m c ≡ m' c = λ c f. ground (arith, buf c, v, f) in
            inr (
              z,
              (
                j,
                i,
                omega (arith, l, v),
                (
                  elim mark [
                    | inl y ↦ inl (at j (omega arith) ∙ y)
                    | inr y ↦ inr (at j (omega arith) ∙ y)
                  ],
                  lt,
                  λ c f g u.
                      absurd
                        (alone c f g (sym (at c (omega (arith, f))) ∙ (u ∙ at j (omega arith)))),
                ),
              ),
            )
      ],
    )
  ],
  λ i o.
      same i (elim o [ inl y ↦ inl (omega (arith, y, l)) | inr y ↦ inr y ])
      ∙ (buf i ∙ elim o [ inl y ↦ ground (arith, y, l) | inr y ↦ ground (arith, y, h) ]),
)

-- For a string with its terminating zero at `e`, and fuel for the way to it, `_gettoken` gives no
-- token, or one with `s <= p1 <= p2 <= e`, or one with `p2 = e + 1`, and then just before `p1`
-- there is a quote or backquote that has no partner before the end. No byte before `s` or past `e`
-- is written.
pub gettoken_from-Within :
    (e fuel s : ℕ) (m : Bytes)
    → EndsAt e s m
    → e ≤ s + fuel
    → Within e s m (gettoken_from fuel (some s) m)
unfolding gettoken_from next_token
gettoken_from-Within e fuel s m h l =
    let r : ℕ × Bytes = skip_white fuel s m in
    let k : Skipped e s m r = skip_white-Skipped e fuel s m h l in
    Within-Skipped e s m r (token_at fuel r.0 r.1) k
      (token_at-Within e fuel r.0 r.1 (EndsAt-Skipped e s m r h k) (omega (arith, k.0, l)))
