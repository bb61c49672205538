-- ===== src/Shell/Words.antt =====
-- gettoken of user/sh.c: how the end of a word is marked.
use os_challenge_sudo_shell.Base.{
  ℕ, ◌+◌, ◌≤◌, ◌<◌, ◌≡◌, ◌≢◌, refl, sym, ap, ◌∙◌, ◌⊎◌, inl, inr, Bool, true, false, ◌||◌, ◌&&◌,
  ◌==◌, if◌then◌else◌, update_self, update_ne, Option, arith, subst, Bool-cases, some, ==_iff,
}
use os_challenge_sudo_shell.Strings.{Bytes, strchr}
use os_challenge_sudo_shell.Shell.{
  Token, quote, backquote, scan, skip_white, is_double, symbol, is_found, is_white, is_symbol, word,
  token_at, next_token, gettoken_from, gettoken, ends_word,
}
use os_challenge_sudo_shell.Shell.Scan.{
  EndsAt, EndsAt-later, StopsAt, scan-StopsAt, Skipped, skip_white-Skipped, skip_white-at,
  is_white-zero,
}
use os_challenge_sudo_shell.Shell.Bounds.{gettoken_from-Within, token_at-Within}
use os_challenge_sudo_shell.Shell.Tokens.{EndsAt-Skipped}

-- A character that is not `d`, by a test that tells them apart
not_char : (f : ℕ → Bool) (c d : ℕ) → f c ≡ true → f d ≡ false → (c == d) ≡ false
not_char f c d y n = elim (Bool-cases (c == d)) [
  | inl e ↦ absurd (ground (arith, y, n, ap f ((==_iff c d).0 e)))
  | inr x ↦ x
]

symbol-not_quote : (c : ℕ) → is_symbol c ≡ true → (c == quote) ≡ false
unfolding is_symbol strchr is_found
symbol-not_quote c y = not_char is_symbol c quote y refl

symbol-not_backquote : (c : ℕ) → is_symbol c ≡ true → (c == backquote) ≡ false
unfolding is_symbol strchr is_found
symbol-not_backquote c y = not_char is_symbol c backquote y refl

symbol-not_end : (c : ℕ) → is_symbol c ≡ true → (c == 0) ≡ false
unfolding is_symbol strchr is_found
symbol-not_end c y = not_char is_symbol c 0 y refl

and_false : (a b : Bool) → b ≡ false → (a && b) ≡ false
and_false true b h = h
and_false false b h = refl

-- A doubled character is no white space.
is_double-white : (b : ℕ) (m : Bytes) → is_white (m b) ≡ true → is_double b m ≡ false
unfolding is_white strchr is_found is_double
is_double-white b m y =
    let p = not_char is_white (m b) 38 y refl in
    let q = not_char is_white (m b) 124 y refl in
    let r = not_char is_white (m b) 62 y refl in and_false (m (b + 1) == m b) _ (rw (p, q, r) refl)

is_double-end : (b : ℕ) (m : Bytes) → m b ≡ 0 → is_double b m ≡ false
unfolding is_double
is_double-end b m z = and_false (m (b + 1) == m b) _ (rw z refl)

-- The byte behind a word, once the next token is read
abbrev Marked : ℕ → Bytes → Token → Type 0
Marked b m t = t.buf b ≡ (if is_double b m then m b else 0)

Marked-white :
    (e fuel b : ℕ) (m : Bytes)
    → EndsAt e b m
    → e ≤ b + fuel
    → is_white (m b) ≡ true
    → Marked b m (gettoken_from fuel (some b) m)
unfolding gettoken_from next_token
Marked-white e fuel b m h l y =
    let r : ℕ × Bytes = skip_white fuel b m in
    let k : Skipped e b m r = skip_white-Skipped e fuel b m h l in
    let past : b ≢ r.0 = λ q. absurd (ground (arith, y, ap (λ i. is_white (m i)) q, k.2)) in
    let t = token_at-Within e fuel r.0 r.1 (EndsAt-Skipped e b m r h k) (omega (arith, k.0, l)) in
    let lt : b < r.0 = omega (arith, k.0, past) in
    let d = is_double-white b m y in rw d (t.1 b (inl lt) ∙ (k.4 b ∙ ground (arith, lt)))

token_at-end : (fuel b : ℕ) (m : Bytes) → m b ≡ 0 → (token_at fuel b m).buf b ≡ 0
unfolding token_at
token_at-end fuel b m z =
    let x : (m b == quote) ≡ false = ground (arith, z) in
    let y : (m b == backquote) ≡ false = ground (arith, z) in
    let e : (m b == 0) ≡ true = ground (arith, z) in rw (x, y, e) z

token_at-symbol : (fuel b : ℕ) (m : Bytes) → is_symbol (m b) ≡ true → token_at fuel b m ≡ symbol b m
unfolding token_at
token_at-symbol fuel b m y =
    rw (symbol-not_quote (m b) y, symbol-not_backquote (m b) y, symbol-not_end (m b) y, y) refl

symbol-Marked : (b : ℕ) (m : Bytes) → Marked b m (symbol b m)
unfolding symbol
symbol-Marked b m = elim (Bool-cases (is_double b m)) [
  | inl y ↦ rw y (update_ne m (b + 1) b 0 (λ q. omega (arith, q)))
  | inr n ↦ rw n (update_self m b 0)
]

next_token-at :
    (fuel b : ℕ) (m : Bytes)
    → is_white (m b) ≡ false
    → gettoken_from fuel (some b) m ≡ token_at fuel b m
unfolding gettoken_from next_token
next_token-at fuel b m w = ap (λ (p : ℕ × Bytes). token_at fuel p.0 p.1) (skip_white-at fuel b m w)

gettoken_from-Marked :
    (e fuel b : ℕ) (m : Bytes)
    → EndsAt e b m
    → e ≤ b + fuel
    → (b ≡ e) ⊎ (ends_word (m b) ≡ true)
    → Marked b m (gettoken_from fuel (some b) m)
unfolding ends_word
gettoken_from-Marked e fuel b m h l (inl q) =
    let z : m b ≡ 0 = subst (λ k. m k ≡ 0) (sym q) h.1 in
    let w : is_white (m b) ≡ false = ap is_white z ∙ is_white-zero in
    let d = is_double-end b m z in
    rw d (ap (λ (t : Token). t.buf b) (next_token-at fuel b m w) ∙ token_at-end fuel b m z)
gettoken_from-Marked e fuel b m h l (inr y) = elim (Bool-cases (is_white (m b))) [
  | inl w ↦ Marked-white e fuel b m h l w
  | inr n ↦
      let z : is_symbol (m b) ≡ true = subst (λ x. (x || is_symbol (m b)) ≡ true) n y in
      ap (λ (t : Token). t.buf b) (next_token-at fuel b m n ∙ token_at-symbol fuel b m z)
      ∙ symbol-Marked b m
]

-- The outcome of gettoken when the kept token is a word from `a` on: the word's characters, and the byte behind.
abbrev pub Delivered : ℕ → ℕ → Bytes → ℕ × (Option ℕ) × Token → Type 0
Delivered a b m (kind, p1, t) =
    (kind ≡ 119)
    × (p1 ≡ some a)
    × ((i : ℕ) → a ≤ i → i < b → (t.buf i ≡ m i) × (m i ≢ 0) × (ends_word (m i) ≡ false))
    × (t.buf b ≡ (if is_double b m then m b else 0))

-- When the kept token is a word that starts at `a`, in a string with its terminating zero, and with
-- fuel for the way to it, `gettoken` returns 'w' and `a`; the characters up to the first blank,
-- symbol or end are as they were, and the byte behind them is 0, unless it is the first of a
-- doubled `&`, `|` or `>`: then it stays, and is part of the word that is read.
pub gettoken-Delivered :
    (e fuel a : ℕ) (m : Bytes)
    → EndsAt e a m
    → e ≤ a + fuel
    → Delivered a (scan ends_word fuel a m) m (gettoken fuel (word fuel a m))
unfolding gettoken word
gettoken-Delivered e fuel a m h l =
    let b : ℕ = scan ends_word fuel a m in
    let s : StopsAt ends_word e a b m = scan-StopsAt ends_word e fuel a m h l in
    let k : EndsAt e b m = EndsAt-later e a b m h s.0 s.1 in
    let w = gettoken_from-Within e fuel b m k (omega (arith, s.0, l)) in
    (
      refl,
      refl,
      λ i f g. (w.1 i (inl g), (s.2 i f g).0, (s.2 i f g).1),
      gettoken_from-Marked e fuel b m k (omega (arith, s.0, l)) s.3,
    )
