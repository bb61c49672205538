-- ===== src/Shell/Tokens.antt =====
-- _gettoken of user/sh.c: its loops end within the string.
use os_challenge_sudo_shell.Base.{
  ℕ, suc, ◌+◌, ◌≤◌, ◌<◌, ◌≡◌, sym, ap, ◌∙◌, inl, inr, true, ◌==◌, if◌then◌else◌, update, arith,
  Bool-cases, some,
}
use os_challenge_sudo_shell.Strings.{Bytes}
use os_challenge_sudo_shell.Shell.{
  quote, backquote, skip_white, quoted, backquoted, symbol, is_symbol, word, token_at, next_token,
  gettoken_from, ends_word, end_token,
}
use os_challenge_sudo_shell.Shell.Scan.{
  EndsAt, EndsAt-later, EndsAt-more, EndsAt-update, scan-same, Skipped, skip_white-Skipped,
  skip_white-same,
}

-- The string that is left when the white space before it has been cleared
pub EndsAt-Skipped :
    (e s : ℕ) (m : Bytes) (r : ℕ × Bytes) → EndsAt e s m → Skipped e s m r → EndsAt e r.0 r.1
EndsAt-Skipped e s m (k, m') (l, z, n) (a, h, w, before, buf) = (
  h,
  buf e ∙ ground (arith, z, h),
  λ i c d q. n i (omega (arith, a, c)) d (sym (ground (arith, buf i, c)) ∙ q),
)

-- The string behind a quote
pub behind :
    (e k c : ℕ) (m : Bytes)
    → EndsAt e k m
    → (m k == suc c) ≡ true
    → (k < e) × EndsAt e (k + 1) m × EndsAt e (k + 1) (update m k 0)
behind e k c m h y =
    let l = EndsAt-more e k m h (λ z. absurd (ground (arith, y, z))) in
    (l, EndsAt-later e k (k + 1) m h (omega arith) (omega arith), EndsAt-update e k 0 m h l)

token_at-same :
    (e fuel more k : ℕ) (m : Bytes)
    → EndsAt e k m
    → e ≤ k + fuel
    → e ≤ k + more
    → token_at fuel k m ≡ token_at more k m
unfolding token_at quoted backquoted word
token_at-same e fuel more k m h l g = elim (Bool-cases (m k == quote)) [
  | inl y ↦
      let b = behind e k 33 m h y in
      rw y (
        ap (λ e'. record { kind = 119; p1 = some (k + 1); p2 = some (e' + 1); buf = update m e' 0 })
          (scan-same (λ c. c == quote) e fuel more (k + 1) m b.1 (omega (arith, l))
            (omega (arith, g))))
  | inr x ↦ rw x (elim (Bool-cases (m k == backquote)) [
    | inl y ↦
        let b = behind e k 95 m h y in
        rw y (
          ap
            (λ e'. record {
              kind = 102;
              p1 = some (k + 1);
              p2 = some (e' + 1);
              buf = update (update m k 0) e' 0;
            })
            (scan-same (λ c. c == backquote) e fuel more (k + 1) (update m k 0) b.2
              (omega (arith, l)) (omega (arith, g))))
    | inr z ↦ rw z (
        ap
          (λ b.
            if m k == 0
            then end_token m
            else (if is_symbol (m k)
                then symbol k m
                else record { kind = 119; p1 = some k; p2 = some b; buf = m }))
          (scan-same ends_word e fuel more k m h l g))
  ])
]

-- In a string with its terminating zero, every fuel that is enough for the way to the zero gives
-- the same result of `_gettoken`.
pub gettoken_from-same :
    (e fuel more s : ℕ) (m : Bytes)
    → EndsAt e s m
    → e ≤ s + fuel
    → e ≤ s + more
    → gettoken_from fuel (some s) m ≡ gettoken_from more (some s) m
unfolding gettoken_from next_token
gettoken_from-same e fuel more s m h l g =
    let r : ℕ × Bytes = skip_white more s m in
    let k : Skipped e s m r = skip_white-Skipped e more s m h g in
    ap (λ (p : ℕ × Bytes). token_at fuel p.0 p.1) (skip_white-same e fuel more s m h l g)
    ∙ token_at-same e fuel more r.0 r.1 (EndsAt-Skipped e s m r h k) (omega (arith, k.0, l))
        (omega (arith, k.0, g))
