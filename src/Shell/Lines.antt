-- ===== src/Shell/Lines.antt =====
-- readline of user/sh.c: the line that is edited.
use os_challenge_sudo_shell.Base.{
  ℕ, suc, ◌+◌, ◌-◌, ◌≤◌, ◌<◌, ◌≡◌, refl, sym, ap, ◌∙◌, inl, inr, Bool, true, false, ◌&&◌,
  if◌then◌else◌, update, update_self, update_ne, arith, subst, Bool-cases, Option, none, some, ltb,
  Fails, List, [], ◌∷◌,
}
use os_challenge_sudo_shell.Strings.{Bytes, strlen}
use os_challenge_sudo_shell.Shell.{
  Line, returned, exited, is_erase, is_newline, looked_at, readline_from, readline,
}

rest_of : List ℕ → List ℕ
rest_of [] = []
rest_of (c ∷ st) = st

-- The line as a stack, the last character first: the line up to the newline with the input behind it, or none if
-- the input ends before.
pub edit : List ℕ → List ℕ → Option (List ℕ × List ℕ)
edit st [] = none
edit st (c ∷ input) =
    let less = edit (rest_of st) input in
    let more = edit (c ∷ st) input in
    if is_erase c then less else (if is_newline c then some (st, input) else more)

-- The line never has `n` characters.
unfoldable pub fits : ℕ → ℕ → List ℕ → Bool
fits n i [] = ltb i n
fits n i (c ∷ input) =
    let less = fits n (i - 1) input in
    let more = fits n (i + 1) input in
    ltb i n && (if is_erase c then less else (if is_newline c then true else more))

-- The characters stand in the buffer, and none is a newline.
pub Spells : ℕ → List ℕ → Bytes → Type 0
Spells buf [] m = Unit {0}
Spells buf (c ∷ st) m = (m (buf + strlen st) ≡ c) × (is_newline c ≡ false) × Spells buf st m

-- readline does what the edited line says.
pub Agrees : ℕ → Option (List ℕ × List ℕ) → Line → Type 0
Agrees buf none exited = Unit {0}
Agrees buf none (returned m rest) = Fails
Agrees buf (some (st, input)) exited = Fails
Agrees buf (some (st, input)) (returned m rest) =
    Spells buf st m × (m (buf + strlen st) ≡ 0) × (rest ≡ input)

Spells-update :
    (buf : ℕ) (st : List ℕ) (j c : ℕ) (m : Bytes)
    → buf + strlen st ≤ j
    → Spells buf st m
    → Spells buf st (update m j c)
unfolding Spells strlen
Spells-update buf [] j c m l h = tt
Spells-update buf (d ∷ st) j c m l (e, x, h) = (
  update_ne m j (buf + strlen st) c (λ q. omega (arith, q, l)) ∙ e,
  x,
  Spells-update buf st j c m (omega (arith, l)) h,
)

Spells-rest : (buf : ℕ) (st : List ℕ) (m : Bytes) → Spells buf st m → Spells buf (rest_of st) m
unfolding Spells rest_of
Spells-rest buf [] m h = tt
Spells-rest buf (c ∷ st) m h = h.2

strlen-rest : (st : List ℕ) → strlen (rest_of st) ≡ strlen st - 1
unfolding strlen rest_of
strlen-rest [] = refl
strlen-rest (c ∷ st) = omega arith

plain_at :
    (m : Bytes) (j c k l : ℕ)
    → l ≡ k
    → k < j
    → is_newline (m k) ≡ false
    → is_newline (update m j c l) ≡ false
plain_at m j c k l e h x =
    ap (λ i. is_newline (update m j c i)) e
    ∙ (ap (λ w. is_newline w) (update_ne m j k c (λ q. omega (arith, q, h))) ∙ x)

-- The byte that is looked at after a character was erased is no newline.
looked_at-plain :
    (buf : ℕ) (st : List ℕ) (c : ℕ) (m : Bytes)
    → 0 < buf
    → is_newline (m (buf - 1)) ≡ false
    → Spells buf st m
    → is_newline (update m (buf + strlen st) c (looked_at buf (strlen st))) ≡ false
unfolding Spells strlen
looked_at-plain buf [] c m p x h = plain_at m (buf + 0) c (buf - 1) (buf - 1) refl (omega arith) x
looked_at-plain buf (d ∷ []) c m p x h =
    plain_at m (buf + 1) c (buf - 1) (buf + 1 - 2) (omega arith) (omega arith) x
looked_at-plain buf (d ∷ e ∷ st) c m p x (q, y, (r, z, h)) =
    plain_at m (buf + suc (suc (strlen st))) c (buf + strlen st) _ (ground arith) (omega arith)
      (ap (λ w. is_newline w) r ∙ z)

-- What the theorem asks of the line, at any stack
Edits : ℕ → ℕ → List ℕ → List ℕ → Bytes → Type 0
Edits buf n st input m =
    (fits n (strlen st) input ≡ true) × Spells buf st m × (is_newline (m (buf - 1)) ≡ false)

both : (a b : Bool) → (a && b) ≡ true → (a ≡ true) × (b ≡ true)
both true b h = (refl, h)
both false b h = absurd (ground (arith, h))

readline_from-Agrees :
    (buf n : ℕ) (st input : List ℕ) (m : Bytes)
    → 0 < buf
    → Edits buf n st input m
    → Agrees buf (edit st input) (readline_from buf n (strlen st) input m)
unfolding readline_from edit Edits fits Agrees Spells strlen
readline_from-Agrees buf n st [] m p (f, s, x) = rw f tt
readline_from-Agrees buf n st (c ∷ input) m p (f, s, x) =
    let i : ℕ = strlen st in
    let m' : Bytes = update m (buf + i) c in
    let before : is_newline (m' (buf - 1)) ≡ false =
      plain_at m (buf + i) c (buf - 1) (buf - 1) refl (omega arith) x in
    let g = both (ltb i n) _ f in
    let look = looked_at-plain buf st c m p x s in
    rw g.0 (elim (Bool-cases (is_erase c)) [
      | inl y ↦
          let fit : fits n (i - 1) input ≡ true =
            subst
              (λ b.
                (if b
                  then fits n (i - 1) input
                  else (if is_newline c then true else fits n (i + 1) input))
                ≡ true)
              y g.1 in
          let e : strlen (rest_of st) ≡ i - 1 = strlen-rest st in
          let ih = readline_from-Agrees buf n (rest_of st) input m' p (
            subst (λ k. fits n k input ≡ true) (sym e) fit,
            Spells-rest buf st m' (Spells-update buf st (buf + i) c m (omega arith) s),
            before,
          ) in
          rw (y, look)
            (subst (λ k. Agrees buf (edit (rest_of st) input) (readline_from buf n k input m')) e
              ih)
      | inr y ↦ elim (Bool-cases (is_newline c)) [
        | inl z ↦
            rw (y, z)
              (
                Spells-update buf st (buf + i) 0 m' (omega arith)
                    (Spells-update buf st (buf + i) c m (omega arith) s),
                update_self m' (buf + i) 0,
                refl,
              )
        | inr z ↦
            let fit : fits n (i + 1) input ≡ true =
              subst (λ b. (if b then true else fits n (i + 1) input) ≡ true) z
                (subst
                  (λ b.
                    (if b
                      then fits n (i - 1) input
                      else (if is_newline c then true else fits n (i + 1) input))
                    ≡ true)
                  y g.1) in
            let e : strlen (c ∷ st) ≡ i + 1 = omega arith in
            let ih = readline_from-Agrees buf n (c ∷ st) input m' p (
              subst (λ k. fits n k input ≡ true) (sym e) fit,
              (update_self m (buf + i) c, z, Spells-update buf st (buf + i) c m (omega arith) s),
              before,
            ) in
            rw (y, z)
              (subst (λ k. Agrees buf (edit (c ∷ st) input) (readline_from buf n k input m')) e ih)
      ]
    ])

-- If the byte before the buffer is no newline, and the line never gets as long as the buffer, then
-- `readline` returns exactly when the edited line is ended by a newline, with the input behind it:
-- the buffer then holds the characters that were typed and not erased, in order, with a terminating
-- zero.
pub readline-edit :
    (buf n : ℕ) (input : List ℕ) (m : Bytes)
    → 0 < buf
    → is_newline (m (buf - 1)) ≡ false
    → fits n 0 input ≡ true
    → Agrees buf (edit [] input) (readline buf n input m)
unfolding readline Edits Spells strlen
readline-edit buf n input m p x f = readline_from-Agrees buf n [] input m p (f, tt, x)
