-- ===== src/Process/Ids.antt =====
-- Environment numbers: mkenvid and envid2env of kern/env.c.
use os_challenge_sudo_shell.Base.{
  ℕ, ◌+◌, ◌*◌, ◌%◌, ◌^◌, ◌<◌, ◌≡◌, refl, sym, ap, ◌∙◌, ◌≢◌, Bool, true, false, not, ◌&&◌, ◌||◌,
  Option, none, some, ◌==◌, Returns, Ends, Ends-Holds, subst, done, arith, Result, ok, err,
  e_bad_env, Holds, ◌⊎◌, inl, inr, Bool-cases, ==_iff,
}
use os_challenge_sudo_shell.Base.Bits.{bit_or-add}
use os_challenge_sudo_shell.Kernel.{Kernel, Env, is_free, envx}
use os_challenge_sudo_shell.Process.{envid2env, resolve, envid_of}

-- The caller may act on the environment: it is the current one or a child of it.
abbrev pub MayAct : Kernel → ℕ → ℕ → Type 0
MayAct k c e = ((k.env e).id ≡ (k.env c).id) ⊎ ((k.env e).parent_id ≡ (k.env c).id)

-- What a found environment is: the current one for number 0, else the live one of that number, which
-- under `checkperm` the caller may act on.
abbrev pub Denotes : ℕ → Bool → Kernel → ℕ → ℕ → Type 0
Denotes envid check k c e =
    ((envid ≡ 0) × (e ≡ c))
    ⊎ ((e ≡ envx envid)
        × ((k.env e).id ≡ envid)
        × (is_free (k.env e).status ≡ false)
        × (check ≡ true → MayAct k c e))

abbrev pub Resolved : ℕ → Bool → Kernel → Result ℕ → Kernel → Type 0
Resolved envid check k (ok e) t = (t ≡ k) × ((c : ℕ) × (k.cur ≡ some c) × Denotes envid check k c e)
Resolved envid check k (err x) t =
    (t ≡ k)
    × (x ≡ e_bad_env)
    × ((c : ℕ) × (k.cur ≡ some c) × ((e : ℕ) → ¬ Denotes envid check k c e))

resolve-Resolved :
    (envid : ℕ) (check : Bool) (o : Option ℕ) (k : Kernel)
    → k.cur ≡ o
    → Holds (resolve envid check o k) (Resolved envid check k)
unfolding resolve
resolve-Resolved envid check none k q = tt
resolve-Resolved envid check (some c) k q = elim (Bool-cases (envid == 0)) [
  | inl z ↦ rw z (refl, (c, q, inl ((==_iff envid 0).0 z, refl)))
  | inr z ↦ elim (Bool-cases (is_free x.status || not (x.id == envid))) [
    | inl bad ↦ rw (z, bad) (refl, refl, (c, q, λ e d. ground arith))
    | inr live ↦
        elim (Bool-cases
          (check && (not (x.id == (k.env c).id) && not (x.parent_id == (k.env c).id)))) [
            | inl no_right ↦ rw (z, live, no_right) (refl, refl, (c, q, λ e d. ground arith))
            | inr right ↦
                rw (z, live, right)
                  (refl, (c, q, inr (refl, ground arith, ground arith, λ h. ground arith)))
          ]
  ]
]
  where
    x : Env
    x = k.env (envx envid)

pub envid2env-Resolved :
    (envid : ℕ) (check : Bool) (k : Kernel)
    → Holds (envid2env envid check k) (Resolved envid check k)
unfolding envid2env
envid2env-Resolved envid check k = resolve-Resolved envid check k.cur k refl

resolve-Ends : (envid c : ℕ) (check : Bool) (k : Kernel) → Ends (resolve envid check (some c) k)
unfolding resolve
resolve-Ends envid c check k = ground arith

-- With a current environment, `envid2env` comes to an end and changes nothing. It finds the current
-- environment for number 0, and else a live environment with just that number, which under
-- `checkperm` is the current one or its child. It fails only with E_BAD_ENV, and only where no
-- environment is so denoted.
pub envid2env-Returns :
    (envid c : ℕ) (check : Bool) (k : Kernel)
    → k.cur ≡ some c
    → Returns (envid2env envid check k) (Resolved envid check k)
unfolding envid2env
envid2env-Returns envid c check k q =
    Ends-Holds _ (resolve envid check k.cur k)
      (subst (λ o. Ends (resolve envid check o k)) (sym q) (resolve-Ends envid c check k))
      (resolve-Resolved envid check k.cur k refl)

envid_of-sum : (i e : ℕ) → e < 1024 → envid_of i e ≡ i % 2 ^ 21 * 2 ^ 11 + e
unfolding envid_of
envid_of-sum i e h =
    let q : i * 2 ^ 11 % 2 ^ 32 ≡ i % 2 ^ 21 * 2 ^ 11 = omega arith in
    rw q (bit_or-add 11 (i % 2 ^ 21) e (omega arith))

-- ENVX of a number that `mkenvid` makes for a place of the table is that place, whatever the
-- counter is.
pub envx-envid_of : (i e : ℕ) → e < 1024 → envx (envid_of i e) ≡ e
envx-envid_of i e h = omega (arith, envid_of-sum i e h)

-- Before the counter wraps at 2^21, two numbers that `mkenvid` makes for places of the table are
-- equal only for the same counter and the same place.
pub envid_of-injective :
    (i j e f : ℕ)
    → i < 2 ^ 21
    → j < 2 ^ 21
    → e < 1024
    → f < 1024
    → envid_of i e ≡ envid_of j f
    → (i ≡ j) × (e ≡ f)
envid_of-injective i j e f hi hj he hf q = (
  omega (arith, envid_of-sum i e he, envid_of-sum j f hf),
  omega (arith, envid_of-sum i e he, envid_of-sum j f hf),
)

-- The call succeeds for the number of a live environment, with the right to it where that is asked.
pub envid2env-live :
    (envid c : ℕ) (check : Bool) (k : Kernel)
    → k.cur ≡ some c
    → envid ≢ 0
    → (k.env (envx envid)).id ≡ envid
    → is_free (k.env (envx envid)).status ≡ false
    → (check ≡ true → MayAct k c (envx envid))
    → envid2env envid check k ≡ done (ok (envx envid), k)
unfolding envid2env resolve
envid2env-live envid c check k q n i l m = ap (λ o. resolve envid check o k) q ∙ go check m
  where
    go :
        (b : Bool)
        → (b ≡ true → MayAct k c (envx envid))
        → resolve envid b (some c) k ≡ done (ok (envx envid), k)
    go true f = ground (arith, f refl)
    go false f = ground arith
