-- ===== src/Base/Results.antt =====
-- Results of the kernel's and the servers' functions: error codes as values, and code that may stop.
use mathlib.Core.Path.{◌≡◌, ap}
use mathlib.Core.Bool.{Bool, true, false}

-- include/error.h, without the sign.
pub data Error : Type 0 where
  e_unspecified e_bad_env e_inval e_no_mem e_no_sys e_no_free_env e_ipc_not_recv : Error
  e_no_disk e_max_open e_not_found e_bad_path e_file_exists e_not_exec e_is_dir : Error

-- What a function that returns a negative code on failure returns.
pub data Result {ℓ} (A : Type ℓ) : Type ℓ where
  ok : A → Result A
  err : Error → Result A

-- `panic` and a failed `assert` halt the machine; `fault` is a use of memory that C leaves undefined.
pub data Stop : Type 0 where
  panic fault tangle : Stop

pub data Outcome {ℓ} (A : Type ℓ) : Type ℓ where
  done : A → Outcome A
  stop : Stop → Outcome A

-- Code over a state of type `S`.
abbrev pub Exec : Type 0 → Type 0 → Type 0
Exec S A = S → Outcome (A × S)

abbrev pub pure : {S A : Type 0} → A → Exec S A
pure a s = done (a, s)

abbrev pub halt : {S A : Type 0} → Stop → Exec S A
halt w s = stop w

abbrev pub modify : {S : Type 0} → (S → S) → Exec S (Unit {0})
modify f s = done (tt, f s)

infixl 5 ◌>>=◌ ◌>>◌
abbrev pub ◌>>=◌ : {S A B : Type 0} → Exec S A → (A → Exec S B) → Exec S B
◌>>=◌ m f s = elim (m s) [ done (a, t) ↦ f a t | stop w ↦ stop w ]

abbrev pub ◌>>◌ : {S B : Type 0} → Exec S (Unit {0}) → Exec S B → Exec S B
m >> k = m >>= λ _. k

-- An `if` statement.
abbrev pub branch : {S A : Type 0} → Bool → Exec S A → Exec S A → Exec S A
branch true m n s = m s
branch false m n s = n s

-- The macro `try` of include/error.h: an error code is returned at once.
abbrev pub attempt :
    {S A B : Type 0} → Exec S (Result A) → (A → Exec S (Result B)) → Exec S (Result B)
attempt m f = m >>= λ r. elim r [ ok a ↦ f a | err e ↦ pure (err e) ]

-- The macro `panic_on`: a non-zero code halts.
abbrev pub panic_on : {S A : Type 0} → Exec S (Result A) → Exec S A
panic_on m = m >>= λ r. elim r [ ok a ↦ pure a | err e ↦ halt panic ]

abbrev pub ensure : {S : Type 0} → Bool → Exec S (Unit {0})
ensure true = pure tt
ensure false = halt panic

-- What holds of the result and the state if the code does not stop.
abbrev pub Holds {ℓ} : {A S : Type 0} → Outcome (A × S) → (A → S → Type ℓ) → Type ℓ
Holds (done (a, s)) Q = Q a s
Holds (stop w) Q = Unit

pub Holds-bind {ℓ κ} :
    {S A B : Type 0} (P : A → S → Type ℓ) (Q : B → S → Type κ) (m : Exec S A) (f : A → Exec S B)
    (s : S)
    → Holds (m s) P
    → ((a : A) (t : S) → P a t → Holds (f a t) Q)
    → Holds ((m >>= f) s) Q
Holds-bind {S} {A} {B} P Q m f s h k = go (m s) h
  where
    go :
        (o : Outcome (A × S))
        → Holds o P
        → Holds
            (elim o as (λ (x : Outcome (A × S)). Outcome (B × S)) [
              | done (a, t) ↦ f a t
              | stop w ↦ stop w
            ])
            Q
    go (done (a, t)) h' = k a t h'
    go (stop w) h' = tt

pub Holds-any : {A S : Type 0} (o : Outcome (A × S)) → Holds o (λ a t. Unit {0})
Holds-any (done (a, t)) = tt
Holds-any (stop w) = tt

pub Holds-weaken {ℓ κ} :
    {A S : Type 0} (P : A → S → Type ℓ) (Q : A → S → Type κ) (o : Outcome (A × S))
    → Holds o P
    → ((a : A) (t : S) → P a t → Q a t)
    → Holds o Q
Holds-weaken P Q (done (a, t)) h k = k a t h
Holds-weaken P Q (stop w) h k = tt

-- No proof, at every level.
pub data Fails {ℓ} : Type ℓ where

-- The code does not stop, and this holds of its result and state.
abbrev pub Returns {ℓ} : {A S : Type 0} → Outcome (A × S) → (A → S → Type ℓ) → Type ℓ
Returns (done (a, s)) Q = Q a s
Returns (stop w) Q = Fails

pub Returns-bind {ℓ κ} :
    {S A B : Type 0} (P : A → S → Type ℓ) (Q : B → S → Type κ) (m : Exec S A) (f : A → Exec S B)
    (s : S)
    → Returns (m s) P
    → ((a : A) (t : S) → P a t → Returns (f a t) Q)
    → Returns ((m >>= f) s) Q
Returns-bind {S} {A} {B} P Q m f s h k = go (m s) h
  where
    go :
        (o : Outcome (A × S))
        → Returns o P
        → Returns
            (elim o as (λ (x : Outcome (A × S)). Outcome (B × S)) [
              | done (a, t) ↦ f a t
              | stop w ↦ stop w
            ])
            Q
    go (done (a, t)) h' = k a t h'
    go (stop w) h' = elim h' [ ]

pub Returns-weaken {ℓ κ} :
    {A S : Type 0} (P : A → S → Type ℓ) (Q : A → S → Type κ) (o : Outcome (A × S))
    → Returns o P
    → ((a : A) (t : S) → P a t → Q a t)
    → Returns o Q
Returns-weaken P Q (done (a, t)) h k = k a t h
Returns-weaken P Q (stop w) h k = elim h [ ]

pub Returns-Holds {ℓ} :
    {A S : Type 0} (P : A → S → Type ℓ) (o : Outcome (A × S)) → Returns o P → Holds o P
Returns-Holds P (done (a, t)) h = h
Returns-Holds P (stop w) h = tt

-- The code does not stop.
abbrev pub Ends : {A S : Type 0} → Outcome (A × S) → Type 0
Ends o = Returns o (λ _ _. Unit {0})

pub Ends-Holds {ℓ} :
    {A S : Type 0} (Q : A → S → Type ℓ) (o : Outcome (A × S)) → Ends o → Holds o Q → Returns o Q
Ends-Holds Q (done (a, t)) e h = h
Ends-Holds Q (stop w) e h = elim e [ ]

pub Ends-bind {ℓ} :
    {S A B : Type 0} (P : A → S → Type ℓ) (m : Exec S A) (f : A → Exec S B) (s : S)
    → Ends (m s)
    → Holds (m s) P
    → ((a : A) (t : S) → P a t → Ends (f a t))
    → Ends ((m >>= f) s)
Ends-bind P m f s e h k = Returns-bind P (λ _ _. Unit {0}) m f s (Ends-Holds P (m s) e h) k

pub Holds-both {ℓ κ} :
    {A S : Type 0} (P : A → S → Type ℓ) (Q : A → S → Type κ) (o : Outcome (A × S))
    → Holds o P
    → Holds o Q
    → Holds o (λ a t. P a t × Q a t)
Holds-both P Q (done (a, t)) h k = (h, k)
Holds-both P Q (stop w) h k = tt

-- Code whose first part is known
pub bind-done :
    {S A B : Type 0} (m : Exec S A) (f : A → Exec S B) (s : S) (a : A) (t : S)
    → m s ≡ done (a, t)
    → (m >>= f) s ≡ f a t
bind-done {S} {A} {B} m f s a t e =
    ap
      (λ (o : Outcome (A × S)). elim o as (λ (x : Outcome (A × S)). Outcome (B × S)) [
        | done (a', t') ↦ f a' t'
        | stop w ↦ stop w
      ])
      e

pub attempt-ok :
    {S A B : Type 0} (m : Exec S (Result A)) (f : A → Exec S (Result B)) (s : S) (a : A) (t : S)
    → m s ≡ done (ok a, t)
    → attempt m f s ≡ f a t
attempt-ok m f s a t e = bind-done m _ s (ok a) t e

pub attempt-err :
    {S A B : Type 0} (m : Exec S (Result A)) (f : A → Exec S (Result B)) (s : S) (e : Error) (t : S)
    → m s ≡ done (err e, t)
    → attempt m f s ≡ done (err e, t)
attempt-err m f s e t q = bind-done m _ s (err e) t q
