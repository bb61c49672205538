-- ===== src/Process/Turns.antt =====
-- The turns of kern/sched.c: whom `schedule` runs, and how long an environment waits.
use os_challenge_sudo_shell.Base.{
  ℕ, zero, suc, ◌≡◌, refl, sym, subst, ◌∙◌, true, List, [], ◌∷◌, ◌++◌, some, Exec, pure, arith,
  length, ◌>>◌, Returns, Returns-bind, has, delete, has-delete_self,
}
use mathlib.Core.List.{append_assoc}
use os_challenge_sudo_shell.Kernel.{Kernel, is_runnable, sched_remove, sched_insert_tail}
use os_challenge_sudo_shell.Process.Queues.{
  Sound, SameRoles-Sound, same_role, save_context-SameRole, rotate-Sound,
}
use os_challenge_sudo_shell.Process.{env_run, requeue, run_first, schedule}

-- The state after a turn of `e`, with the queue `l`.
pub record Turn (e : ℕ) (l : List ℕ) (t : Kernel) : Type 0 where
  pub sound : Sound t
  pub now : t.cur ≡ some e
  pub queue : t.sched_list ≡ l

env_run-Turn :
    (e : ℕ) (u : Kernel)
    → Sound u
    → is_runnable (u.env e).status ≡ true
    → Returns (env_run e u) (λ _ t. Turn e u.sched_list t)
unfolding env_run
env_run-Turn e u v h = rw h (record {
  sound =
      SameRoles-Sound
        (record { role = λ x. ground (arith, save_context-SameRole u.cur u x); queue = refl }) v;
  now = refl;
  queue = refl;
})

requeue-Returns :
    (c x : ℕ) (xs : List ℕ) (k : Kernel)
    → Sound k
    → k.sched_list ≡ c ∷ x ∷ xs
    → Returns (requeue (some c) k) (λ _ t. Sound t × (t.sched_list ≡ x ∷ xs ++ c ∷ []))
unfolding requeue sched_remove sched_insert_tail
requeue-Returns c x xs k v q =
    let h : has c k.sched_list ≡ true = rw q (ground arith) in
    let r : is_runnable (k.env c).status ≡ true = sym (v.exact c) ∙ h in
    let d : delete c k.sched_list ++ c ∷ [] ≡ x ∷ xs ++ c ∷ [] = rw q (ground arith) in
    let t : Kernel = record k { sched_list = delete c k.sched_list ++ c ∷ [] } in
    let w : Sound t = rotate-Sound c k t v h refl (λ y. same_role (k.env y)) in
    ground (arith, w, d, has-delete_self c k.sched_list v.once)

run_first-Turn :
    (x : ℕ) (xs l : List ℕ) (u : Kernel)
    → Sound u
    → u.sched_list ≡ x ∷ xs
    → l ≡ x ∷ xs
    → Returns (run_first l u) (λ _ t. Turn x (x ∷ xs) t)
unfolding run_first
run_first-Turn x xs l u v q e =
    let r : is_runnable (u.env x).status ≡ true = sym (v.exact x) ∙ rw q (ground arith) in
    subst (λ y. Returns (run_first y u) (λ _ t. Turn x (x ∷ xs) t)) (sym e)
      (subst (λ y. Returns (run_first (x ∷ xs) u) (λ _ t. Turn x y t)) q
        (env_run-Turn x _ (record { once = v.once; exact = v.exact }) r))

-- A yield of the first of the queue puts it last and runs the next.
turn :
    (k : Kernel) (c x : ℕ) (xs : List ℕ)
    → Turn c (c ∷ x ∷ xs) k
    → Returns (schedule true k) (λ _ t. Turn x (x ∷ xs ++ c ∷ []) t)
unfolding schedule
turn k c x xs h =
    Returns-bind (λ _ t. Sound t × (t.sched_list ≡ x ∷ xs ++ c ∷ [])) _ (requeue k.cur) _ k
      (subst (λ o. Returns (requeue o k) (λ _ t. Sound t × (t.sched_list ≡ x ∷ xs ++ c ∷ [])))
        (sym h.now) (requeue-Returns c x xs k h.sound h.queue))
      λ y u r. run_first-Turn x (xs ++ c ∷ []) u.sched_list u r.0 r.1 r.1

-- `n` yields, each by the environment that runs.
pub yields : ℕ → Exec Kernel (Unit {0})
yields zero = pure tt
yields (suc n) = schedule true >> yields n

-- Round robin: let the first of a sound queue be the current environment, and `x` stand behind it
-- and the environments `xs`. After one yield for each of those, every one by the environment that
-- then runs, `x` is the current environment and the first of a sound queue, and the former current
-- one and `xs` stand at its end in their order.
pub yields-Turn :
    (k : Kernel) (c x : ℕ) (xs ys : List ℕ)
    → Turn c (c ∷ xs ++ x ∷ ys) k
    → Returns (yields (suc (length xs)) k) (λ _ t. Turn x (x ∷ ys ++ c ∷ xs) t)
unfolding yields
yields-Turn k c x [] ys h =
    Returns-bind _ _ (schedule true) (λ _. yields 0) k (turn k c x ys h) λ y t r. r
yields-Turn k c x (z ∷ xs) ys h =
    Returns-bind _ _ (schedule true) (λ _. yields (suc (length xs))) k (turn k c z (xs ++ x ∷ ys) h)
      λ y t r.
        subst (λ l. Returns (yields (suc (length xs)) t) (λ _ u. Turn x (x ∷ l) u))
          (append_assoc ys (c ∷ []) (z ∷ xs))
          (yields-Turn t z x xs (ys ++ c ∷ [])
            (subst (λ l. Turn z (z ∷ l) t) (append_assoc xs (x ∷ ys) (c ∷ [])) r))
