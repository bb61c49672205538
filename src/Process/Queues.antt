-- ===== src/Process/Queues.antt =====
-- The queue of environments that can run, against their status (the invariant that kern/env.c states).
use os_challenge_sudo_shell.Base.{
  ℕ, ◌≡◌, refl, sym, ◌∙◌, Bool, true, false, not, ◌&&◌, ◌||◌, List, [], ◌∷◌, ◌++◌, Option, none,
  some, ◌==◌, arith, branch, Holds, Holds-bind, Holds-weaken, Returns, Ends, Ends-bind, Ends-Holds,
  Bool-cases, has, delete, Distinct, has-append, has-delete_ne, has-delete_self, delete-Distinct,
  snoc-Distinct, inl, inr,
}
use os_challenge_sudo_shell.Kernel.{Kernel, Env, is_runnable, sched_remove, sched_insert_tail}
use os_challenge_sudo_shell.Process.{
  env_run, cur_runnable, requeue, run_first, run_on, schedule, save_context,
}

-- "'env' in 'env_sched_list' iff. 'env->env_status' is 'RUNNABLE'", and it is there once.
pub record Sound (k : Kernel) : Type 0 where
  pub once : Distinct k.sched_list
  pub exact : (e : ℕ) → has e k.sched_list ≡ is_runnable (k.env e).status

-- An environment that waits for a message or a result is not running, and waits for one of them.
pub record Waits (k : Kernel) : Type 0 where
  pub blocked :
      (e : ℕ)
      → ((k.env e).ipc_recving || (k.env e).waiting_return_value) ≡ true
      → is_runnable (k.env e).status ≡ false
  pub one : (e : ℕ) → ((k.env e).ipc_recving && (k.env e).waiting_return_value) ≡ false

-- The fields of an environment that the two invariants read.
pub record SameRole (x y : Env) : Type 0 where
  pub status : x.status ≡ y.status
  pub recving : x.ipc_recving ≡ y.ipc_recving
  pub waiting : x.waiting_return_value ≡ y.waiting_return_value

pub record SameRoles (k t : Kernel) : Type 0 where
  pub role : (e : ℕ) → SameRole (t.env e) (k.env e)
  pub queue : t.sched_list ≡ k.sched_list

pub SameRoles-Sound : {k t : Kernel} → SameRoles k t → Sound k → Sound t
SameRoles-Sound s v = record {
  once = rw s.queue v.once;
  exact = λ e. ground (arith, v.exact e, s.role e);
}

pub SameRoles-Waits : {k t : Kernel} → SameRoles k t → Waits k → Waits t
SameRoles-Waits s v = record {
  blocked = λ e h. ground (arith, v.blocked e, s.role e);
  one = λ e. ground (arith, v.one e, s.role e);
}

pub same_role : (x : Env) → SameRole x x
same_role x = record { status = refl; recving = refl; waiting = refl }

pub save_context-SameRole :
    (o : Option ℕ) (k : Kernel) (e : ℕ) → SameRole (save_context o k e) (k.env e)
unfolding save_context
save_context-SameRole none k e = same_role (k.env e)
save_context-SameRole (some c) k e = ground arith

-- Running an environment changes no role; it was runnable, and is the current one from then on.
abbrev pub Running : ℕ → Kernel → Kernel → Type 0
Running e k t = SameRoles k t × (t.cur ≡ some e) × (is_runnable (t.env e).status ≡ true)

env_run-Running : (e : ℕ) (k : Kernel) → Holds (env_run e k) (λ _ t. Running e k t)
unfolding env_run
env_run-Running e k = elim (Bool-cases (is_runnable (k.env e).status)) [
  | inl h ↦ rw h (
    record { role = λ x. ground (arith, save_context-SameRole k.cur k x); queue = refl },
    refl,
    ground (arith, save_context-SameRole k.cur k e),
  )
  | inr h ↦ rw h tt
]

-- A queue with one element moved to its end.
pub rotate-Sound :
    (e : ℕ) (k t : Kernel)
    → Sound k
    → has e k.sched_list ≡ true
    → t.sched_list ≡ delete e k.sched_list ++ e ∷ []
    → ((x : ℕ) → SameRole (t.env x) (k.env x))
    → Sound t
rotate-Sound e k t v h q r = record {
  once = rw q (
      snoc-Distinct e (delete e k.sched_list) (has-delete_self e k.sched_list v.once)
        (delete-Distinct e k.sched_list v.once));
  exact = λ x. rw q (
      ground (
        arith,
        v.exact x,
        r x,
        has-append x (delete e k.sched_list) (e ∷ []),
        has-delete_ne e x k.sched_list,
      ));
}

pub sched_remove-Holds :
    (e : ℕ) (k : Kernel)
    → Holds
        (sched_remove e k)
        (λ _ t. (has e k.sched_list ≡ true) × (t ≡ record k { sched_list = delete e k.sched_list }))
unfolding sched_remove
sched_remove-Holds e k = ground arith

pub sched_insert_tail-Holds :
    (e : ℕ) (k : Kernel)
    → Holds (sched_insert_tail e k) (λ _ t.
      (has e k.sched_list ≡ false) × (t ≡ record k { sched_list = k.sched_list ++ e ∷ [] }))
unfolding sched_insert_tail
sched_insert_tail-Holds e k = ground arith

requeue-Sound :
    (o : Option ℕ) (k : Kernel)
    → Sound k
    → Holds (requeue o k) (λ _ t. Sound t × ((x : ℕ) → SameRole (t.env x) (k.env x)))
unfolding requeue sched_insert_tail
requeue-Sound none k v = (v, λ x. same_role (k.env x))
requeue-Sound (some c) k v = elim (Bool-cases (is_runnable (k.env c).status)) [
  | inl e ↦
      let h : has c k.sched_list ≡ true = v.exact c ∙ e in
      let t : Kernel = record k { sched_list = delete c k.sched_list ++ c ∷ [] } in
      let w : Sound t = rotate-Sound c k t v h refl (λ x. same_role (k.env x)) in
      rw (e, branch)
        (Holds-bind _ _ (sched_remove c) _ k (sched_remove-Holds c k)
          λ y u r. rw (r.1, has-delete_self c k.sched_list v.once) (w, λ x. same_role (k.env x)))
  | inr e ↦ rw e (v, λ x. same_role (k.env x))
]

pub trans_role : (x y z : Env) → SameRole y x → SameRole z y → SameRole z x
trans_role x y z f g = record {
  status = g.status ∙ f.status;
  recving = g.recving ∙ f.recving;
  waiting = g.waiting ∙ f.waiting;
}

-- What `schedule` leaves: sound queues, no changed role, and a current environment that can run.
pub record Scheduled (k t : Kernel) : Type 0 where
  pub sound : Sound t
  pub role : (x : ℕ) → SameRole (t.env x) (k.env x)
  pub running : (e : ℕ) × (t.cur ≡ some e) × (is_runnable (t.env e).status ≡ true)

env_run-Scheduled :
    (e : ℕ) (k u : Kernel)
    → Sound u
    → ((x : ℕ) → SameRole (u.env x) (k.env x))
    → Holds (env_run e u) (λ _ t. Scheduled k t)
env_run-Scheduled e k u v s = Holds-weaken _ _ (env_run e u) (env_run-Running e u) λ y t r. record {
  sound = SameRoles-Sound r.0 v;
  role = λ x. trans_role (k.env x) (u.env x) (t.env x) (s x) (r.0.role x);
  running = (e, r.1, r.2);
}

-- `schedule` keeps the queue sound, changes no status, and leaves a current environment that can run.
pub schedule-Scheduled :
    (yield : Bool) (k : Kernel) → Sound k → Holds (schedule yield k) (λ _ t. Scheduled k t)
unfolding schedule run_first run_on
schedule-Scheduled yield k v =
    elim (Bool-cases (yield || (k.slices == 0 || not (cur_runnable k.cur k)))) [
      | inl e ↦ rw e (
          Holds-bind _ _ (requeue k.cur) _ k (requeue-Sound k.cur k v)
            λ y u h. first u.sched_list u h.0 h.1)
      | inr e ↦ rw e (on k.cur)
    ]
  where
    first :
        (l : List ℕ) (u : Kernel)
        → Sound u
        → ((x : ℕ) → SameRole (u.env x) (k.env x))
        → Holds (run_first l u) (λ _ t. Scheduled k t)
    first [] u w r = tt
    first (e ∷ l) u w r = env_run-Scheduled e k _ (record { once = w.once; exact = w.exact }) r

    on : (o : Option ℕ) → Holds (run_on o k) (λ _ t. Scheduled k t)
    on none = tt
    on (some e) =
        env_run-Scheduled e k _ (record { once = v.once; exact = v.exact }) λ x. same_role (k.env x)

env_run-Ends : (e : ℕ) (k : Kernel) → is_runnable (k.env e).status ≡ true → Ends (env_run e k)
unfolding env_run
env_run-Ends e k h = rw h tt

requeue-Ends : (o : Option ℕ) (k : Kernel) → Sound k → Ends (requeue o k)
unfolding requeue sched_remove sched_insert_tail
requeue-Ends none k v = tt
requeue-Ends (some c) k v = ground (arith, v.exact c, has-delete_self c k.sched_list v.once)

run_first-Ends :
    (l : List ℕ) (k : Kernel) (x : ℕ)
    → Sound k
    → k.sched_list ≡ l
    → has x l ≡ true
    → Ends (run_first l k)
unfolding run_first
run_first-Ends [] k x v q h = cc
run_first-Ends (e ∷ l) k x v q h = env_run-Ends e _ (sym (v.exact e) ∙ rw q (ground arith))

run_on-Ends : (o : Option ℕ) (k : Kernel) → cur_runnable o k ≡ true → Ends (run_on o k)
unfolding run_on cur_runnable
run_on-Ends none k h = cc
run_on-Ends (some e) k h = env_run-Ends e _ h

-- If the queue holds just the environments that can run, each once, and there is one, `schedule`
-- comes to an end, whether it is told to yield or not: the current environment is then one that can
-- run, the queue is as it must be, and no environment has changed its status or what it waits for.
pub schedule-Returns :
    (yield : Bool) (x : ℕ) (k : Kernel)
    → Sound k
    → is_runnable (k.env x).status ≡ true
    → Returns (schedule yield k) (λ _ t. Scheduled k t)
unfolding schedule
schedule-Returns yield x k v r = Ends-Holds _ (schedule yield k) ends (schedule-Scheduled yield k v)
  where
    ends : Ends (schedule yield k)
    ends = elim (Bool-cases (yield || (k.slices == 0 || not (cur_runnable k.cur k)))) [
      | inl e ↦ rw e (
          Ends-bind _ (requeue k.cur) _ k (requeue-Ends k.cur k v) (requeue-Sound k.cur k v)
            λ y u h. run_first-Ends u.sched_list u x h.0 refl (h.0.exact x ∙ ground (arith, h.1 x)))
      | inr e ↦ rw e (run_on-Ends k.cur k (ground arith))
    ]
