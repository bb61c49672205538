-- ===== src/Syscall/Queues.antt =====
-- The system calls that block and wake environments keep the scheduler's queue and the waiting states
-- in step.
use os_challenge_sudo_shell.Base.{
  ℕ, ◌≡◌, refl, ◌∙◌, Bool, true, false, not, ◌&&◌, ◌||◌, [], ◌∷◌, Option, none, some, ◌==◌, update,
  Exec, Outcome, done, stop, pure, arith, branch, attempt, ◌>>◌, Result, ok, err, e_ipc_not_recv,
  Holds, Holds-bind, Holds-weaken, Bool-cases, has, delete, has-append, has-delete_ne,
  has-delete_self, delete-Distinct, snoc-Distinct, inl, inr,
}
use os_challenge_sudo_shell.Memory.{Memory, page_lookup}
use os_challenge_sudo_shell.Kernel.{
  Kernel, Env, not_runnable, is_runnable, on_memory, in_kernel, set_env, sched_insert_tail,
}
use os_challenge_sudo_shell.Process.Ids.{envid2env-Resolved}
use os_challenge_sudo_shell.Process.{envid2env}
use os_challenge_sudo_shell.Process.Queues.{
  Sound, Waits, SameRole, SameRoles, SameRoles-Sound, SameRoles-Waits, same_role,
}
use os_challenge_sudo_shell.Syscall.{
  wake, from_cur, sys_send_return_value, deliver_page, lookup_in, insert_in, message, is_illegal_va,
}

-- Both invariants.
abbrev pub Steady : Kernel → Type 0
Steady k = Sound k × Waits k

in_kernel-SameRoles :
    {A : Type 0} (k : Kernel) (o : Outcome (A × Memory))
    → Holds (in_kernel k o) (λ _ t. SameRoles k t)
in_kernel-SameRoles k (done (a, m)) = record { role = λ e. same_role (k.env e); queue = refl }
in_kernel-SameRoles k (stop w) = tt

-- The block of an environment rewritten by `f`, which then runs.
abbrev rewrite_wake : ℕ → (Env → Env) → Exec Kernel (Unit {0})
rewrite_wake e f = set_env e f >> wake e

rewrite_wake-Steady :
    (e : ℕ) (f : Env → Env) (k : Kernel)
    → Steady k
    → is_runnable (k.env e).status ≡ false
    → ((f (k.env e)).ipc_recving || (f (k.env e)).waiting_return_value) ≡ false
    → Holds (rewrite_wake e f k) (λ _ t. Steady t)
unfolding wake sched_insert_tail
rewrite_wake-Steady e f k (v, w) h g = rw (v.exact e ∙ h) (
  record {
    once = snoc-Distinct e k.sched_list (v.exact e ∙ h) v.once;
    exact = λ x. ground (arith, v.exact x, has-append x k.sched_list (e ∷ []));
  },
  record { blocked = λ x. ground (arith, w.blocked x); one = λ x. ground (arith, w.one x) },
)

Steady-roles : (k t : Kernel) → SameRoles k t → Steady k → Steady t
Steady-roles k t s (v, w) = (SameRoles-Sound s v, SameRoles-Waits s w)

lookup_in-Steady : (e va : ℕ) (k : Kernel) → Steady k → Holds (lookup_in e va k) (λ _ t. Steady t)
unfolding lookup_in
lookup_in-Steady e va k v =
    Holds-bind _ _ (on_memory (page_lookup (k.env e).pgdir va)) _ k
      (in_kernel-SameRoles k (page_lookup (k.env e).pgdir va k.mem)) λ r t s. Steady-roles k t s v

insert_in-Steady :
    (e p va perm : ℕ) (k : Kernel) → Steady k → Holds (insert_in e p va perm k) (λ _ t. Steady t)
unfolding insert_in
insert_in-Steady e p va perm k v =
    Holds-weaken _ _ (insert_in e p va perm k) (in_kernel-SameRoles k _)
      (λ r t s. Steady-roles k t s v)

deliver_page-Steady :
    (c e srcva perm : ℕ) (k : Kernel)
    → Steady k
    → Holds (deliver_page c e srcva perm k) (λ _ t. Steady t)
unfolding deliver_page
deliver_page-Steady c e srcva perm k v = elim (Bool-cases (srcva == 0)) [
  | inl y ↦ rw y v
  | inr y ↦ rw y (
      Holds-bind _ _ (lookup_in c srcva) _ k (lookup_in-Steady c srcva k v) (elim [
        | ok p ↦ λ t w. insert_in-Steady e p (t.env e).ipc_dstva perm t w
        | err x ↦ λ t w. w
      ]))
]

pub Waits-role : (k t : Kernel) → ((x : ℕ) → SameRole (t.env x) (k.env x)) → Waits k → Waits t
Waits-role k t r w = record {
  blocked = λ e h. ground (arith, w.blocked e, r e);
  one = λ e. ground (arith, w.one e, r e);
}

-- What `note` may write: of an environment that waits for nothing, one that waits for one thing.
abbrev pub IsNote : (Env → Env) → Type 0
IsNote note =
    (x : Env)
    → x.ipc_recving ≡ false
    → x.waiting_return_value ≡ false
    → ((note x).ipc_recving && (note x).waiting_return_value) ≡ false

-- The state in which the current environment has stopped: it was queued, so it ran, so it waited for
-- nothing before.
pub stopped-Steady :
    (note : Env → Env) (c : ℕ) (k t : Kernel)
    → IsNote note
    → Steady k
    → has c k.sched_list ≡ true
    → t.sched_list ≡ delete c k.sched_list
    → t.env ≡ update k.env c (record (note (k.env c)) { status = not_runnable })
    → Steady t
stopped-Steady note c k t i (v, w) h q e = (
  record {
    once = rw q (delete-Distinct c k.sched_list v.once);
    exact = λ x.
        rw (q, e)
          (ground (
            arith,
            v.exact x,
            has-delete_ne c x k.sched_list,
            has-delete_self c k.sched_list v.once,
          ));
  },
  record {
    blocked = λ x. rw e (ground (arith, w.blocked x));
    one = λ x. rw e (ground (arith, w.one x, w.blocked c, v.exact c, i (k.env c)));
  },
)

envid2env_same :
    (envid : ℕ) (check : Bool) (k : Kernel) → Holds (envid2env envid check k) (λ _ t. t ≡ k)
envid2env_same envid check k =
    Holds-weaken _ _ (envid2env envid check k) (envid2env-Resolved envid check k)
      (elim [ ok e ↦ λ t h. h.0 | err x ↦ λ t h. h.0 ])

-- A message to an environment that waits, and the page that comes with it.
post-Steady :
    (e c srcva perm : ℕ) (f : Env → Env) (k : Kernel)
    → Steady k
    → ((k.env e).ipc_recving || (k.env e).waiting_return_value) ≡ true
    → ((f (k.env e)).ipc_recving || (f (k.env e)).waiting_return_value) ≡ false
    → Holds ((rewrite_wake e f >> deliver_page c e srcva perm) k) (λ _ t. Steady t)
post-Steady e c srcva perm f k v h g =
    Holds-bind _ _ (rewrite_wake e f) _ k (rewrite_wake-Steady e f k v (v.1.blocked e h) g)
      λ x t w. deliver_page-Steady c e srcva perm t w

-- The receiver is found, and the message posted if it waits for one.
abbrev post_to : (Env → Bool) → (Env → Env) → ℕ → ℕ → ℕ → ℕ → Exec Kernel (Result (Unit {0}))
post_to waits f c srcva perm e k =
    branch (waits (k.env e)) (rewrite_wake e f >> deliver_page c e srcva perm)
      (pure (err e_ipc_not_recv)) k

send-Steady :
    (waits : Env → Bool) (f : Kernel → ℕ → Env → Env) (envid srcva perm : ℕ) (o : Option ℕ)
    (k : Kernel)
    → ((x : Env) → waits x ≡ true → (x.ipc_recving || x.waiting_return_value) ≡ true)
    → ((c : ℕ) (x : Env)
        → waits x ≡ true
        → (x.ipc_recving && x.waiting_return_value) ≡ false
        → ((f k c x).ipc_recving || (f k c x).waiting_return_value) ≡ false)
    → Steady k
    → Holds
        (from_cur o
          (λ c. attempt (envid2env envid false) λ e. λ k'. post_to waits (f k' c) c srcva perm e k')
          k)
        (λ _ t. Steady t)
send-Steady waits f envid srcva perm none k i j v = tt
send-Steady waits f envid srcva perm (some c) k i j v =
    Holds-bind (λ _ t. t ≡ k) _ (envid2env envid false) _ k (envid2env_same envid false k)
      (elim [
        | ok e ↦ λ t q. elim (Bool-cases (waits (k.env e))) [
          | inl y ↦
              rw (q, y)
                (post-Steady e c srcva perm (f k c) k v (i (k.env e) y)
                  (j c (k.env e) y (v.1.one e)))
          | inr n ↦ rw (q, n) v
        ]
        | err x ↦ λ t q. rw q v
      ])

-- Let the queue hold just the environments that can run, each once, and let an environment that
-- waits not be runnable and wait for one thing. Then this holds after every run of
-- `sys_send_return_value` that does not stop the machine, with or without a page.
pub sys_send_return_value-Steady :
    (envid value srcva perm : ℕ) (k : Kernel)
    → Steady k
    → Holds (sys_send_return_value envid value srcva perm k) (λ _ t. Steady t)
unfolding sys_send_return_value message
sys_send_return_value-Steady envid value srcva perm k v =
    elim (Bool-cases (not (srcva == 0) && is_illegal_va srcva)) [
      | inl e ↦ rw e v
      | inr e ↦ rw e (
          send-Steady (λ x. x.waiting_return_value)
            (λ k' c x. record (message value (k'.env c).id perm x) {
              waiting_return_value = false;
              return_value = value;
            })
            envid srcva perm k.cur k (λ x h. ground arith) (λ c x h g. ground arith) v)
    ]
