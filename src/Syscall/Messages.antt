-- ===== src/Syscall/Messages.antt =====
-- What a message of kern/syscall_all.c carries, and what a receiver does until it comes.
use os_challenge_sudo_shell.Base.{
  bit_or, false, ℕ, ◌≡◌, refl, sym, Bool, true, false, [], ◌∷◌, ◌++◌, some, subst, fun_ext, update,
  Exec, pure, arith, branch, attempt, ◌>>◌, Result, ok, err, e_bad_env, e_ipc_not_recv, Returns,
  Returns-bind, Bool-cases, has, ◌⊎◌, inl, inr,
}
use os_challenge_sudo_shell.Memory.{pte_v}
use os_challenge_sudo_shell.Kernel.{Kernel, Env, runnable, set_env, sched_insert_tail}
use os_challenge_sudo_shell.Process.{envid2env}
use os_challenge_sudo_shell.Process.Ids.{Denotes, Resolved, envid2env-Returns}
use os_challenge_sudo_shell.Syscall.{
  sys_ipc_try_send, sys_send_return_value, wake, deliver_page, from_cur, message,
}

-- The state after a message without a page: the receiver's block is `x`, it can run, and it is last in
-- the queue.
abbrev pub Posted : Kernel → ℕ → Env → Kernel
Posted k e x = record k {
  env = update k.env e (record x { status = runnable });
  sched_list = k.sched_list ++ e ∷ [];
}

-- A call that gives the message `f` to an environment that `waits`: it is refused, with nothing changed,
-- for a bad number or one that does not wait.
abbrev pub Sent : ℕ → (Env → Bool) → (Env → Env) → Kernel → Result (Unit {0}) → Kernel → Type 0
Sent envid waits f k (ok x) t =
    (c e : ℕ) × (k.cur ≡ some c)
    × Denotes envid false k c e
    × (waits (k.env e) ≡ true)
    × (t ≡ Posted k e (f (k.env e)))
Sent envid waits f k (err x) t =
    (t ≡ k)
    × (((x ≡ e_bad_env) × ((c : ℕ) × (k.cur ≡ some c) × ((e : ℕ) → ¬ Denotes envid false k c e)))
        ⊎ ((x ≡ e_ipc_not_recv)
            × ((c e : ℕ) × (k.cur ≡ some c)
                × Denotes envid false k c e
                × (waits (k.env e) ≡ false))))

-- The block is written twice, first the message and then the status.
posted :
    (g : ℕ → Env) (e : ℕ) (x : Env)
    → update (update g e x) e (record (update g e x e) { status = runnable })
      ≡ update g e (record x { status = runnable })
posted g e x = fun_ext λ j. ground arith

wake-Posted :
    (e : ℕ) (x : Env) (k : Kernel)
    → has e k.sched_list ≡ false
    → Returns (wake e (record k { env = update k.env e x })) (λ _ t. t ≡ Posted k e x)
unfolding wake sched_insert_tail
wake-Posted e x k h = rw (h, posted k.env e x) refl

-- What sys_ipc_try_send and sys_send_return_value have in common when they send no page.
abbrev send_value :
    (Env → Bool) → (Kernel → ℕ → Env → Env) → ℕ → ℕ → ℕ → Exec Kernel (Result (Unit {0}))
send_value waits f perm c e k =
    branch (waits (k.env e)) (set_env e (f k c) >> (wake e >> deliver_page c e 0 perm))
      (pure (err e_ipc_not_recv)) k

send_value-Sent :
    (waits : Env → Bool) (f : Kernel → ℕ → Env → Env) (envid perm c : ℕ) (k : Kernel)
    → k.cur ≡ some c
    → ((e : ℕ) → waits (k.env e) ≡ true → has e k.sched_list ≡ false)
    → Returns
        (attempt (envid2env envid false) (λ e. send_value waits f perm c e) k)
        (Sent envid waits (f k c) k)
unfolding deliver_page
send_value-Sent waits f envid perm c k r out =
    Returns-bind (Resolved envid false k) _ (envid2env envid false) _ k
      (envid2env-Returns envid c false k r)
      (elim [
        | ok e ↦ λ t h. elim (Bool-cases (waits (k.env e))) [
          | inl y ↦
              rw (h.0, y)
                (Returns-bind (λ _ u. u ≡ Posted k e (f k c (k.env e))) _ (wake e)
                  (λ _. deliver_page c e 0 perm) _ (wake-Posted e (f k c (k.env e)) k (out e y))
                  λ z u q. (h.1.0, e, h.1.1, h.1.2, y, q))
          | inr n ↦ rw (h.0, n) (refl, inr (refl, (h.1.0, e, h.1.1, h.1.2, n)))
        ]
        | err x ↦ λ t h. (h.0, inl (h.1, h.2))
      ])

at_cur {ℓ} :
    {A : Type 0} (Q : Result A → Kernel → Type ℓ) (f : ℕ → Exec Kernel (Result A)) (k : Kernel)
    (c : ℕ)
    → k.cur ≡ some c
    → Returns (f c k) Q
    → Returns (from_cur k.cur f k) Q
at_cur Q f k c q h = subst (λ o. Returns (from_cur o f k) Q) (sym q) h

-- With a current environment, and no environment that waits for a message in the queue,
-- `sys_ipc_try_send` without a page comes to an end. If the number denotes an environment that
-- waits for a message, that one gets the value, the sender's number and the permissions, waits for
-- no message any more, can run, and goes last in the queue, and nothing else changes. If the number
-- denotes none, the call is refused with E_BAD_ENV, and if it denotes one that does not wait, with
-- E_IPC_NOT_RECV; nothing changes then.
pub sys_ipc_try_send-Sent :
    (envid value perm c : ℕ) (k : Kernel)
    → k.cur ≡ some c
    → ((e : ℕ) → (k.env e).ipc_recving ≡ true → has e k.sched_list ≡ false)
    → Returns (sys_ipc_try_send envid value 0 perm k) (
        Sent envid
          (λ x. x.ipc_recving)
          (λ x. record x {
            ipc_value = value;
            ipc_from = (k.env c).id;
            ipc_perm = bit_or pte_v perm;
            ipc_recving = false;
          })
          k)
unfolding sys_ipc_try_send message
sys_ipc_try_send-Sent envid value perm c k q out = at_cur _ _ k c q (
    send_value-Sent (λ x. x.ipc_recving) (λ k' c'. message value (k'.env c').id perm) envid perm c k
      q out)

-- With a current environment, `sys_send_return_value` without a page comes to an end. An
-- environment that waits for a result gets the value, as a message and as its return value, with
-- the sender's number and the permissions, waits no more, can run, and goes last in the queue;
-- nothing else changes. A number that denotes no environment is refused with E_BAD_ENV, and one
-- that does not wait with E_IPC_NOT_RECV; nothing changes then.
pub sys_send_return_value-Sent :
    (envid value perm c : ℕ) (k : Kernel)
    → k.cur ≡ some c
    → ((e : ℕ) → (k.env e).waiting_return_value ≡ true → has e k.sched_list ≡ false)
    → Returns (sys_send_return_value envid value 0 perm k) (
        Sent envid
          (λ x. x.waiting_return_value)
          (λ x. record x {
            ipc_value = value;
            ipc_from = (k.env c).id;
            ipc_perm = bit_or pte_v perm;
            ipc_recving = false;
            waiting_return_value = false;
            return_value = value;
          })
          k)
unfolding sys_send_return_value message
sys_send_return_value-Sent envid value perm c k q out = at_cur _ _ k c q (
    send_value-Sent (λ x. x.waiting_return_value)
      (λ k' c' x. record (message value (k'.env c').id perm x) {
        waiting_return_value = false;
        return_value = value;
      })
      envid perm c k q out)
