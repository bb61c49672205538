-- ===== src/Syscall/Waiting.antt =====
-- An environment that waits: sys_ipc_recv and sys_recv_return_value of kern/syscall_all.c.
use os_challenge_sudo_shell.Base.{
  ℕ, ◌≡◌, refl, sym, ap, ◌∙◌, ◌≢◌, true, false, not, ◌&&◌, some, subst, ◌==◌, update, Exec, pure,
  arith, Result, ok, Returns, Returns-bind, Returns-weaken, has, delete,
}
use os_challenge_sudo_shell.Kernel.{Kernel, Env, not_runnable, is_runnable, sched_remove}
use os_challenge_sudo_shell.Process.{schedule}
use os_challenge_sudo_shell.Process.Queues.{SameRole, Scheduled, schedule-Returns}
use os_challenge_sudo_shell.Syscall.Queues.{Steady, IsNote, stopped-Steady, Waits-role}
use os_challenge_sudo_shell.Syscall.{
  sys_ipc_recv, sys_recv_return_value, stop_running, block, from_cur, with_cur, is_illegal_va,
}

abbrev done_ok : Exec Kernel (Result (Unit {0}))
done_ok = pure (ok tt)

-- Environment `c` has the roles of the block `x`, is not queued, and another one runs.
abbrev pub Stopped : ℕ → Env → Kernel → Type 0
Stopped c x t =
    SameRole (t.env c) x × (has c t.sched_list ≡ false) × ((e : ℕ) × (t.cur ≡ some e) × (e ≢ c))

-- The caller's block once it has stopped.
abbrev marked : (Env → Env) → ℕ → Kernel → Env
marked note c k = record (note (k.env c)) { status = not_runnable }

abbrev Left : (Env → Env) → ℕ → Kernel → Unit {0} → Kernel → Type 0
Left note c k u t = Stopped c (marked note c k) t × Steady t

sched_remove-Returns :
    (e : ℕ) (k : Kernel)
    → has e k.sched_list ≡ true
    → Returns (sched_remove e k) (λ _ t. t ≡ record k { sched_list = delete e k.sched_list })
unfolding sched_remove
sched_remove-Returns e k h = rw h refl

module _ (note : Env → Env) (c x : ℕ) (k : Kernel) (i : IsNote note) (v : Steady k)
    (run : is_runnable (k.env c).status ≡ true) (ne : x ≢ c)
    (next : is_runnable (k.env x).status ≡ true) where
  stop_running-Stopped :
      Returns (stop_running note c k) (λ _ t. Stopped c (marked note c k) t × Steady t)
  unfolding stop_running
  stop_running-Stopped =
      Returns-bind (λ _ t. t ≡ record k' { sched_list = delete c k.sched_list }) _ (sched_remove c)
        _ k' (sched_remove-Returns c k' queued)
        λ y t q.
          let u : Kernel = record t { ktf = record t.ktf { reg = update t.ktf.reg 2 0 } } in
          let s : Steady u =
            stopped-Steady note c k u i v queued (ap (λ z. z.sched_list) q) (ap (λ z. z.env) q) in
          let e : t.env ≡ k'.env = ap (λ z. z.env) q in
          let m : u.env c ≡ marked note c k = ap (λ g. g c) e ∙ ground arith in
          Returns-weaken (λ _ w. Scheduled u w) _ (schedule true u)
            (schedule-Returns true x u s.0 (rw e (ground (arith, next, ne))))
            λ z w r.
              let same : SameRole (w.env c) (marked note c k) =
                subst (λ b. SameRole (w.env c) b) m (r.role c) in
              let off : is_runnable (w.env c).status ≡ false = ap is_runnable same.status in
              (
                (
                  same,
                  r.sound.exact c ∙ off,
                  (r.running.0, r.running.1, λ q'. ground (arith, r.running.2)),
                ),
                (r.sound, Waits-role u w r.role s.1),
              )
    where
      k' : Kernel
      k' = record k { env = update k.env c (record (note (k.env c)) { status = not_runnable }) }

      queued : has c k.sched_list ≡ true
      queued = v.0.exact c ∙ run

-- In a kernel whose queue and waiting states are in step, where the current environment and another
-- one can run, `sys_ipc_recv` at address zero or a legal one comes to an end: the caller is not
-- runnable, is marked as waiting for a message and for nothing else, is not in the queue, another
-- environment is the current one, and queue and waiting states are in step.
pub sys_ipc_recv-Stopped :
    (dstva c x : ℕ) (k : Kernel)
    → Steady k
    → k.cur ≡ some c
    → is_runnable (k.env c).status ≡ true
    → x ≢ c
    → is_runnable (k.env x).status ≡ true
    → (not (dstva == 0) && is_illegal_va dstva) ≡ false
    → Returns (sys_ipc_recv dstva k) (λ r t.
      (r ≡ ok tt)
      × Stopped c
          (record (k.env c) { ipc_recving = true; ipc_dstva = dstva; status = not_runnable })
          t
      × Steady t)
unfolding sys_ipc_recv block
sys_ipc_recv-Stopped dstva c x k v q run ne next legal = rw legal (
    Returns-bind
      (λ _ t.
        Stopped c
          (record (k.env c) { ipc_recving = true; ipc_dstva = dstva; status = not_runnable }) t
        × Steady t)
      _ (with_cur (stop_running note)) (λ _. done_ok) k
      (subst (λ o. Returns (from_cur o (stop_running note) k) (Left note c k)) (sym q)
        (stop_running-Stopped note c x k (λ y a b. ground arith) v run ne next))
      λ z t h. (refl, h.0, h.1))
  where
    note : Env → Env
    note y = record y { ipc_recving = true; ipc_dstva = dstva }

-- In a kernel whose queue and waiting states are in step, where the current environment and another
-- one can run, `sys_recv_return_value` comes to an end: the caller is not runnable, is marked as
-- waiting for a result and for nothing else, is not in the queue, another environment is the
-- current one, and queue and waiting states are in step.
pub sys_recv_return_value-Stopped :
    (c x : ℕ) (k : Kernel)
    → Steady k
    → k.cur ≡ some c
    → is_runnable (k.env c).status ≡ true
    → x ≢ c
    → is_runnable (k.env x).status ≡ true
    → Returns (sys_recv_return_value k) (λ _ t.
      Stopped c (record (k.env c) { waiting_return_value = true; status = not_runnable }) t
      × Steady t)
unfolding sys_recv_return_value block
sys_recv_return_value-Stopped c x k v q run ne next =
    subst (λ o. Returns (from_cur o (stop_running note) k) (Left note c k)) (sym q)
      (stop_running-Stopped note c x k (λ y a b. ground arith) v run ne next)
  where
    note : Env → Env
    note y = record y { waiting_return_value = true }
