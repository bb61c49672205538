-- ===== src/Process/Destroy.antt =====
-- The end of an environment: env_free and env_destroy of kern/env.c.
use os_challenge_sudo_shell.Base.{
  ℕ, ◌+◌, ◌*◌, ◌^◌, ◌≡◌, refl, ◌≢◌, true, false, ◌∷◌, none, update, Outcome, done, stop, pure,
  arith, Holds, Holds-bind, Holds-weaken, Bool-cases, has-delete_ne, has-delete_self,
  delete-Distinct, inl, inr,
}
use os_challenge_sudo_shell.Base.Bitmap.{unmark}
use os_challenge_sudo_shell.Memory.{Memory, page_decref, tlb_invalidate}
use os_challenge_sudo_shell.Kernel.{Kernel, env_free, on_memory, in_kernel, sched_remove}
use os_challenge_sudo_shell.Process.Queues.{
  Sound, SameRole, SameRoles, schedule-Scheduled, sched_remove-Holds, same_role,
}
use os_challenge_sudo_shell.Process.{
  free_space, retire, free_env, free_tables, env_destroy, asid_free, is_cur, schedule, uvpt,
}

in_kernel-SameRoles :
    {A : Type 0} (k t : Kernel) (o : Outcome (A × Memory))
    → SameRoles k t
    → Holds (in_kernel t o) (λ _ u. SameRoles k u)
in_kernel-SameRoles k t (done (a, m)) s = record { role = s.role; queue = s.queue }
in_kernel-SameRoles k t (stop w) s = tt

free_space-SameRoles : (e : ℕ) (k : Kernel) → Holds (free_space e k) (λ _ t. SameRoles k t)
unfolding free_space asid_free
free_space-SameRoles e k =
    Holds-bind (λ _ t. SameRoles k t) _ (on_memory (free_tables 509 0 d a)) _ k
      (in_kernel-SameRoles k k (free_tables 509 0 d a k.mem)
        (record { role = λ x. same_role (k.env x); queue = refl }))
      λ x t s.
        Holds-bind (λ _ u. SameRoles k u) _ (on_memory (page_decref d)) _ t
          (in_kernel-SameRoles k t (page_decref d t.mem) s)
          λ y u r.
            in_kernel-SameRoles k (record u { asid_bitmap = unmark u.asid_bitmap a })
              (tlb_invalidate a (uvpt + 511 * 2 ^ 12) u.mem)
              (record { role = r.role; queue = r.queue })
  where
    d : ℕ
    d = (k.env e).pgdir

    a : ℕ
    a = (k.env e).asid

-- A queued one leaves the queue, and the others stay as they are.
pub free_env-Sound :
    (e : ℕ) (k : Kernel)
    → Sound k
    → Holds (free_env e k) (λ _ t.
      Sound t × ((t.env e).status ≡ env_free) × ((x : ℕ) → e ≢ x → SameRole (t.env x) (k.env x)))
unfolding free_env retire
free_env-Sound e k v =
    Holds-bind (λ _ t. SameRoles k t) _ (free_space e) _ k (free_space-SameRoles e k)
      λ x t s.
        let u : Kernel = record t {
          env = update t.env e (record (t.env e) { status = env_free });
          free_list = e ∷ t.free_list;
        } in
        Holds-weaken _ _ (sched_remove e u) (sched_remove-Holds e u) λ y w r. (
          record {
            once = rw (r.1, s.queue) (delete-Distinct e k.sched_list v.once);
            exact = λ z.
                rw (r.1, s.queue)
                  (ground (
                    arith,
                    v.exact z,
                    s.role z,
                    has-delete_ne e z k.sched_list,
                    has-delete_self e k.sched_list v.once,
                  ));
          },
          rw r.1 (ground arith),
          λ z n. rw r.1 (ground (arith, s.role z)),
        )

-- `env_destroy` keeps the queue sound, whichever environment it is called for.
pub env_destroy-Sound : (e : ℕ) (k : Kernel) → Sound k → Holds (env_destroy e k) (λ _ t. Sound t)
unfolding env_destroy
env_destroy-Sound e k v = Holds-bind _ _ (free_env e) _ k (free_env-Sound e k v) λ x t h.
    elim (Bool-cases (is_cur e t.cur)) [
      | inr n ↦ rw n h.0
      | inl y ↦
          let u : Kernel = record t { cur = none } in
          rw y (
            Holds-bind _ _ (schedule true) (λ _. pure false) u
              (schedule-Scheduled true u (record { once = h.0.once; exact = h.0.exact }))
              λ z w r. r.sound)
    ]
