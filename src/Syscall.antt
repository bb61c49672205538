-- ===== src/Syscall.antt =====
-- The system calls of kern/syscall_all.c on memory, environments and messages.
pub mod Queues
pub mod Waking
pub mod Messages
pub mod Waiting
pub mod Devices
pub mod Accesses
use os_challenge_sudo_shell.Base.{
  ℕ, zero, suc, ◌+◌, ◌-◌, ◌*◌, ◌/◌, ◌%◌, ◌^◌, ◌≡◌, refl, Bool, true, false, not, ◌&&◌, ◌||◌, List,
  [], ◌∷◌, ◌++◌, Option, none, some, ltb, leb, ◌==◌, if◌then◌else◌, update, bit_or, Exec, Outcome,
  done, stop, Stop, fault, panic, pure, halt, modify, branch, attempt, panic_on, ensure, ◌>>=◌,
  ◌>>◌, Result, ok, err, e_inval, e_ipc_not_recv,
}
use os_challenge_sudo_shell.Memory.{
  Memory, page_alloc, page_insert, page_lookup, page_remove, utop, utemp, pte_v,
}
use os_challenge_sudo_shell.Kernel.{
  Kernel, Env, Trapframe, Status, env_free, runnable, not_runnable, is_runnable, envx, on_memory,
  set_env, sched_remove, sched_insert_tail,
}
use os_challenge_sudo_shell.Process.{envid2env, env_alloc, env_destroy, schedule}

abbrev pub is_illegal_va : ℕ → Bool
is_illegal_va va = ltb va utemp || leb utop va

-- `va + len` in 32 bits
abbrev pub is_illegal_va_range : ℕ → ℕ → Bool
is_illegal_va_range va len =
    if len == 0
    then false
    else ltb ((va + len) % 2 ^ 32) va || (ltb va utemp || ltb utop ((va + len) % 2 ^ 32))

-- What a call reads through `curenv`; the pointer is null before the first environment runs.
abbrev from_cur : {A : Type 0} → Option ℕ → (ℕ → Exec Kernel A) → Exec Kernel A
from_cur none f k = stop fault
from_cur (some c) f k = f c k

abbrev pub with_cur : {A : Type 0} → (ℕ → Exec Kernel A) → Exec Kernel A
with_cur f k = from_cur k.cur f k

pub sys_getenvid : Exec Kernel ℕ
sys_getenvid = with_cur λ c. λ k. done ((k.env c).id, k)

pub sys_yield : Exec Kernel (Unit {0})
sys_yield = schedule true

pub sys_env_destroy : ℕ → Exec Kernel (Result (Unit {0}))
sys_env_destroy envid = attempt (envid2env envid true) λ e. do back ← env_destroy e; pure (ok tt)

pub sys_set_tlb_mod_entry : ℕ → ℕ → Exec Kernel (Result (Unit {0}))
sys_set_tlb_mod_entry envid func =
    attempt (envid2env envid true)
      λ e. do set_env e (λ x. record x { user_tlb_mod_entry = func }); pure (ok tt)

insert_in : ℕ → ℕ → ℕ → ℕ → Exec Kernel (Result (Unit {0}))
insert_in e p va perm k = on_memory (page_insert (k.env e).pgdir (k.env e).asid p va perm) k

pub sys_mem_alloc : ℕ → ℕ → ℕ → Exec Kernel (Result (Unit {0}))
sys_mem_alloc envid va perm =
    branch (is_illegal_va va) (pure (err e_inval)) (
      attempt (envid2env envid true) λ e. attempt (on_memory page_alloc) λ p. insert_in e p va perm)

-- page_lookup in an environment's address space, with a null answer as -E_INVAL.
lookup_in : ℕ → ℕ → Exec Kernel (Result ℕ)
lookup_in e va k =
    (do
      found ← on_memory (page_lookup (k.env e).pgdir va)
      pure (elim found [ none ↦ err e_inval | some (p, s) ↦ ok p ]))
      k

pub sys_mem_map : ℕ → ℕ → ℕ → ℕ → ℕ → Exec Kernel (Result (Unit {0}))
sys_mem_map srcid srcva dstid dstva perm =
    branch (is_illegal_va srcva || is_illegal_va dstva) (pure (err e_inval)) (
      attempt (envid2env srcid true) λ src.
        attempt (envid2env dstid true)
          λ dst. attempt (lookup_in src srcva) λ p. insert_in dst p dstva perm)

pub sys_mem_unmap : ℕ → ℕ → Exec Kernel (Result (Unit {0}))
sys_mem_unmap envid va = branch (is_illegal_va va) (pure (err e_inval)) (
    attempt (envid2env envid true)
      λ e. do (λ k. on_memory (page_remove (k.env e).pgdir (k.env e).asid va) k); pure (ok tt))

-- The new environment's number is the parent's result; the child resumes with 0 in v0.
pub sys_exofork : Exec Kernel (Result ℕ)
sys_exofork = with_cur λ c. λ k.
    attempt (env_alloc (k.env c).id)
      (λ e. do
        (λ k.
            set_env e
              (λ x. record x {
                tf = record k.ktf { reg = update k.ktf.reg 2 0 };
                status = not_runnable;
                pri = (k.env c).pri;
              })
              k)
        (λ k. done (ok (k.env e).id, k)))
      k

-- env_status as the call passes it: ENV_RUNNABLE is 1, ENV_NOT_RUNNABLE 2.
status_of : ℕ → Option Status
status_of n = if n == 1 then some runnable else (if n == 2 then some not_runnable else none)

abbrev same_status : Status → Status → Bool
same_status env_free env_free = true
same_status runnable runnable = true
same_status not_runnable not_runnable = true
same_status _ _ = false

-- The queue follows the change.
move_queue : ℕ → Status → Exec Kernel (Unit {0})
move_queue e runnable = sched_insert_tail e
move_queue e not_runnable = sched_remove e
move_queue e env_free = sched_remove e

change_status : ℕ → Status → Exec Kernel (Unit {0})
change_status e s k =
    (branch (same_status (k.env e).status s) (pure tt) (move_queue e s)
        >> set_env e (λ x. record x { status = s }))
      k

set_status : ℕ → Option Status → Exec Kernel (Result (Unit {0}))
set_status envid none = pure (err e_inval)
set_status envid (some s) = attempt (envid2env envid true) λ e. change_status e s >> pure (ok tt)

pub sys_set_env_status : ℕ → ℕ → Exec Kernel (Result (Unit {0}))
sys_set_env_status envid n = set_status envid (status_of n)

-- sizeof(struct Trapframe)
abbrev pub trapframe_size : ℕ
trapframe_size = 152

-- sys_set_trapframe of the frame `tf` at the address `va`. The frame of the current environment is the
-- saved one, whose v0 is the result.
pub sys_set_trapframe : ℕ → ℕ → Trapframe → Exec Kernel (Result ℕ)
sys_set_trapframe envid va tf =
    branch (is_illegal_va_range va trapframe_size) (pure (err e_inval)) (
      attempt (envid2env envid true) λ e. with_cur λ c.
        branch (e == c) (modify (λ k. record k { ktf = tf }) >> pure (ok (tf.reg 2)))
          (set_env e (λ x. record x { tf = tf }) >> pure (ok 0)))

-- Environment `c` stops running, with 0 for its result when it resumes.
pub stop_running : (Env → Env) → ℕ → Exec Kernel (Unit {0})
stop_running note c = do
  set_env c (λ x. record (note x) { status = not_runnable })
  sched_remove c
  modify (λ k. record k { ktf = record k.ktf { reg = update k.ktf.reg 2 0 } })
  schedule true

block : (Env → Env) → Exec Kernel (Unit {0})
block note = with_cur (stop_running note)

pub sys_ipc_recv : ℕ → Exec Kernel (Result (Unit {0}))
sys_ipc_recv dstva =
    branch (not (dstva == 0) && is_illegal_va dstva) (pure (err e_inval))
      (block (λ x. record x { ipc_recving = true; ipc_dstva = dstva }) >> pure (ok tt))

pub sys_recv_return_value : Exec Kernel (Unit {0})
sys_recv_return_value = block (λ x. record x { waiting_return_value = true })

-- A message is in the receiver's block; then the receiver runs and gets the sender's page, if any.
wake : ℕ → Exec Kernel (Unit {0})
wake e = set_env e (λ x. record x { status = runnable }) >> sched_insert_tail e

deliver_page : ℕ → ℕ → ℕ → ℕ → Exec Kernel (Result (Unit {0}))
deliver_page c e srcva perm =
    branch (srcva == 0) (pure (ok tt))
      (attempt (lookup_in c srcva) λ p. λ k. insert_in e p (k.env e).ipc_dstva perm k)

pub message : ℕ → ℕ → ℕ → Env → Env
message value from perm x = record x {
  ipc_value = value;
  ipc_from = from;
  ipc_perm = bit_or pte_v perm;
  ipc_recving = false;
}

pub sys_ipc_try_send : ℕ → ℕ → ℕ → ℕ → Exec Kernel (Result (Unit {0}))
sys_ipc_try_send envid value srcva perm =
    branch (not (srcva == 0) && is_illegal_va srcva) (pure (err e_inval)) (
      with_cur λ c. attempt (envid2env envid false) λ e. λ k.
        branch (k.env e).ipc_recving
          (set_env e (message value (k.env c).id perm) >> (wake e >> deliver_page c e srcva perm))
          (pure (err e_ipc_not_recv)) k)

pub sys_send_return_value : ℕ → ℕ → ℕ → ℕ → Exec Kernel (Result (Unit {0}))
sys_send_return_value envid value srcva perm =
    branch (not (srcva == 0) && is_illegal_va srcva) (pure (err e_inval)) (
      with_cur λ c. attempt (envid2env envid false) λ e. λ k.
        branch (k.env e).waiting_return_value
          (set_env e (λ x. record (message value (k.env c).id perm x) {
            waiting_return_value = false;
            return_value = value;
          })
            >> (wake e >> deliver_page c e srcva perm))
          (pure (err e_ipc_not_recv)) k)
