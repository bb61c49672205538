-- ===== src/Kernel.antt =====
-- The state of the kernel: include/env.h with the global variables of kern/env.c and kern/sched.c.
use os_challenge_sudo_shell.Base.{
  ℕ, ◌%◌, Bool, true, false, List, [], ◌∷◌, ◌++◌, Option, if◌then◌else◌, update, Exec, Outcome,
  done, stop, tangle, modify, has, delete,
}
use os_challenge_sudo_shell.Base.Bitmap.{Bitmap}
use os_challenge_sudo_shell.Memory.{Memory}

-- env_status
pub data Status : Type 0 where
  env_free runnable not_runnable : Status

abbrev pub is_runnable : Status → Bool
is_runnable runnable = true
is_runnable _ = false

abbrev pub is_free : Status → Bool
is_free env_free = true
is_free _ = false

-- The part of a trap frame that the kernel names; `reg 2` is v0 and `reg 29` the stack pointer.
pub record Trapframe : Type 0 where
  pub reg : ℕ → ℕ
  pub status : ℕ
  pub epc : ℕ

-- The two links of an environment are in the lists of `Kernel`.
pub record Env : Type 0 where
  pub tf : Trapframe
  pub id : ℕ
  pub asid : ℕ
  pub parent_id : ℕ
  pub status : Status
  pub pgdir : ℕ
  pub pri : ℕ
  pub ipc_value : ℕ
  pub ipc_from : ℕ
  pub ipc_recving : Bool
  pub ipc_dstva : ℕ
  pub ipc_perm : ℕ
  pub user_tlb_mod_entry : ℕ
  pub runs : ℕ
  pub waiting_return_value : Bool
  pub return_value : ℕ

pub record Kernel : Type 0 where
  pub mem : Memory
  -- envs[NENV]
  pub env : ℕ → Env
  pub free_list : List ℕ
  pub sched_list : List ℕ
  -- curenv
  pub cur : Option ℕ
  -- the trap frame below KSTACKTOP
  pub ktf : Trapframe
  pub base_pgdir : ℕ
  pub asid_bitmap : Bitmap
  -- the static variable of mkenvid
  pub made : ℕ
  -- the static variable of schedule
  pub slices : ℕ

abbrev pub nenv : ℕ
nenv = 1024

-- ENVX
abbrev pub envx : ℕ → ℕ
envx envid = envid % 1024

-- An operation on pages, in the kernel's state.
abbrev pub in_kernel : {A : Type 0} → Kernel → Outcome (A × Memory) → Outcome (A × Kernel)
in_kernel k (done (a, m)) = done (a, record k { mem = m })
in_kernel k (stop w) = stop w

abbrev pub on_memory : {A : Type 0} → Exec Memory A → Exec Kernel A
on_memory f k = in_kernel k (f k.mem)

abbrev pub set_env : ℕ → (Env → Env) → Exec Kernel (Unit {0})
set_env e f = modify λ k. record k { env = update k.env e (f (k.env e)) }

-- TAILQ_REMOVE and TAILQ_INSERT_TAIL on env_sched_list. They write through the links in the element and
-- in its neighbours. On an element that is not queued, or is queued already, the code goes on with links
-- that are no list any more; the model ends there, with `tangle`.
unfoldable pub sched_remove : ℕ → Exec Kernel (Unit {0})
sched_remove e k =
    if has e k.sched_list
    then done (tt, record k { sched_list = delete e k.sched_list })
    else stop tangle

abbrev pub sched_insert_head : ℕ → Exec Kernel (Unit {0})
sched_insert_head e k =
    if has e k.sched_list
    then stop tangle
    else done (tt, record k { sched_list = e ∷ k.sched_list })

unfoldable pub sched_insert_tail : ℕ → Exec Kernel (Unit {0})
sched_insert_tail e k =
    if has e k.sched_list
    then stop tangle
    else done (tt, record k { sched_list = k.sched_list ++ e ∷ [] })
