-- ===== src/Tests/Envs.antt =====
-- kern/env.c, kern/sched.c and kern/syscall_all.c with four environments.
use os_challenge_sudo_shell.Base.{
  ℕ, ◌+◌, ◌*◌, ◌≡◌, refl, true, false, bit_or, [], ◌∷◌, ◌++◌, some, ◌==◌, ltb, if◌then◌else◌,
  Returns, arith, ok, length, suc,
}
use os_challenge_sudo_shell.Memory.{Memory, pte_v}
use os_challenge_sudo_shell.Kernel.{Kernel, Env, env_free, runnable, not_runnable}
use os_challenge_sudo_shell.Process.{schedule, envid2env}
use os_challenge_sudo_shell.Process.Queues.{Sound, Waits, Scheduled, schedule-Returns}
use os_challenge_sudo_shell.Process.Ids.{Resolved, envid2env-Returns, envid_of-injective}
use os_challenge_sudo_shell.Syscall.Queues.{Steady}
use os_challenge_sudo_shell.Syscall.{sys_ipc_try_send, sys_ipc_recv}
use os_challenge_sudo_shell.Syscall.Messages.{Sent, sys_ipc_try_send-Sent}
use os_challenge_sudo_shell.Syscall.Waiting.{Stopped, sys_ipc_recv-Stopped}
use os_challenge_sudo_shell.Process.Turns.{Turn, yields, yields-Turn}

abbrev empty_memory : Memory
empty_memory = record {
  npage = 8;
  ref = λ p. if ltb p 4 then 0 else 1;
  free = 3 ∷ [];
  word = λ p i. 0;
  flushed = [];
}

-- Environments 0, 1 and 2 can run; 3 waits for a message, and is a child of 0.
abbrev some_env : ℕ → Env
some_env e = record {
  tf = record { reg = λ r. 0; status = 0; epc = 0 };
  id = 2048 * (e + 1) + e;
  asid = e;
  parent_id = if e == 3 then 2048 else 0;
  status = if ltb e 3 then runnable else (if e == 3 then not_runnable else env_free);
  pgdir = e + 4;
  pri = 1;
  ipc_value = 0;
  ipc_from = 0;
  ipc_recving = e == 3;
  ipc_dstva = 0;
  ipc_perm = 0;
  user_tlb_mod_entry = 0;
  runs = 0;
  waiting_return_value = false;
  return_value = 0;
}

abbrev machine : Kernel
machine = record {
  mem = empty_memory;
  env = some_env;
  free_list = 4 ∷ 5 ∷ [];
  sched_list = 0 ∷ 1 ∷ 2 ∷ [];
  cur = some 0;
  ktf = record { reg = λ r. 0; status = 0; epc = 0 };
  base_pgdir = 1;
  asid_bitmap = λ i. 0;
  made = 4;
  slices = 1;
}

machine-Sound : Sound machine
machine-Sound = record { once = ground arith; exact = λ e. ground arith }

machine-Waits : Waits machine
machine-Waits = record { blocked = λ e. ground arith; one = λ e. ground arith }

schedule-Returns_example : Returns (schedule true machine) (λ _ t. Scheduled machine t)
schedule-Returns_example = schedule-Returns true 1 machine machine-Sound refl

yields-Turn_example :
    Returns
      (yields (suc (length {A = ℕ} (1 ∷ []))) machine)
      (λ _ t. Turn 2 (2 ∷ [] ++ 0 ∷ 1 ∷ []) t)
yields-Turn_example =
    yields-Turn machine 0 2 (1 ∷ []) [] (record { sound = machine-Sound; now = refl; queue = refl })

-- The number of environment 3, which waits for a message, and of 1, which runs.
abbrev waiting_id : ℕ
waiting_id = 8195

envid2env-Returns_example :
    Returns (envid2env waiting_id true machine) (Resolved waiting_id true machine)
envid2env-Returns_example = envid2env-Returns waiting_id 0 true machine refl

sys_ipc_try_send-Sent_example : Returns (sys_ipc_try_send waiting_id 77 0 0 machine) (
    Sent waiting_id
      (λ x. x.ipc_recving)
      (λ x. record x {
        ipc_value = 77;
        ipc_from = 2048;
        ipc_perm = bit_or pte_v 0;
        ipc_recving = false;
      })
      machine)
sys_ipc_try_send-Sent_example =
    sys_ipc_try_send-Sent waiting_id 77 0 0 machine refl (λ e h. ground arith)

sys_ipc_recv-Stopped_example : Returns (sys_ipc_recv 0x400000 machine) (λ r t.
    (r ≡ ok tt)
    × Stopped 0
        (record (some_env 0) { ipc_recving = true; ipc_dstva = 0x400000; status = not_runnable })
        t
    × Steady t)
sys_ipc_recv-Stopped_example =
    sys_ipc_recv-Stopped 0x400000 0 1 machine (machine-Sound, machine-Waits) refl refl (omega arith)
      refl refl

-- Environment 3 waits for a result in place of a message.
abbrev other_wait : Kernel
other_wait = record machine {
  env = λ e. record (some_env e) { ipc_recving = false; waiting_return_value = e == 3 };
}

other_wait-Sound : Sound other_wait
other_wait-Sound = record { once = ground arith; exact = λ e. ground arith }

other_wait-Waits : Waits other_wait
other_wait-Waits = record { blocked = λ e. ground arith; one = λ e. ground arith }

envid_of-injective_example : (◌≡◌ {A = ℕ} 4 4) × (◌≡◌ {A = ℕ} 3 3)
envid_of-injective_example =
    envid_of-injective 4 4 3 3 (omega arith) (omega arith) (omega arith) (omega arith) refl
