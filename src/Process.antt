-- ===== src/Process.antt =====
-- kern/env.c and kern/sched.c: address space identifiers, environment numbers, and the life of an
-- environment from env_alloc to env_destroy, with the scheduler.
pub mod Queues
pub mod Ids
pub mod Destroy
pub mod Turns
pub mod Asids
use os_challenge_sudo_shell.Base.{
  ℕ, zero, suc, ◌+◌, ◌-◌, ◌*◌, ◌/◌, ◌%◌, ◌^◌, ◌≡◌, refl, Bool, true, false, not, ◌&&◌, ◌||◌, List,
  [], ◌∷◌, ◌++◌, Option, none, some, ltb, leb, ◌==◌, if◌then◌else◌, update, bit_or, Exec, Outcome,
  done, stop, Stop, fault, panic, pure, halt, modify, branch, attempt, panic_on, ensure, ◌>>=◌,
  ◌>>◌, Result, ok, err, e_no_free_env, e_bad_env,
}
use os_challenge_sudo_shell.Base.Bitmap.{Bitmap, test, mark, unmark}
use os_challenge_sudo_shell.Memory.{
  Memory, page_alloc, page_remove, page_decref, pa2page, page2pa, ppn, is_valid, load, store,
  set_ref, tlb_invalidate, pte_v,
}
use os_challenge_sudo_shell.Kernel.{
  Kernel, Env, Trapframe, Status, env_free, runnable, not_runnable, is_runnable, is_free, envx,
  on_memory, set_env, sched_remove, sched_insert_tail, sched_insert_head,
}

abbrev pub nasid : ℕ
nasid = 256

-- The loop of asid_alloc: the first of the `n` identifiers from `i` on that is not in use.
asid_scan : ℕ → ℕ → Bitmap → Option ℕ
asid_scan zero i b = none
asid_scan (suc n) i b = if test b i then asid_scan n (i + 1) b else some i

take_asid : Option ℕ → Exec Kernel (Result ℕ)
take_asid none k = done (err e_no_free_env, k)
take_asid (some i) k = done (ok i, record k { asid_bitmap = mark k.asid_bitmap i })

pub asid_alloc : Exec Kernel (Result ℕ)
asid_alloc k = take_asid (asid_scan nasid 0 k.asid_bitmap) k

pub asid_free : ℕ → Exec Kernel (Unit {0})
asid_free i = modify λ k. record k { asid_bitmap = unmark k.asid_bitmap i }

-- `((++i) << (1 + LOG2NENV)) | (e - envs)`, in 32 bits
pub envid_of : ℕ → ℕ → ℕ
envid_of i e = bit_or (i * 2 ^ 11 % 2 ^ 32) e

pub mkenvid : ℕ → Exec Kernel ℕ
mkenvid e k = let i = (k.made + 1) % 2 ^ 32 in done (envid_of i e, record k { made = i })

-- The checks of envid2env, for a call that a current environment makes; without one the model stops.
resolve : ℕ → Bool → Option ℕ → Exec Kernel (Result ℕ)
resolve envid checkperm none k = stop fault
resolve envid checkperm (some c) k =
    if envid == 0
    then done (ok c, k)
    else (if is_free (k.env (envx envid)).status || not ((k.env (envx envid)).id == envid)
        then done (err e_bad_env, k)
        else (if checkperm
              && (not ((k.env (envx envid)).id == (k.env c).id)
                  && not ((k.env (envx envid)).parent_id == (k.env c).id))
            then done (err e_bad_env, k)
            else done (ok (envx envid), k)))

pub envid2env : ℕ → Bool → Exec Kernel (Result ℕ)
envid2env envid checkperm k = resolve envid checkperm k.cur k

-- The words [PDX(UTOP), PDX(UVPT)) of the template, and the table's own page at PDX(UVPT).
dir_words : (ℕ → ℕ) → ℕ → ℕ → ℕ
dir_words template p i =
    if i == 511
    then bit_or (page2pa p) pte_v
    else (if leb 509 i && ltb i 511 then template i else 0)

pub env_setup_vm : ℕ → Exec Kernel (Result (Unit {0}))
env_setup_vm e = attempt (on_memory page_alloc) λ p. do
  on_memory (λ m. set_ref p ((m.ref p + 1) % 2 ^ 16) m)
  set_env e (λ x. record x { pgdir = p })
  modify (λ k. record k {
    mem = record k.mem { word = update k.mem.word p (dir_words (k.mem.word k.base_pgdir) p) };
  })
  pure (ok tt)

abbrev pub cp0_status : ℕ
cp0_status = 0x8013

-- USTACKTOP less the room for argc and argv
abbrev pub initial_sp : ℕ
initial_sp = 0x7f3fdff8

alloc_env : List ℕ → ℕ → Exec Kernel (Result ℕ)
alloc_env [] parent_id = pure (err e_no_free_env)
alloc_env (e ∷ rest) parent_id = attempt (env_setup_vm e) λ _. do
  set_env e (λ x. record x { user_tlb_mod_entry = 0; runs = 0 })
  attempt asid_alloc λ a. do
    set_env e (λ x. record x { asid = a })
    id ← mkenvid e
    set_env e (λ x. record x {
      id = id;
      parent_id = parent_id;
      tf = record { reg = update x.tf.reg 29 initial_sp; status = cp0_status; epc = x.tf.epc };
    })
    modify (λ k. record k { free_list = rest })
    pure (ok e)

pub env_alloc : ℕ → Exec Kernel (Result ℕ)
env_alloc parent_id k = alloc_env k.free_list parent_id k

-- The trap frame of the interrupted environment goes to its block.
pub save_context : Option ℕ → Kernel → ℕ → Env
save_context none k = k.env
save_context (some c) k = update k.env c (record (k.env c) { tf = k.ktf })

-- env_run, up to the return to user mode.
pub env_run : ℕ → Exec Kernel (Unit {0})
env_run e k =
    if is_runnable (k.env e).status
    then (let saved = save_context k.cur k in
        done (
          tt,
          record k {
            env = update saved e (record (saved e) { runs = ((saved e).runs + 1) % 2 ^ 32 });
            cur = some e;
          },
        ))
    else stop panic

cur_runnable : Option ℕ → Kernel → Bool
cur_runnable none k = false
cur_runnable (some c) k = is_runnable (k.env c).status

-- A current environment that can run on goes to the end of the queue.
requeue : Option ℕ → Exec Kernel (Unit {0})
requeue none k = done (tt, k)
requeue (some c) k =
    branch (is_runnable (k.env c).status) (sched_remove c >> sched_insert_tail c) (pure tt) k

-- `count--` on a 32-bit int
abbrev down : ℕ → ℕ
down n = (n + (2 ^ 32 - 1)) % 2 ^ 32

run_first : List ℕ → Exec Kernel (Unit {0})
run_first [] k = stop panic
run_first (e ∷ rest) k = env_run e (record k { slices = down (k.env e).pri })

run_on : Option ℕ → Exec Kernel (Unit {0})
run_on none k = stop panic
run_on (some e) k = env_run e (record k { slices = down k.slices })

pub schedule : Bool → Exec Kernel (Unit {0})
schedule yield k =
    branch (yield || (k.slices == 0 || not (cur_runnable k.cur k)))
      (requeue k.cur >> (λ k'. run_first k'.sched_list k')) (run_on k.cur) k

-- The inner loop of env_free, over the entries from `i` on of the table on page `pt`.
free_ptes : ℕ → ℕ → ℕ → ℕ → ℕ → ℕ → Exec Memory (Unit {0})
free_ptes zero i d asid pdeno pt = pure tt
free_ptes (suc n) i d asid pdeno pt = do
  v ← load (pt, i)
  branch (is_valid v) (page_remove d asid (bit_or (pdeno * 2 ^ 22) (i * 2 ^ 12))) (pure tt)
  free_ptes n (i + 1) d asid pdeno pt

abbrev pub uvpt : ℕ
uvpt = 0x7fc00000

free_table : ℕ → ℕ → ℕ → Exec Memory (Unit {0})
free_table d asid pdeno = do
  v ← load (d, pdeno)
  branch (is_valid v)
      (do
        pt ← pa2page v
        free_ptes 1024 0 d asid pdeno pt
        store (d, pdeno) 0
        page_decref pt
        tlb_invalidate asid (uvpt + pdeno * 2 ^ 12))
      (pure tt)

-- The outer loop of env_free, over the directory entries from `i` on.
free_tables : ℕ → ℕ → ℕ → ℕ → Exec Memory (Unit {0})
free_tables zero i d asid = pure tt
free_tables (suc n) i d asid = free_table d asid i >> free_tables n (i + 1) d asid

-- env_free up to its use of the lists. The page tables below UTOP are the first 509 of the directory.
free_space : ℕ → Exec Kernel (Unit {0})
free_space e k =
    (do
      on_memory (free_tables 509 0 (k.env e).pgdir (k.env e).asid)
      on_memory (page_decref (k.env e).pgdir)
      asid_free (k.env e).asid
      on_memory (tlb_invalidate (k.env e).asid (uvpt + 511 * 2 ^ 12)))
      k

-- The end of env_free. TAILQ_REMOVE comes with no test of the status that the environment had.
retire : ℕ → Exec Kernel (Unit {0})
retire e = do
  set_env e (λ x. record x { status = env_free })
  modify (λ k. record k { free_list = e ∷ k.free_list })
  sched_remove e

pub free_env : ℕ → Exec Kernel (Unit {0})
free_env e = free_space e >> retire e

is_cur : ℕ → Option ℕ → Bool
is_cur e none = false
is_cur e (some c) = e == c

-- `true` if the call returns; `schedule` does not.
pub env_destroy : ℕ → Exec Kernel Bool
env_destroy e = do
  free_env e
  (λ k.
      branch (is_cur e k.cur)
        (modify (λ k'. record k' { cur = none }) >> (schedule true >> pure false)) (pure true) k)
