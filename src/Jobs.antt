-- ===== src/Jobs.antt =====
-- The job table of the shell challenge in kern/env.c.
pub mod Table
use os_challenge_sudo_shell.Base.{
  ℕ, ◌+◌, Bool, true, false, List, [], ◌∷◌, ◌++◌, Option, none, some, ltb, ◌==◌, if◌then◌else◌,
  length, ◌&&◌, Outcome, done, stop, fault, Exec, pure, branch, ◌>>=◌,
}
use os_challenge_sudo_shell.Kernel.{Kernel, is_runnable, envx}
use os_challenge_sudo_shell.Process.{env_destroy}

-- struct Job. `cmd` is the text before the terminating zero.
pub record Job : Type 0 where
  pub job_id : ℕ
  pub running : Bool
  pub envid : ℕ
  pub cmd : List ℕ

abbrev pub max_jobs : ℕ
max_jobs = 32

abbrev pub max_cmd : ℕ
max_cmd = 1024

-- The first jobCnt entries of `jobs`. The code checks neither the room in the table nor the length of
-- the text: past either it writes over other memory.
pub env_create_job : ℕ → List ℕ → List Job → Outcome (Unit {0} × List Job)
env_create_job envid cmd jobs =
    if ltb (length jobs) max_jobs && ltb (length cmd) max_cmd
    then done (
      tt,
      jobs ++ record { job_id = length jobs + 1; running = true; envid = envid; cmd = cmd } ∷ [],
    )
    else stop fault

-- env_set_job_done: the first entry of the environment.
pub env_set_job_done : ℕ → List Job → List Job
env_set_job_done envid [] = []
env_set_job_done envid (j ∷ js) =
    if j.envid == envid then record j { running = false } ∷ js else j ∷ env_set_job_done envid js

pub find_job : ℕ → List Job → Option Job
find_job n [] = none
find_job n (j ∷ js) = if j.job_id == n then some j else find_job n js

-- env_fg_job; `none` is -1.
abbrev pub found_envid : Option Job → Option ℕ
found_envid none = none
found_envid (some j) = some j.envid

pub env_fg_job : ℕ → List Job → Option ℕ
env_fg_job n jobs = found_envid (find_job n jobs)

pub finish_job : ℕ → List Job → List Job
finish_job n [] = []
finish_job n (j ∷ js) =
    if j.job_id == n then record j { running = false } ∷ js else j ∷ finish_job n js

-- env_kill_job: an environment that can run is destroyed, whether it still is the job's or not. The
-- job is marked if that call returns.
kill_found : ℕ → Option Job → List Job → Exec Kernel (List Job)
kill_found n none jobs k = done (jobs, k)
kill_found n (some j) jobs k =
    branch (is_runnable (k.env (envx j.envid)).status)
      (env_destroy (envx j.envid) >>= λ back. pure (if back then finish_job n jobs else jobs))
      (pure jobs) k

pub env_kill_job : ℕ → List Job → Exec Kernel (List Job)
env_kill_job n jobs = kill_found n (find_job n jobs) jobs
