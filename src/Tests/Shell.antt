-- ===== src/Tests/Shell.antt =====
-- The job table of kern/env.c with one job.
use os_challenge_sudo_shell.Base.{
  ℕ, ◌≡◌, refl, true, List, [], ◌∷◌, some, suc, ◌+◌, ◌≤◌, length, arith, Returns,
}
use os_challenge_sudo_shell.Jobs.{Job, env_create_job, env_fg_job}
use os_challenge_sudo_shell.Jobs.Table.{Numbered, env_create_job-Numbered}

abbrev jobs : List Job
jobs = record { job_id = 1; running = true; envid = 2048; cmd = 108 ∷ 115 ∷ [] } ∷ []

env_create_job-Numbered_example : Returns (env_create_job 4097 (120 ∷ []) jobs) (λ _ js.
    Numbered 1 js
    × (length js ≡ suc (length jobs))
    × (env_fg_job (1 + length jobs) js ≡ some 4097)
    × ((m : ℕ) → m ≤ length jobs → env_fg_job m js ≡ env_fg_job m jobs))
env_create_job-Numbered_example =
    env_create_job-Numbered 4097 (120 ∷ []) jobs (omega arith) (omega arith) (refl, tt)
