-- ===== src/Jobs/Table.antt =====
-- The numbers of the jobs in kern/env.c: env_create_job, env_set_job_done and env_fg_job.
use os_challenge_sudo_shell.Base.{
  ℕ, suc, ◌+◌, ◌≤◌, ◌<◌, ◌≡◌, refl, ap, ◌∙◌, Bool, true, false, List, [], ◌∷◌, ◌++◌, Option, none,
  some, ◌==◌, if◌then◌else◌, length, length-append, Returns, arith, lt→ltb,
}
use os_challenge_sudo_shell.Jobs.{
  Job, find_job, env_create_job, env_set_job_done, env_fg_job, found_envid, max_jobs, max_cmd,
}

-- The jobs are numbered in their order, from `n` on.
abbrev pub Numbered : ℕ → List Job → Type 0
Numbered n [] = Unit {0}
Numbered n (j ∷ js) = (j.job_id ≡ n) × Numbered (suc n) js

snoc-Numbered :
    (n : ℕ) (js : List Job) (j : Job)
    → Numbered n js
    → j.job_id ≡ n + length js
    → Numbered n (js ++ j ∷ [])
snoc-Numbered n [] j u e = (omega (arith, e), tt)
snoc-Numbered n (x ∷ js) j (e, u) h = (e, snoc-Numbered (suc n) js j u (omega (arith, h)))

-- A job that is added is found by its number, and hides no other.
find_job-new :
    (n : ℕ) (js : List Job) (j : Job)
    → Numbered n js
    → j.job_id ≡ n + length js
    → find_job (n + length js) (js ++ j ∷ []) ≡ some j
unfolding find_job
find_job-new n [] j u e = ground (arith, e)
find_job-new n (x ∷ js) j (e, u) h =
    let q : n + length (x ∷ js) ≡ suc n + length js = omega arith in
    let r : j.job_id ≡ suc n + length js = h ∙ q in ground (arith, find_job-new (suc n) js j u r, q)

find_job-old :
    (n m : ℕ) (js : List Job) (j : Job)
    → j.job_id ≡ n + length js
    → m < n + length js
    → find_job m (js ++ j ∷ []) ≡ find_job m js
unfolding find_job
find_job-old n m [] j e h = ground arith
find_job-old n m (x ∷ js) j e h =
    ground (arith, find_job-old (suc n) m js j (omega (arith, e)) (omega (arith, h)))

-- In a table whose jobs are numbered from 1 in their order, with room for one more, and for a text
-- that fits, `env_create_job` comes to an end: the jobs are numbered so again and are one more,
-- `env_fg_job` finds the new environment under the next number, and finds under every smaller
-- number what it found before.
pub env_create_job-Numbered :
    (envid : ℕ) (cmd : List ℕ) (jobs : List Job)
    → length jobs < max_jobs
    → length cmd < max_cmd
    → Numbered 1 jobs
    → Returns (env_create_job envid cmd jobs) (λ _ js.
      Numbered 1 js
      × (length js ≡ suc (length jobs))
      × (env_fg_job (1 + length jobs) js ≡ some envid)
      × ((m : ℕ) → m ≤ length jobs → env_fg_job m js ≡ env_fg_job m jobs))
unfolding env_create_job env_fg_job
env_create_job-Numbered envid cmd jobs h k u =
    let j : Job = record { job_id = length jobs + 1; running = true; envid = envid; cmd = cmd } in
    let e : j.job_id ≡ 1 + length jobs = omega arith in
    let f : find_job (1 + length jobs) (jobs ++ j ∷ []) ≡ some j = find_job-new 1 jobs j u e in
    rw (lt→ltb _ _ h, lt→ltb _ _ k)
      (
        snoc-Numbered 1 jobs j u e,
        omega (arith, length-append jobs (j ∷ [])),
        ap found_envid f,
        λ m l. ap found_envid (find_job-old 1 m jobs j e (omega (arith, l))),
      )

set_done-find :
    (envid m : ℕ) (js : List Job) → env_fg_job m (env_set_job_done envid js) ≡ env_fg_job m js
unfolding env_set_job_done env_fg_job find_job
set_done-find envid m [] = refl
set_done-find envid m (j ∷ js) = ground (arith, set_done-find envid m js)

-- Whether the first job of an environment runs; `none` if it has no job.
pub runs_at : ℕ → List Job → Option Bool
runs_at e [] = none
runs_at e (j ∷ js) = if j.envid == e then some j.running else runs_at e js

pub stopped : Option Bool → Option Bool
stopped none = none
stopped (some b) = some false

set_done-runs_at :
    (envid e : ℕ) (js : List Job)
    → runs_at e (env_set_job_done envid js)
      ≡ (if e == envid then stopped (runs_at e js) else runs_at e js)
unfolding env_set_job_done runs_at stopped
set_done-runs_at envid e [] = ground arith
set_done-runs_at envid e (j ∷ js) = ground (arith, set_done-runs_at envid e js)

set_done-Numbered :
    (envid n : ℕ) (js : List Job) → Numbered n js → Numbered n (env_set_job_done envid js)
unfolding env_set_job_done
set_done-Numbered envid n [] u = tt
set_done-Numbered envid n (j ∷ js) (e, u) =
    ground (arith, e, u, set_done-Numbered envid (suc n) js u)

-- In a table whose jobs are numbered in their order, `env_set_job_done` keeps the numbers and what
-- `env_fg_job` finds under each; the first job of the environment, if there is one, does not run
-- any more, and whether the first job of any other runs is as before.
pub env_set_job_done-Numbered :
    (envid n : ℕ) (js : List Job)
    → Numbered n js
    → Numbered n (env_set_job_done envid js)
      × ((m : ℕ) → env_fg_job m (env_set_job_done envid js) ≡ env_fg_job m js)
      × ((e : ℕ)
          → runs_at e (env_set_job_done envid js)
            ≡ (if e == envid then stopped (runs_at e js) else runs_at e js))
env_set_job_done-Numbered envid n js u = (
  set_done-Numbered envid n js u,
  λ m. set_done-find envid m js,
  λ e. set_done-runs_at envid e js,
)
