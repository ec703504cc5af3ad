-- ===== src/Jobs/Tests.antt =====
-- Every job puts the next one into the queue.
use lighttpd.Prelude.{ℕ, ◌+◌, ◌≡◌, refl, false, List, [], ◌∷◌, ◌++◌, ◌==◌, ◌||◌}
use lighttpd.Jobs.Defs.{JobQueue, job_later, job_now, run_todo, job_queue_run, job_queue_prepare}
use lighttpd.Jobs.Liveness.{IsAwake, job_later-IsAdding, job_queue_prepare-IsAwake}

abbrev next_job : ℕ → JobQueue → JobQueue
next_job j = job_later (j + 10)

abbrev two_jobs : JobQueue
two_jobs = record {
  generation = 4294967295;
  jobs = 1 ∷ 2 ∷ [];
  job_generation = λ i. 0;
  linked = λ i. i == 1 || i == 2;
  timer = false;
}

job_queue_prepare-IsAwake_example :
    ((more : List ℕ) × ((job_queue_prepare next_job two_jobs).0 ≡ two_jobs.jobs ++ more))
    × IsAwake (job_queue_prepare next_job two_jobs).1
job_queue_prepare-IsAwake_example =
    job_queue_prepare-IsAwake next_job (λ j. job_later-IsAdding (j + 10)) two_jobs

-- Three loops, and the timer for those that are left
two_jobs_run : (job_queue_prepare next_job two_jobs).0 ≡ 1 ∷ 2 ∷ 11 ∷ 12 ∷ 21 ∷ 22 ∷ []
unfolding job_queue_run run_todo
two_jobs_run = refl

-- A job that has run in this generation is put into the queue.
twice_now : (job_now next_job 5 (job_now next_job 5 two_jobs)).jobs ≡ 1 ∷ 2 ∷ 15 ∷ 5 ∷ []
twice_now = refl
