-- ===== src/Jobs/Defs.antt =====
-- common/jobqueue.c: jobs that are run soon, by one thread. A job is named by a number; what its
-- callback does is an argument. A function that runs jobs returns which it has run, too.
use lighttpd.Prelude.{
  ℕ, zero, suc, ◌+◌, ◌%◌, Bool, true, false, not, List, [], ◌∷◌, ◌++◌, length, ◌==◌, if◌then◌else◌,
}

-- `liJobQueue` and the `generation` of the jobs; `linked` is whether `link.data` is set, and `timer`
-- whether `queue_watcher` has been started.
pub record JobQueue : Type 0 where
  pub generation : ℕ
  pub jobs : List ℕ
  pub job_generation : ℕ → ℕ
  pub linked : ℕ → Bool
  pub timer : Bool

abbrev pub set_for {ℓ} : {A : Type ℓ} → ℕ → A → (ℕ → A) → ℕ → A
set_for j x f i = if i == j then x else f i

-- `INC_GEN`, on a `guint` of 32 bits
abbrev pub inc_gen : JobQueue → JobQueue
inc_gen jq =
    let g = (jq.generation + 1) % 4294967296 in record jq { generation = if g == 0 then 1 else g }

-- `g_queue_unlink`
abbrev pub unlink_job : ℕ → List ℕ → List ℕ
unlink_job j [] = []
unlink_job j (i ∷ is) = let rest = unlink_job j is in if j == i then is else i ∷ rest

-- `li_job_later`
abbrev pub job_later : ℕ → JobQueue → JobQueue
job_later j jq =
    if jq.linked j
    then jq
    else record jq { linked = set_for j true jq.linked; jobs = jq.jobs ++ (j ∷ []) }

-- `li_job_stop`, without the reference
abbrev pub job_stop : ℕ → JobQueue → JobQueue
job_stop j jq =
    if jq.linked j
    then record jq { linked = set_for j false jq.linked; jobs = unlink_job j jq.jobs }
    else jq

-- `li_job_reset`
abbrev pub job_reset : ℕ → JobQueue → JobQueue
job_reset j jq =
    let jq1 = job_stop j jq in record jq1 { job_generation = set_for j 0 jq1.job_generation }

-- The job gets the generation of the queue.
abbrev pub catch_up : ℕ → JobQueue → JobQueue
catch_up j jq = record jq { job_generation = set_for j jq.generation jq.job_generation }

-- The head j is out of the queue, and about to run.
abbrev pub started : ℕ → List ℕ → JobQueue → JobQueue
started j js jq =
    let jq1 = catch_up j (record jq { jobs = js }) in
    record jq1 { linked = set_for j false jq1.linked }

-- The timer makes the loop come back for the jobs that are left.
abbrev pub wake_up : List ℕ → JobQueue → JobQueue
wake_up [] jq = jq
wake_up (j ∷ js) jq = record jq { timer = true }

module _ (callback : ℕ → JobQueue → JobQueue) where
  -- `li_job_now`
  abbrev pub job_now : ℕ → JobQueue → JobQueue
  job_now j jq =
      if not (jq.job_generation j == jq.generation)
      then callback j (job_stop j (catch_up j jq))
      else job_later j jq

  -- One round of the inner loop of `job_queue_run`, with the jobs in the queue
  abbrev pub run_first : (JobQueue → List ℕ × JobQueue) → List ℕ → JobQueue → List ℕ × JobQueue
  run_first next [] jq = ([], jq)
  run_first next (j ∷ js) jq =
      let (ran, jq1) = next (callback j (started j js jq)) in (j ∷ ran, jq1)

  -- The loop, with `todo` jobs to go
  unfoldable pub run_todo : ℕ → JobQueue → List ℕ × JobQueue
  run_todo zero jq = ([], jq)
  run_todo (suc todo) jq = run_first (run_todo todo) jq.jobs jq

  -- `job_queue_run`
  unfoldable pub job_queue_run : ℕ → JobQueue → List ℕ × JobQueue
  unfolding run_todo
  job_queue_run zero jq = ([], wake_up jq.jobs jq)
  job_queue_run (suc loops) jq =
      let (ran, jq1) = run_todo (length jq.jobs) (inc_gen jq) in
      let (more, jq2) = job_queue_run loops jq1 in
      if length jq.jobs == 0 then ([], inc_gen jq) else (ran ++ more, jq2)

  -- `job_queue_prepare_cb`
  abbrev pub job_queue_prepare : JobQueue → List ℕ × JobQueue
  job_queue_prepare = job_queue_run 3
