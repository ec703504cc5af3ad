-- ===== src/Jobs/Liveness.antt =====
-- No job that is queued is forgotten.
use lighttpd.Prelude.{
  ℕ, zero, suc, ◌≡◌, refl, sym, ap, subst, ◌∙◌, inl, inr, ◌⊎◌, true, List, [], ◌∷◌, ◌++◌, arith,
  append_assoc, append-nil, length, ◌==◌, Bool-cases,
}
use lighttpd.Jobs.Defs.{
  JobQueue, inc_gen, job_later, started, run_first, run_todo, wake_up, job_queue_run,
  job_queue_prepare,
}

-- A function that puts jobs at the end of the queue and takes none away
abbrev pub IsAdding : (JobQueue → JobQueue) → Type 0
IsAdding f = (jq : JobQueue) → (new : List ℕ) × ((f jq).jobs ≡ jq.jobs ++ new)

pub job_later-IsAdding : (j : ℕ) → IsAdding (job_later j)
job_later-IsAdding j jq = elim (Bool-cases (jq.linked j)) [
  | inl e ↦ rw e ([], sym (append-nil jq.jobs))
  | inr e ↦ rw e (j ∷ [], refl)
]

-- The jobs are all done, or the timer runs.
abbrev pub IsAwake : JobQueue → Type 0
IsAwake jq = (jq.jobs ≡ []) ⊎ (jq.timer ≡ true)

no_jobs : (js : List ℕ) → (length js == 0) ≡ true → js ≡ []
no_jobs [] h = refl
no_jobs (j ∷ js) h = absurd (ground (arith, h))

module _ (callback : ℕ → JobQueue → JobQueue) (adding : (j : ℕ) → IsAdding (callback j)) where
  -- Exactly the jobs of the beginning are run, and the others stay before the new ones.
  run_todo-jobs :
      (xs ys : List ℕ) (jq : JobQueue)
      → jq.jobs ≡ xs ++ ys
      → ((run_todo callback (length xs) jq).0 ≡ xs)
        × ((new : List ℕ) × ((run_todo callback (length xs) jq).1.jobs ≡ ys ++ new))
  unfolding run_todo
  run_todo-jobs [] ys jq e = (refl, ([], e ∙ sym (append-nil ys)))
  run_todo-jobs (x ∷ xs) ys jq e =
      let jq1 = started x (xs ++ ys) jq in
      let (new, a) = adding x jq1 in
      let (ran, (more, b)) =
        run_todo-jobs xs (ys ++ new) (callback x jq1) (a ∙ append_assoc xs ys new) in
      subst
        (λ l.
          ((run_first callback (run_todo callback (length xs)) l jq).0 ≡ x ∷ xs)
          × ((new : List ℕ) × ((run_first callback (run_todo callback (length xs)) l jq).1.jobs
                ≡ ys ++ new)))
        (sym e) (ap (◌∷◌ x) ran, (new ++ more, b ∙ append_assoc ys new more))

  woken : (js : List ℕ) (jq : JobQueue) → jq.jobs ≡ js → IsAwake (wake_up js jq)
  woken [] jq e = inl e
  woken (j ∷ js) jq e = inr refl

  loops-IsAwake : (loops : ℕ) (jq : JobQueue) → IsAwake (job_queue_run callback loops jq).1
  unfolding job_queue_run
  loops-IsAwake zero jq = woken jq.jobs jq refl
  loops-IsAwake (suc loops) jq = elim (Bool-cases (length jq.jobs == 0)) [
    | inl e ↦ rw e (inl (no_jobs jq.jobs e))
    | inr e ↦ rw e (loops-IsAwake loops (run_todo callback (length jq.jobs) (inc_gen jq)).1)
  ]

  all_run : (jq : JobQueue) → (more : List ℕ) × ((job_queue_run callback 3 jq).0 ≡ jq.jobs ++ more)
  unfolding job_queue_run
  all_run jq = elim (Bool-cases (length jq.jobs == 0)) [
    | inl e ↦ rw e ([], sym (append-nil jq.jobs ∙ no_jobs jq.jobs e))
    | inr e ↦
        let (ran, rest) = run_todo-jobs jq.jobs [] (inc_gen jq) (sym (append-nil jq.jobs)) in
        let jq1 = (run_todo callback (length jq.jobs) (inc_gen jq)).1 in
        rw e ((job_queue_run callback 2 jq1).0, ap (λ l. l ++ (job_queue_run callback 2 jq1).0) ran)
  ]

  -- If callbacks only put jobs at the end of the queue: the call that the event loop makes in each of
  -- its rounds runs all jobs that were in the queue, in their order and before any other, and when it
  -- returns the queue is empty or the timer has been started, so that jobs that are left come next.
  pub job_queue_prepare-IsAwake :
      (jq : JobQueue)
      → ((more : List ℕ) × ((job_queue_prepare callback jq).0 ≡ jq.jobs ++ more))
        × IsAwake (job_queue_prepare callback jq).1
  job_queue_prepare-IsAwake jq = (all_run jq, loops-IsAwake 3 jq)
