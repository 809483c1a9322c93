-- ===== src/Notifier/Draining.antt =====
-- After Stop the goroutine gets through with every job and ends.
use air_cover.Base.{ℕ, zero, suc, ◌≡◌, ◌≢◌, refl, ap, Bool, true, List, [], ◌∷◌, ◌++◌}
use air_cover.Notifier.{Job, Worker, not_started, waiting, busy, finished, State, work, close}
use air_cover.Notifier.Steps.{delivered_by}

-- Steps of the goroutine alone, and what they deliver.
abbrev pub works_off : ℕ → State → State
works_off zero s = s
works_off (suc n) s = works_off n (work s)

abbrev pub works_off_jobs : ℕ → State → List Job
works_off_jobs zero s = []
works_off_jobs (suc n) s = delivered_by s.worker ++ works_off_jobs n (work s)

abbrev pub queue_steps : List Job → ℕ
queue_steps [] = 1
queue_steps (job ∷ jobs) = suc (suc (queue_steps jobs))

-- The steps that the goroutine needs.
abbrev pub steps : Worker → List Job → ℕ
steps not_started jobs = 0
steps waiting jobs = queue_steps jobs
steps (busy job) jobs = suc (queue_steps jobs)
steps finished jobs = 0

-- What is left to deliver.
abbrev pub left : Worker → List Job → List Job
left not_started jobs = []
left waiting jobs = jobs
left (busy job) jobs = job ∷ jobs
left finished jobs = []

-- Its end, and everything it delivers on the way.
abbrev pub Drains : State → ℕ → List Job → Type 0
Drains s n jobs = ((works_off n s).worker ≡ finished) × (works_off_jobs n s ≡ jobs)

abbrev shut_down : Bool → ℕ → List Job → Worker → State
shut_down has_next buffer jobs worker = record {
  has_next = has_next;
  buffer = buffer;
  jobs = jobs;
  closed = true;
  worker = worker;
}

waiting-Drains :
    (has_next : Bool) (buffer : ℕ) (jobs : List Job)
    → Drains (shut_down has_next buffer jobs waiting) (queue_steps jobs) jobs
unfolding work
waiting-Drains has_next buffer [] = (refl, refl)
waiting-Drains has_next buffer (job ∷ jobs) =
    let rest = waiting-Drains has_next buffer jobs in (rest.0, ap (λ js. job ∷ js) rest.1)

running-Drains :
    (has_next : Bool) (buffer : ℕ) (jobs : List Job) (worker : Worker)
    → worker ≢ not_started
    → Drains (shut_down has_next buffer jobs worker) (steps worker jobs) (left worker jobs)
unfolding work
running-Drains has_next buffer jobs not_started running = absurd (running refl)
running-Drains has_next buffer jobs waiting running = waiting-Drains has_next buffer jobs
running-Drains has_next buffer jobs (busy job) running =
    let rest = waiting-Drains has_next buffer jobs in (rest.0, ap (λ js. job ∷ js) rest.1)
running-Drains has_next buffer jobs finished running = (refl, refl)

-- Once Stop has closed the queue, a goroutine that was started gets through with the job in its
-- hands and every job in the queue, in order, and ends, within two steps for each job and one more.
pub close-Drains :
    (s : State)
    → s.worker ≢ not_started
    → Drains (close s) (steps s.worker s.jobs) (left s.worker s.jobs)
unfolding close
close-Drains s running = running-Drains s.has_next s.buffer s.jobs s.worker running
