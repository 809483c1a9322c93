-- ===== src/Notifier/Steps.antt =====
-- The notifier among its callers: who does what next is open.
use air_cover.Base.{true, ◌≡◌, List, [], ◌∷◌, ◌++◌}
use air_cover.Errors.{Error, ok, err}
use air_cover.Notifier.{
  Job, Worker, not_started, waiting, busy, finished, State, start, returns, send, close, work,
}

-- The job that this step of the goroutine gets through with.
abbrev pub delivered_by : Worker → List Job
delivered_by not_started = []
delivered_by waiting = []
delivered_by (busy job) = job ∷ []
delivered_by finished = []

-- A step, with the jobs that it accepts and those that it delivers.
pub data Step : State → List Job → List Job → State → Type 0 where
  starts : (s : State) → s.worker ≡ not_started → Step s [] [] (start s)
  accepts :
      (job : Job) (s t : State)
      → s.has_next ≡ true
      → send job s ≡ returns (ok tt) t
      → Step s (job ∷ []) [] t
  refuses : (job : Job) (e : Error) (s t : State) → send job s ≡ returns (err e) t → Step s [] [] t
  stops : (s : State) → Step s [] [] (close s)
  works : (s : State) → Step s [] (delivered_by s.worker) (work s)

-- Sequences of steps.
pub data Reach (s : State) : List Job → List Job → State → Type 0 where
  here : Reach s [] [] s
  after :
      {accepted delivered more done : List Job} {t u : State}
      → Reach s accepted delivered t
      → Step t more done u
      → Reach s (accepted ++ more) (delivered ++ done) u
