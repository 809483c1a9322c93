-- ===== src/Notifier.antt =====
-- `AsyncNotifier` of internal/adapters/outbound/email/subrequest_notifier.go: a bounded queue in
-- front of a notifier, which one goroutine works off. The channel is the list `jobs`; the context
-- that travels with a job is left out. What the next notifier returns is only logged.
pub mod Steps
pub mod Delivery
pub mod Draining
use air_cover.Base.{
  ℕ, zero, suc, ◌≤◌, ℤ, pos, negsuc, Bool, true, false, not, Option, none, some, List, [], ◌∷◌,
  ◌++◌, length, ltb, if◌then◌else◌,
}
use air_cover.Errors.{Result, ok, err, opaque}
use air_cover.SubRequests.Ports.{CreatedEvent, TakenEvent, UntakenEvent}

abbrev pub default_async_notifier_buffer : ℕ
default_async_notifier_buffer = 32

-- `asyncNotification`, whose kind says which event it holds.
pub data Job : Type 0 where
  created_job : CreatedEvent → Job
  taken_job : TakenEvent → Job
  untaken_job : UntakenEvent → Job

-- The goroutine of `Start`: between jobs, in `process`, or at its end, with `done` closed.
pub data Worker : Type 0 where
  not_started waiting finished : Worker
  busy : Job → Worker

pub record State : Type 0 where
  pub has_next : Bool
  pub buffer : ℕ
  pub jobs : List Job
  pub closed : Bool
  pub worker : Worker

abbrev pub buffer_or_default : ℤ → ℕ
buffer_or_default (pos zero) = default_async_notifier_buffer
buffer_or_default (pos (suc n)) = suc n
buffer_or_default (negsuc n) = default_async_notifier_buffer

-- `NewAsyncNotifier`
unfoldable pub new_async_notifier : Bool → ℤ → State
new_async_notifier has_next buffer = record {
  has_next = has_next;
  buffer = buffer_or_default buffer;
  jobs = [];
  closed = false;
  worker = not_started;
}

-- `Start`, which the program calls once.
unfoldable pub start : State → State
start s = if s.has_next then record s { worker = waiting } else s

-- A send on a closed channel panics.
pub data Sent : Type 0 where
  returns : Result (Unit {0}) → State → Sent
  panics : Sent

-- The `select` of the three methods of the notifier, for a job.
unfoldable pub send : Job → State → Sent
send job s =
    if not s.has_next
    then returns (ok tt) s
    else if s.closed
    then panics
    else if ltb (length s.jobs) s.buffer
    then returns (ok tt) (record s { jobs = s.jobs ++ job ∷ [] })
    else returns (err (opaque "sub request notification queue is full")) s

-- `SubRequestCreated`, `SubRequestTaken` and `SubRequestUntaken`
abbrev pub sub_request_created : CreatedEvent → State → Sent
sub_request_created event s = send (created_job event) s

abbrev pub sub_request_taken : TakenEvent → State → Sent
sub_request_taken event s = send (taken_job event) s

abbrev pub sub_request_untaken : UntakenEvent → State → Sent
sub_request_untaken event s = send (untaken_job event) s

-- `Stop` closes the channel, once, and waits for the goroutine.
unfoldable pub close : State → State
close s = record s { closed = true }

abbrev pub next_job : State → List Job → State
next_job s [] = if s.closed then record s { worker = finished } else s
next_job s (job ∷ jobs) = record s { jobs = jobs; worker = busy job }

abbrev pub go_on : State → Worker → State
go_on s not_started = s
go_on s waiting = next_job s s.jobs
go_on s (busy job) = record s { worker = waiting }
go_on s finished = s

-- One step of the goroutine: it takes a job, gets through with one, or ends.
unfoldable pub work : State → State
work s = go_on s s.worker
