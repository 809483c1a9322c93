-- ===== src/Notifier/Delivery.antt =====
-- Accepted jobs are delivered once each, in their order.
use mathlib.Core.List.{append-nil, append_assoc}
use air_cover.Base.{
  suc, ◌≤◌, ℤ, ◌≡◌, refl, sym, ◌∙◌, ap, Bool, true, false, List, [], ◌∷◌, ◌++◌, length,
  if◌then◌else◌, arith,
}
use air_cover.Errors.{Error, ok, err}
use air_cover.Notifier.{
  Job, Worker, not_started, waiting, busy, finished, State, new_async_notifier, start, returns,
  send, close, next_job, go_on, work,
}
use air_cover.Notifier.Steps.{
  Step, starts, accepts, refuses, stops, works, Reach, here, after, delivered_by,
}

abbrev pub IsFinished : Worker → Type 0
IsFinished not_started = ⊥
IsFinished waiting = ⊥
IsFinished (busy job) = ⊥
IsFinished finished = Unit

-- The jobs that were accepted and are not delivered.
abbrev pub pending : State → List Job
pending s = delivered_by s.worker ++ s.jobs

-- What was accepted is what was delivered and then what is pending; the queue keeps within its
-- buffer; and the goroutine ends only with the queue closed and empty.
pub record IsOrderly (accepted delivered : List Job) (s : State) : Type 0 where
  pub in_order : accepted ≡ delivered ++ pending s
  pub bounded : length s.jobs ≤ s.buffer
  pub drained : IsFinished s.worker → (s.jobs ≡ []) × (s.closed ≡ true)

new-IsOrderly :
    (has_next : Bool) (buffer : ℤ) → IsOrderly [] [] (new_async_notifier has_next buffer)
unfolding new_async_notifier
new-IsOrderly has_next buffer = record {
  in_order = refl;
  bounded = omega arith;
  drained = λ f. absurd f;
}

-- A step that accepts and delivers nothing.
quiet-IsOrderly :
    (accepted delivered : List Job) (s t : State)
    → pending t ≡ pending s
    → length t.jobs ≤ t.buffer
    → (IsFinished t.worker → (t.jobs ≡ []) × (t.closed ≡ true))
    → IsOrderly accepted delivered s
    → IsOrderly (accepted ++ []) (delivered ++ []) t
quiet-IsOrderly accepted delivered s t same bounded drained h = record {
  in_order =
      append-nil accepted
      ∙ h.in_order
      ∙ ap (λ p. delivered ++ p) (sym same)
      ∙ ap (λ d. d ++ pending t) (sym (append-nil delivered));
  bounded = bounded;
  drained = drained;
}

length-snoc : (jobs : List Job) (job : Job) → length (jobs ++ job ∷ []) ≡ suc (length jobs)
length-snoc [] job = refl
length-snoc (x ∷ jobs) job = ap suc (length-snoc jobs job)

-- What an accepted send found.
pub send-accepted :
    (job : Job) (s t : State)
    → s.has_next ≡ true
    → send job s ≡ returns (ok tt) t
    → (s.closed ≡ false)
      × (suc (length s.jobs) ≤ s.buffer)
      × (t ≡ record s { jobs = s.jobs ++ job ∷ [] })
unfolding send
send-accepted job s t next h = ground arith

send-refused : (job : Job) (e : Error) (s t : State) → send job s ≡ returns (err e) t → t ≡ s
unfolding send
send-refused job e s t h = ground arith

accepted-IsOrderly :
    (accepted delivered : List Job) (job : Job) (s : State)
    → s.closed ≡ false
    → suc (length s.jobs) ≤ s.buffer
    → IsOrderly accepted delivered s
    → IsOrderly (accepted ++ job ∷ []) (delivered ++ []) (record s { jobs = s.jobs ++ job ∷ [] })
accepted-IsOrderly accepted delivered job s still_open free h = record {
  in_order =
      ap (λ a. a ++ job ∷ []) h.in_order
      ∙ append_assoc delivered (pending s) (job ∷ [])
      ∙ ap (λ p. delivered ++ p) (append_assoc (delivered_by s.worker) s.jobs (job ∷ []))
      ∙ ap (λ d. d ++ (delivered_by s.worker ++ (s.jobs ++ job ∷ []))) (sym (append-nil delivered));
  bounded = rw (length-snoc s.jobs job) free;
  drained = λ f. absurd (open_closed (h.drained f).1);
}
  where
    open_closed : s.closed ≡ true → ⊥
    open_closed e = let bad : false ≡ true = sym still_open ∙ e in cc bad

started-IsOrderly :
    (accepted delivered : List Job) (s : State) (b : Bool)
    → s.worker ≡ not_started
    → IsOrderly accepted delivered s
    → IsOrderly (accepted ++ []) (delivered ++ []) (if b then record s { worker = waiting } else s)
started-IsOrderly accepted delivered s true idle h =
    quiet-IsOrderly accepted delivered s (record s { worker = waiting })
      (ap (λ w. delivered_by w ++ s.jobs) (sym idle)) h.bounded (λ f. absurd f) h
started-IsOrderly accepted delivered s false idle h =
    quiet-IsOrderly accepted delivered s s refl h.bounded h.drained h

empty-IsOrderly :
    (accepted delivered : List Job) (s : State) (b : Bool)
    → s.worker ≡ waiting
    → s.jobs ≡ []
    → s.closed ≡ b
    → IsOrderly accepted delivered s
    → IsOrderly (accepted ++ []) (delivered ++ []) (if b then record s { worker = finished } else s)
empty-IsOrderly accepted delivered s false idle e open_now h =
    quiet-IsOrderly accepted delivered s s refl h.bounded h.drained h
empty-IsOrderly accepted delivered s true idle e shut h =
    quiet-IsOrderly accepted delivered s (record s { worker = finished })
      (ap (λ w. delivered_by w ++ s.jobs) (sym idle)) h.bounded (λ f. (e, shut)) h

next-IsOrderly :
    (accepted delivered : List Job) (s : State) (jobs : List Job)
    → s.worker ≡ waiting
    → s.jobs ≡ jobs
    → IsOrderly accepted delivered s
    → IsOrderly (accepted ++ []) (delivered ++ []) (next_job s jobs)
next-IsOrderly accepted delivered s [] idle e h =
    empty-IsOrderly accepted delivered s s.closed idle e refl h
next-IsOrderly accepted delivered s (job ∷ jobs) idle e h =
    quiet-IsOrderly accepted delivered s (record s { jobs = jobs; worker = busy job })
      (sym e ∙ ap (λ w. delivered_by w ++ s.jobs) (sym idle)) (shorter s.jobs jobs job e h.bounded)
      (λ f. absurd f) h
  where
    shorter :
        (all jobs : List Job) (job : Job)
        → all ≡ job ∷ jobs
        → length all ≤ s.buffer
        → length jobs ≤ s.buffer
    shorter all jobs job e bounded = omega (arith, ap length e)

worked-IsOrderly :
    (accepted delivered : List Job) (s : State) (w : Worker)
    → s.worker ≡ w
    → IsOrderly accepted delivered s
    → IsOrderly (accepted ++ []) (delivered ++ delivered_by w) (go_on s w)
worked-IsOrderly accepted delivered s not_started e h =
    quiet-IsOrderly accepted delivered s s refl h.bounded h.drained h
worked-IsOrderly accepted delivered s waiting e h =
    next-IsOrderly accepted delivered s s.jobs e refl h
worked-IsOrderly accepted delivered s finished e h =
    quiet-IsOrderly accepted delivered s s refl h.bounded h.drained h
worked-IsOrderly accepted delivered s (busy job) e h = record {
  in_order =
      append-nil accepted
      ∙ h.in_order
      ∙ ap (λ w. delivered ++ (delivered_by w ++ s.jobs)) e
      ∙ sym (append_assoc delivered (job ∷ []) s.jobs);
  bounded = h.bounded;
  drained = λ f. absurd f;
}

Step-IsOrderly :
    (accepted delivered more done : List Job) (s t : State)
    → Step s more done t
    → IsOrderly accepted delivered s
    → IsOrderly (accepted ++ more) (delivered ++ done) t
unfolding start close work
Step-IsOrderly accepted delivered _ _ s _ (starts _ idle) h =
    started-IsOrderly accepted delivered s s.has_next idle h
Step-IsOrderly accepted delivered _ _ s t (accepts job _ _ next sent) h =
    let (still_open, free, e) = send-accepted job s t next sent in
    rw e (accepted-IsOrderly accepted delivered job s still_open free h)
Step-IsOrderly accepted delivered _ _ s t (refuses job x _ _ sent) h =
    rw (send-refused job x s t sent)
      (quiet-IsOrderly accepted delivered s s refl h.bounded h.drained h)
Step-IsOrderly accepted delivered _ _ s _ (stops _) h =
    quiet-IsOrderly accepted delivered s (record s { closed = true }) refl h.bounded
      (λ f. ((h.drained f).0, refl)) h
Step-IsOrderly accepted delivered _ _ s _ (works _) h =
    worked-IsOrderly accepted delivered s s.worker refl h

-- Through any interleaving of callers, the goroutine and Stop, the jobs that the notifier accepted
-- are, in their order and once each, those that it delivered followed by those that are pending;
-- the queue keeps within its buffer; and the goroutine ends only when the queue is closed and
-- empty, so that everything accepted was delivered.
pub reach-IsOrderly :
    (has_next : Bool) (buffer : ℤ) (accepted delivered : List Job) (s : State)
    → Reach (new_async_notifier has_next buffer) accepted delivered s
    → IsOrderly accepted delivered s
reach-IsOrderly has_next buffer _ _ _ here = new-IsOrderly has_next buffer
reach-IsOrderly has_next buffer _ _ s
      (after {accepted} {delivered} {more} {done} {t} reached step) =
    Step-IsOrderly accepted delivered more done t s step
      (reach-IsOrderly has_next buffer accepted delivered t reached)
