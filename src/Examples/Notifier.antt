-- ===== src/Examples/Notifier.antt =====
-- A notifier with room for one job.
use air_cover.Base.{pos, ◌≢◌, refl, true, false, none, [], ◌∷◌}
use air_cover.SubRequests.Ports.{CreatedEvent}
use air_cover.Notifier.{
  created_job, not_started, waiting, busy, State, new_async_notifier, start, send, close, work,
}
use air_cover.Notifier.Steps.{Reach, here, after, starts, accepts, works}
use air_cover.Notifier.Delivery.{IsOrderly, reach-IsOrderly}
use air_cover.Notifier.Draining.{Drains, steps, left, close-Drains}

abbrev event : CreatedEvent
event = record {
  request = record {
    id = pos 1;
    show_id = pos 7;
    posted_by_user_id = pos 1;
    taken_by_user_id = none;
    substitute_id = none;
    start_time = 2000;
    end_time = 3000;
    notes = "";
    created_at = 10;
    updated_at = 10;
  };
  requester_email = "alice@example.org";
  show_title = "Night Drive";
  detail_path = "/sub-requests/1";
}

abbrev queued : State
queued = record {
  has_next = true;
  buffer = 1;
  jobs = created_job event ∷ [];
  closed = false;
  worker = waiting;
}

abbrev picked : State
picked = record queued { jobs = []; worker = busy (created_job event) }

path : Reach (new_async_notifier true (pos 1)) (created_job event ∷ []) [] picked
unfolding new_async_notifier start send work
path =
    after (after (after here (starts _ refl)) (accepts (created_job event) _ queued refl refl))
      (works queued)

reach-IsOrderly_example : IsOrderly (created_job event ∷ []) [] picked
reach-IsOrderly_example = reach-IsOrderly true (pos 1) (created_job event ∷ []) [] picked path

waiting_started : waiting ≢ not_started
waiting_started e = cc e

close-Drains_example :
    Drains
      (close queued)
      (steps waiting (created_job event ∷ []))
      (left waiting (created_job event ∷ []))
close-Drains_example = close-Drains queued waiting_started
