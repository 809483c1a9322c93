-- ===== src/SubRequests/Actions.antt =====
-- `ApplyAction` of internal/app/subrequests/service.go, with the notifications that go with it.
use air_cover.Base.{
  ℤ, String, Bool, true, false, not, Option, none, some, ◌==◌, if◌then◌else◌, string_eq,
}
use air_cover.Errors.{
  invalid, conflict, Result, ok, err, fail, Exec, pure, lift, map_error, ◌>>=◌, ◌>>◌,
}
use air_cover.Domain.{SubRequest, CurrentUser}
use air_cover.Authorization.{action_sub_request_take, action_sub_request_untake}
use air_cover.SubRequests.Ports.{
  ReadModel, UntakenEvent, action_take, action_untake, is_valid_action, Notifier, Service, clock,
}
use air_cover.SubRequests.Service.{
  map_repository_error, detail_path, authorize, title_or_unknown, log_error,
}

abbrev pub is_taken : SubRequest → Bool
is_taken sr = elim sr.taken_by_user_id [ none ↦ false | some _ ↦ true ]

module _ {W : Type 0} (s : Service W) where
  unfoldable pub send_taken : ReadModel → Notifier W → Exec W (Unit {0})
  send_taken record_read notifier = do
    title ← title_or_unknown s record_read.request.show_id
    log_error (
        notifier.sub_request_taken (record {
          request = record_read.request;
          requester_email = record_read.requester_email;
          taker_email = record_read.taker_email;
          show_title = title;
          detail_path = detail_path record_read.request;
        }))

  unfoldable pub notify_taken_by : ℤ → Option (Notifier W) → Exec W (Unit {0})
  notify_taken_by id none = pure tt
  notify_taken_by id (some notifier) =
      log_error (s.repo.get_sub_request_detail_by_id id >>= λ m. send_taken m notifier)

  -- `notifySubRequestTaken`
  unfoldable pub notify_sub_request_taken : ℤ → Exec W (Unit {0})
  notify_sub_request_taken id = notify_taken_by id s.notifier

  unfoldable pub untaken_event : ReadModel → String → Exec W (Option UntakenEvent)
  untaken_event m untaker_email = do
    title ← title_or_unknown s m.request.show_id
    pure (
        some (record {
          request = m.request;
          requester_email = m.requester_email;
          untaker_email = untaker_email;
          show_title = title;
          detail_path = detail_path m.request;
        }))

  unfoldable pub event_from : String → Result ReadModel → Exec W (Option UntakenEvent)
  event_from untaker_email (ok m) = untaken_event m untaker_email
  event_from untaker_email (err _) = pure none

  -- `subRequestUntakenEvent`: an error is logged and leaves the event empty.
  unfoldable pub sub_request_untaken_event : ℤ → String → Exec W (Option UntakenEvent)
  sub_request_untaken_event id untaker_email w =
      let (r, w') = s.repo.get_sub_request_detail_by_id id w in event_from untaker_email r w'

  -- The event that `ApplyAction` prepares, if there is a notifier.
  unfoldable pub event_before_untake :
      ℤ → CurrentUser → Option (Notifier W) → Exec W (Option UntakenEvent)
  event_before_untake id viewer none = pure none
  event_before_untake id viewer (some _) = sub_request_untaken_event id viewer.email

  -- `notifySubRequestUntaken`
  unfoldable pub notify_sub_request_untaken :
      Option UntakenEvent → Option (Notifier W) → Exec W (Unit {0})
  notify_sub_request_untaken none n = pure tt
  notify_sub_request_untaken (some event) none = pure tt
  notify_sub_request_untaken (some event) (some n) = log_error (n.sub_request_untaken event)

  -- The case `ActionTake`
  unfoldable pub take : CurrentUser → ℤ → SubRequest → Exec W (Unit {0})
  take viewer id sr = do
    lift (if is_taken sr then fail conflict else ok tt)
    authorize s viewer action_sub_request_take sr
    now ← clock s
    map_error map_repository_error (s.repo.take_sub_request id viewer.id now)
    notify_sub_request_taken id

  -- The case `ActionUntake`
  unfoldable pub untake : CurrentUser → ℤ → SubRequest → Exec W (Unit {0})
  untake viewer id sr = do
    authorize s viewer action_sub_request_untake sr
    event ← event_before_untake id viewer s.notifier
    now ← clock s
    map_error map_repository_error (s.repo.untake_sub_request id viewer.id now)
    notify_sub_request_untaken event s.notifier

  -- The `switch` of `ApplyAction`, on the request that was read.
  unfoldable pub apply_found : CurrentUser → ℤ → String → SubRequest → Exec W (Unit {0})
  apply_found viewer id action sr =
      if action == action_take
      then take viewer id sr
      else if action == action_untake
      then untake viewer id sr
      else pure tt

  -- `ApplyAction`
  unfoldable pub apply_action : CurrentUser → ℤ → String → Exec W (Unit {0})
  apply_action viewer id action = do
    lift (if not (is_valid_action action) then fail invalid else ok tt)
    sr ← map_error map_repository_error (s.repo.get_sub_request_by_id id)
    apply_found viewer id action sr
