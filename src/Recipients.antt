-- ===== src/Recipients.antt =====
-- `SubRequestNotifier` of internal/adapters/outbound/email/subrequest_notifier.go: who is told of
-- what. The sender is a parameter; its failures are only logged.
pub mod Created
use air_cover.Base.{
  String, Bool, ◌==◌, string_eq, Option, none, some, List, [], ◌∷◌, map, if◌then◌else◌, ◌<>◌,
}
use air_cover.Base.Text.{trim_slashes_right, trim_slashes_left}
use air_cover.Errors.{Result, Exec, ok, err, opaque, wrap, pure, raise, map_error, ◌>>=◌, ◌>>◌}
use air_cover.Domain.{User, Time}
use air_cover.SubRequests.Ports.{CreatedEvent, TakenEvent, UntakenEvent}
use air_cover.SubRequests.Service.{log_error}

-- `SubRequestCreatedMessage`
pub record CreatedMessage : Type 0 where
  pub show_title : String
  pub requester_email : String
  pub start_time : Time
  pub end_time : Time
  pub notes : String
  pub detail_url : String

-- `SubRequestTakenMessage` and `SubRequestUntakenMessage`, which name the other user differently.
pub record ActedMessage : Type 0 where
  pub show_title : String
  pub actor_email : String
  pub start_time : Time
  pub end_time : Time
  pub detail_url : String

-- The part of `Sender` that is about requests.
pub record Sender (W : Type 0) : Type 0 where
  pub send_sub_request_created : List String → CreatedMessage → Exec W (Unit {0})
  pub send_sub_request_taken : String → List String → ActedMessage → Exec W (Unit {0})
  pub send_sub_request_untaken : String → List String → ActedMessage → Exec W (Unit {0})

-- `SubRequestNotifier`, with a nil lister or sender as `none`.
pub record SubRequestNotifier (W : Type 0) : Type 0 where
  pub users : Option (Exec W (List User))
  pub sender : Option (Sender W)
  pub base_url : String

-- `detailURL`
unfoldable pub detail_url : String → String → String
detail_url base_url path =
    let base = trim_slashes_right base_url in
    if base == "" then path else base <> ("/" <> trim_slashes_left path)

abbrev pub no_sender : String
no_sender = "email sender is not configured"

-- The copy goes to the other user, if there is an email.
abbrev pub copies : String → List String
copies email = if email == "" then [] else email ∷ []

module _ {W : Type 0} (n : SubRequestNotifier W) where
  abbrev pub created_message : CreatedEvent → CreatedMessage
  created_message event = record {
    show_title = event.show_title;
    requester_email = event.requester_email;
    start_time = event.request.start_time;
    end_time = event.request.end_time;
    notes = event.request.notes;
    detail_url = detail_url n.base_url event.detail_path;
  }

  unfoldable pub tell_all : Sender W → CreatedEvent → List String → Exec W (Unit {0})
  tell_all sender event [] = pure tt
  tell_all sender event (email ∷ emails) =
      log_error (sender.send_sub_request_created (email ∷ emails) (created_message event))

  unfoldable pub tell_users :
      CreatedEvent → Option (Exec W (List User)) → Option (Sender W) → Exec W (Unit {0})
  tell_users event none sender = raise (opaque "active user lister is not configured")
  tell_users event (some list_users) none = raise (opaque no_sender)
  tell_users event (some list_users) (some sender) =
      map_error (λ e. wrap "list active users: " e "") list_users >>= λ users.
      tell_all sender event (map (λ (u : User). u.email) users)

  -- `SubRequestCreated`
  unfoldable pub sub_request_created : CreatedEvent → Exec W (Unit {0})
  sub_request_created event = tell_users event n.users n.sender

  unfoldable pub tell_taken : TakenEvent → Option (Sender W) → Exec W (Unit {0})
  tell_taken event none = raise (opaque no_sender)
  tell_taken event (some sender) =
      if event.requester_email == ""
      then pure tt
      else log_error (
          sender.send_sub_request_taken event.requester_email (copies event.taker_email) (record {
            show_title = event.show_title;
            actor_email = event.taker_email;
            start_time = event.request.start_time;
            end_time = event.request.end_time;
            detail_url = detail_url n.base_url event.detail_path;
          }))

  -- `SubRequestTaken`
  unfoldable pub sub_request_taken : TakenEvent → Exec W (Unit {0})
  sub_request_taken event = tell_taken event n.sender

  unfoldable pub tell_untaken : UntakenEvent → Option (Sender W) → Exec W (Unit {0})
  tell_untaken event none = raise (opaque no_sender)
  tell_untaken event (some sender) =
      if event.requester_email == ""
      then pure tt
      else log_error (
          sender.send_sub_request_untaken event.requester_email (copies event.untaker_email)
            (record {
              show_title = event.show_title;
              actor_email = event.untaker_email;
              start_time = event.request.start_time;
              end_time = event.request.end_time;
              detail_url = detail_url n.base_url event.detail_path;
            }))

  -- `SubRequestUntaken`
  unfoldable pub sub_request_untaken : UntakenEvent → Exec W (Unit {0})
  sub_request_untaken event = tell_untaken event n.sender
