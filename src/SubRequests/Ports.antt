-- ===== src/SubRequests/Ports.antt =====
-- internal/app/subrequests/ports.go and the types of service.go: what the service calls, over a
-- state `W` of the world that every call may read and change, and the values that it passes on.
-- Both detail queries of the repository fill in the request that they return, so it is no pointer
-- here; an event whose request is nil is `none`.
use air_cover.Base.{ℤ, String, Bool, List, Option, ◌==◌, ◌||◌, string_eq}
use air_cover.Errors.{Exec, ok}
use air_cover.Domain.{SubRequest, Time}
use air_cover.Authorization.{Subject, Resource}

-- internal/app/catalog/catalog.go
pub record Show : Type 0 where
  pub id : String
  pub title : String

pub record Persona : Type 0 where
  pub id : ℤ
  pub name : String
  pub email : String

-- `DashboardReadModel` and `DetailReadModel`, which have the same fields.
pub record ReadModel : Type 0 where
  pub request : SubRequest
  pub requester_email : String
  pub taker_email : String

-- `DashboardSubRequest` and `Detail`, which have the same fields.
pub record Detail : Type 0 where
  pub request : SubRequest
  pub requester_email : String
  pub taker_email : String
  pub show_title : String
  pub can_delete : Bool
  pub can_take : Bool
  pub can_untake : Bool
  pub is_past : Bool

pub record Dashboard : Type 0 where
  pub shows : List Show
  pub upcoming : List Detail
  pub past : List Detail

-- `subRequestCapabilities`
pub record Capabilities : Type 0 where
  pub can_delete : Bool
  pub can_take : Bool
  pub can_untake : Bool

pub record CreateInput : Type 0 where
  pub show_id : ℤ
  pub start_time : Time
  pub end_time : Time
  pub notes : String

pub record CreatedEvent : Type 0 where
  pub request : SubRequest
  pub requester_email : String
  pub show_title : String
  pub detail_path : String

pub record TakenEvent : Type 0 where
  pub request : SubRequest
  pub requester_email : String
  pub taker_email : String
  pub show_title : String
  pub detail_path : String

pub record UntakenEvent : Type 0 where
  pub request : SubRequest
  pub requester_email : String
  pub untaker_email : String
  pub show_title : String
  pub detail_path : String

-- `Action` and `Action.Valid`
abbrev pub action_take : String
action_take = "take"

abbrev pub action_untake : String
action_untake = "untake"

abbrev pub is_valid_action : String → Bool
is_valid_action a = a == action_take || a == action_untake

-- `CreateSubRequest` sets the identifier of the request that it is given: here it returns it.
pub record Repository (W : Type 0) : Type 0 where
  pub create_sub_request : SubRequest → Exec W SubRequest
  pub get_sub_request_by_id : ℤ → Exec W SubRequest
  pub delete_sub_request : ℤ → Exec W (Unit {0})
  pub take_sub_request : ℤ → ℤ → Time → Exec W (Unit {0})
  pub untake_sub_request : ℤ → ℤ → Time → Exec W (Unit {0})
  pub list_dashboard_sub_requests : Exec W (List ReadModel)
  pub get_sub_request_detail_by_id : ℤ → Exec W ReadModel

pub record Notifier (W : Type 0) : Type 0 where
  pub sub_request_created : CreatedEvent → Exec W (Unit {0})
  pub sub_request_taken : TakenEvent → Exec W (Unit {0})
  pub sub_request_untaken : UntakenEvent → Exec W (Unit {0})

-- `Service`, with a nil catalog or notifier as `none`.
pub record Service (W : Type 0) : Type 0 where
  pub repo : Repository W
  pub catalog : Option (Exec W (List Show))
  pub notifier : Option (Notifier W)
  pub authorizer : Subject → String → Resource → Exec W (Unit {0})
  pub now_func : W → Time × W

-- Reading the clock cannot fail.
unfoldable pub clock : {W : Type 0} → Service W → Exec W Time
clock s w = let (t, w') = s.now_func w in (ok t, w')
