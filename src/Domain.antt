-- ===== src/Domain.antt =====
-- internal/domain: users, sub requests, magic links and sessions. A Go pointer that may be nil is
-- an `Option`. An instant (`time.Time`) is the number of nanoseconds since the start of the year 0,
-- the first year that `time.Parse` reads, so the zero time (1 January of the year 1) is 366 days in.
use air_cover.Base.{ℕ, ◌*◌, ℤ, String, Bool, ◌||◌, Option, none, some, ◌==◌, ltb, string_eq}

abbrev pub Time : Type 0
Time = ℕ

abbrev pub second : ℕ
second = 1_000_000_000

abbrev pub minute : ℕ
minute = 60 * second

abbrev pub hour : ℕ
hour = 60 * minute

abbrev pub zero_time : Time
zero_time = 366 * 24 * hour

-- `a.Before(b)`
abbrev pub before : Time → Time → Bool
before a b = ltb a b

-- `a.After(b)`
abbrev pub after : Time → Time → Bool
after a b = ltb b a

abbrev pub Role : Type 0
Role = String

abbrev pub role_admin : Role
role_admin = "admin"

abbrev pub role_member : Role
role_member = "member"

-- `Role.Valid`
abbrev pub is_valid_role : Role → Bool
is_valid_role r = r == role_admin || r == role_member

pub record User : Type 0 where
  pub id : ℤ
  pub email : String
  pub role : Role
  pub is_enabled : Bool
  pub created_at : Time

pub record CurrentUser : Type 0 where
  pub id : ℤ
  pub email : String
  pub role : Role

-- `CurrentUser.IsAdmin`
abbrev pub is_admin : CurrentUser → Bool
is_admin u = u.role == role_admin

pub data SubRequestStatus : Type 0 where
  open_status filled_status : SubRequestStatus

-- `SubRequest.SubstituteID` is never read or written by the program; it is kept as in the source.
pub record SubRequest : Type 0 where
  pub id : ℤ
  pub show_id : ℤ
  pub posted_by_user_id : ℤ
  pub taken_by_user_id : Option ℤ
  pub substitute_id : Option ℤ
  pub start_time : Time
  pub end_time : Time
  pub notes : String
  pub created_at : Time
  pub updated_at : Time

-- `SubRequest.Status`
unfoldable pub status : SubRequest → SubRequestStatus
status s = elim s.taken_by_user_id [ none ↦ open_status | some _ ↦ filled_status ]

-- `SubRequest.GetStatus`
unfoldable pub get_status : SubRequest → String
unfolding status
get_status s = elim (status s) [ open_status ↦ "open" | filled_status ↦ "filled" ]

-- `SubRequest.HasValidTimeRange`
abbrev pub has_valid_time_range : SubRequest → Bool
has_valid_time_range s = after s.end_time s.start_time

pub record MagicLink : Type 0 where
  pub id : ℤ
  pub user_id : ℤ
  pub token_hash : String
  pub expires_at : Time
  pub used_at : Option Time

pub record Session : Type 0 where
  pub id : String
  pub user_id : ℤ
  pub token_hash : String
  pub expires_at : Time
