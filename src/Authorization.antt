-- ===== src/Authorization.antt =====
-- internal/app/authorization/authorization.go: subjects, resources and the parity authorizer.
-- Actions and resource types are strings in the source, and stay so.
pub mod Actions
pub use Actions.*
use air_cover.Base.{
  ℤ, pos, String, Bool, true, false, not, ◌&&◌, ◌||◌, Option, none, some, ◌==◌, ◌/=◌, if◌then◌else◌,
  string_eq, int_eq,
}
use air_cover.Domain.{CurrentUser, is_admin, SubRequest}
use air_cover.Errors.{Done, ok, fail, forbidden}

pub record Subject : Type 0 where
  pub user : CurrentUser

-- The zero value of each field is that of Go.
pub record Resource : Type 0 where
  pub type : String
  pub owner_user_id : ℤ
  pub taker_user_id : ℤ
  pub has_taker : Bool
  pub target_user_id : ℤ
  pub disable_target : Bool
  pub sub_request_open : Bool

-- `Resource{Type: type}`
abbrev pub bare_resource : String → Resource
bare_resource type = record {
  type = type;
  owner_user_id = pos 0;
  taker_user_id = pos 0;
  has_taker = false;
  target_user_id = pos 0;
  disable_target = false;
  sub_request_open = false;
}

abbrev pub subject_from_current_user : CurrentUser → Subject
subject_from_current_user user = record { user = user }

abbrev pub admin_resource : Resource
admin_resource = bare_resource resource_admin

abbrev pub user_resource : ℤ → Bool → Resource
user_resource target disable = record (bare_resource resource_user) {
  target_user_id = target;
  disable_target = disable;
}

-- `SubRequestResource` of a request that is not nil, by whether it has a taker.
abbrev pub taken_resource : ℤ → Option ℤ → Resource
taken_resource owner none = record (bare_resource resource_sub_request) {
  owner_user_id = owner;
  sub_request_open = true;
}
taken_resource owner (some taker) = record (bare_resource resource_sub_request) {
  owner_user_id = owner;
  taker_user_id = taker;
  has_taker = true;
}

-- `SubRequestResource`; its argument may be nil.
abbrev pub sub_request_resource : Option SubRequest → Resource
sub_request_resource none = bare_resource resource_sub_request
sub_request_resource (some sr) = taken_resource sr.posted_by_user_id sr.taken_by_user_id

-- `allowed`: the `switch` over the action, whose `default` denies.
unfoldable pub allowed : Subject → String → Resource → Bool
allowed subject action r =
    let user = subject.user in
    if action == action_admin_access || action == action_user_list || action == action_user_create
    then is_admin user
    else if action == action_user_update
    then is_admin user && (not r.disable_target || user.id /= r.target_user_id)
    else if action == action_sub_request_delete
    then r.owner_user_id == user.id || is_admin user
    else if action == action_sub_request_take
    then r.sub_request_open && r.owner_user_id /= user.id
    else if action == action_sub_request_untake
    then r.has_taker && r.taker_user_id == user.id
    else false

-- `ParityAuthorizer.Authorize`
unfoldable pub authorize : Subject → String → Resource → Done
unfolding allowed
authorize subject action r = if allowed subject action r then ok tt else fail forbidden
