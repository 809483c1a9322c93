-- ===== src/Presenter.antt =====
-- internal/adapters/inbound/presenter/presenter.go: what the pages show of requests and users.
pub mod Hours
use Prim.Native.Char.{code}
use Prim.Native.String
use air_cover.Base.{
  ℕ, zero, suc, ◌+◌, ◌-◌, ◌*◌, ◌/◌, ◌%◌, ◌^◌, ℤ, pos, negsuc, String, ◌<>◌, Bool, List, map, ◌≡◌,
  refl, ◌==◌, nat_eq, ltb, leb, of_int, if◌then◌else◌,
}
use air_cover.Domain.{Time, minute, hour, get_status}
use air_cover.SubRequests.Ports.{Detail, Dashboard}
use air_cover.Admin.Ports.{UserReadModel}
use air_cover.Calendar.{clock_of, show_short, show_long}

pub record UserView : Type 0 where
  pub id : ℤ
  pub email : String
  pub role : String
  pub created_at : String
  pub is_enabled : Bool
  pub can_deactivate : Bool

pub record SubRequestView : Type 0 where
  pub id : ℤ
  pub show_title : String
  pub requester_email : String
  pub taker_email : String
  pub start_time : String
  pub end_time : String
  pub duration : String
  pub notes : String
  pub status : String
  pub can_delete : Bool
  pub can_take : Bool
  pub can_untake : Bool
  pub is_past : Bool

-- The last nanosecond of a `time.Duration`.
abbrev pub max_duration : ℕ
max_duration = 9223372036854775807

abbrev pub at_most_max : ℕ → ℕ
at_most_max n = if leb n max_duration then n else max_duration

-- `a.Sub(b)`, which stops at the bounds of a `time.Duration`.
unfoldable pub duration_between : Time → Time → ℤ
duration_between a b =
    if leb b a then pos (at_most_max (a - b)) else negsuc (at_most_max (b - a - 1))

-- `strings.TrimSuffix(s, c)` for one character.
unfoldable pub trim_end : ℕ → String → String
trim_end c String.[] = String.[]
trim_end c (String.◌∷◌ a String.[]) = if code a == c then String.[] else String.◌∷◌ a String.[]
trim_end c (String.◌∷◌ a (String.◌∷◌ b s)) = String.◌∷◌ a (trim_end c (String.◌∷◌ b s))

-- The whole number that is nearest to a quotient, and of two that are as near the even one.
abbrev pub rounded : ℕ → ℕ → ℕ → ℕ
rounded whole rest b =
    if ltb (2 * rest) b then whole else if ltb b (2 * rest) then whole + 1 else whole + whole % 2

abbrev pub round_even : ℕ → ℕ → ℕ
round_even a b = rounded (a / b) (a % b) b

-- A `float64` that is not negative is `mantissa / 2 ^ scale`.
pub record Float : Type 0 where
  pub mantissa : ℕ
  pub scale : ℕ

-- The `float64` that is nearest to `a / b`, for a quotient below 2 ^ 53: its mantissa has 53 bits.
-- The quotients that are formatted are 0 or above 2 ^ -42, so that fewer than 100 doublings do.
unfoldable pub scaled : ℕ → ℕ → ℕ → ℕ → Float
scaled zero scale a b = record { mantissa = round_even a b; scale = scale }
scaled (suc more) scale a b =
    let rest = scaled more (scale + 1) (a * 2) b in
    if ltb a (4503599627370496 * b)
    then rest
    else record { mantissa = round_even a b; scale = scale }

abbrev pub to_float : ℕ → ℕ → Float
to_float a b = scaled 100 0 a b

-- `Duration.Hours`: the whole hours plus the rest, each step to the nearest `float64`.
abbrev pub hours : ℕ → Float
hours nanoseconds =
    let rest = to_float (nanoseconds % hour) hour in
    to_float (nanoseconds / hour * 2 ^ rest.scale + rest.mantissa) (2 ^ rest.scale)

-- The verb %.2f: the hundredths nearest to the `float64`, and of two that are as near the even one.
unfoldable pub hundredths : ℕ → ℕ
hundredths nanoseconds = let h = hours nanoseconds in round_even (h.mantissa * 100) (2 ^ h.scale)

unfoldable pub two_decimals : ℕ → String
two_decimals h =
    of_int (pos (h / 100)) <> "." <> of_int (pos (h % 100 / 10)) <> of_int (pos (h % 10))

unfoldable pub format_hours : ℕ → String
format_hours n =
    trim_end b'.' (trim_end b'0' (trim_end b'0' (two_decimals (hundredths n)))) <> " hours"

-- `FormatDuration`; the minutes of a negative duration are rounded towards 0, too.
unfoldable pub format_duration : ℤ → String
format_duration (pos n) = if ltb n hour then of_int (pos (n / minute)) <> " min" else format_hours n
format_duration (negsuc n) =
    (if ltb (suc n) minute then "0" else of_int (negsuc (suc n / minute - 1))) <> " min"

-- `subRequestView`
unfoldable pub sub_request_view : Detail → SubRequestView
sub_request_view item = record {
  id = item.request.id;
  show_title = item.show_title;
  requester_email = item.requester_email;
  taker_email = item.taker_email;
  start_time = show_short (clock_of item.request.start_time);
  end_time = show_short (clock_of item.request.end_time);
  duration = format_duration (duration_between item.request.end_time item.request.start_time);
  notes = item.request.notes;
  status = get_status item.request;
  can_delete = item.can_delete;
  can_take = item.can_take;
  can_untake = item.can_untake;
  is_past = item.is_past;
}

-- `subRequestViews`
unfoldable pub sub_request_views : List Detail → List SubRequestView
sub_request_views items = map sub_request_view items

-- `SubRequestDashboard`
unfoldable pub sub_request_dashboard : Dashboard → List SubRequestView × List SubRequestView
sub_request_dashboard dashboard =
    (sub_request_views dashboard.upcoming, sub_request_views dashboard.past)

-- `SubRequestDetail`
unfoldable pub sub_request_detail : Detail → SubRequestView
sub_request_detail detail = sub_request_view detail

unfoldable pub user_view : UserReadModel → UserView
user_view item = record {
  id = item.user.id;
  email = item.user.email;
  role = item.user.role;
  created_at = show_long (clock_of item.user.created_at);
  is_enabled = item.user.is_enabled;
  can_deactivate = item.can_deactivate;
}

-- `AdminUsers`
unfoldable pub admin_users : List UserReadModel → List UserView
admin_users users = map user_view users

format_duration_test : format_duration (pos (90 * minute)) ≡ "1.5 hours"
unfolding format_duration format_hours two_decimals trim_end of_int hundredths scaled
format_duration_test = refl

ten_hours_test : format_duration (pos (10 * hour)) ≡ "10 hours"
unfolding format_duration format_hours two_decimals trim_end of_int hundredths scaled
ten_hours_test = refl

negative_test : format_duration (negsuc (30 * minute - 1)) ≡ "-30 min"
unfolding format_duration of_int
negative_test = refl

show_test : show_short (clock_of ((20 * 24 + 13) * hour + 5 * minute)) ≡ "Jan 21, 1:05pm"
unfolding show_short clock_of of_int air_cover.Calendar.Counting.date_of
show_test = refl

-- 67.5 minutes lie midway, and go to the even hundredth; 1.015 hours do not, as a `float64`.
midway_test : format_duration (pos (67 * minute + 30000000000)) ≡ "1.12 hours"
unfolding format_duration format_hours two_decimals trim_end of_int hundredths scaled
midway_test = refl

float_test : format_duration (pos (3654 * 1000000000)) ≡ "1.01 hours"
unfolding format_duration format_hours two_decimals trim_end of_int hundredths scaled
float_test = refl

bounds_test : duration_between 20000000000000000000 0 ≡ pos 9223372036854775807
unfolding duration_between
bounds_test = refl
