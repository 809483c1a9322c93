-- ===== src/Calendar.antt =====
-- Dates and times of day in UTC, as the program reads them from a form and shows them: what it uses
-- of Go's `time`. An instant is a number of nanoseconds since the start of the year 0.
pub mod Counting
pub mod RoundTrip
use Prim.Native.Char.{Char, code}
use Prim.Native.String
use air_cover.Base.{
  ℕ, zero, suc, ◌+◌, ◌-◌, ◌*◌, ◌/◌, ◌%◌, String, ◌<>◌, Bool, true, false, not, ◌&&◌, ◌||◌, Option,
  none, some, List, [], ◌∷◌, ◌≡◌, refl, ◌==◌, nat_eq, ltb, leb, pos, of_int, if◌then◌else◌,
}
use air_cover.Domain.{Time, second, minute}
use Counting.{Date, date_of, days_of, month_length}

-- A date with an hour and a minute.
pub record Clock : Type 0 where
  pub date : Date
  pub hour_of_day : ℕ
  pub minute_of_hour : ℕ

-- `time.Date`
unfoldable pub instant : Clock → Time
instant c = ((days_of c.date * 24 + c.hour_of_day) * 60 + c.minute_of_hour) * minute

-- The clock of an instant.
unfoldable pub clock_of : Time → Clock
clock_of t =
    let minutes = t / minute in
    record {
      date = date_of (minutes / 60 / 24);
      hour_of_day = minutes / 60 % 24;
      minute_of_hour = minutes % 60;
    }

-- A text as a list of characters, which patterns read.
abbrev chars : String → List Char
chars String.[] = []
chars (String.◌∷◌ c s) = c ∷ chars s

abbrev is_digit : Char → Bool
is_digit c = leb b'0' (code c) && leb (code c) b'9'

abbrev digit : Char → ℕ
digit c = code c - b'0'

abbrev all_digits : List Char → Bool
all_digits [] = true
all_digits (c ∷ cs) = is_digit c && all_digits cs

abbrev is_char : ℕ → Char → Bool
is_char n c = code c == n

infixl 5 ◌>>=◌
abbrev ◌>>=◌ : {A B : Type 0} → Option A → (A → Option B) → Option B
none >>= f = none
some a >>= f = f a

-- `getnum` with two digits.
two_digits : List Char → Option (ℕ × List Char)
two_digits (a ∷ b ∷ cs) =
    if is_digit a && is_digit b then some (digit a * 10 + digit b, cs) else none
two_digits cs = none

second_digit : ℕ → List Char → ℕ × List Char
second_digit a [] = (a, [])
second_digit a (c ∷ cs) = if is_digit c then (a * 10 + digit c, cs) else (a, c ∷ cs)

-- `getnum` with one digit or two.
one_or_two_digits : List Char → Option (ℕ × List Char)
unfolding second_digit
one_or_two_digits [] = none
one_or_two_digits (c ∷ cs) = if is_digit c then some (second_digit (digit c) cs) else none

four_digits : List Char → Option (ℕ × List Char)
four_digits (a ∷ b ∷ c ∷ d ∷ cs) =
    if all_digits (a ∷ b ∷ c ∷ d ∷ [])
    then some (digit a * 1000 + digit b * 100 + digit c * 10 + digit d, cs)
    else none
four_digits cs = none

skip : ℕ → List Char → Option (List Char)
skip n [] = none
skip n (c ∷ cs) = if is_char n c then some cs else none

at_end : List Char → Option (Unit {0})
at_end [] = some tt
at_end (c ∷ cs) = none

abbrev pub is_valid_clock : Clock → Bool
is_valid_clock c =
    (leb 1 c.date.month && leb c.date.month 12)
    && (leb 1 c.date.day && leb c.date.day (month_length c.date.year c.date.month))
    && (ltb c.hour_of_day 24 && ltb c.minute_of_hour 60)

-- The fields of a text in the layout "2006-01-02T15:04".
unfoldable pub scan_clock : String → Option Clock
unfolding two_digits one_or_two_digits four_digits skip at_end
scan_clock s = do
  (year, s1) ← four_digits (chars s)
  s2 ← skip b'-' s1
  (month, s3) ← two_digits s2
  s4 ← skip b'-' s3
  (day, s5) ← two_digits s4
  s6 ← skip b'T' s5
  (h, s7) ← one_or_two_digits s6
  s8 ← skip b':' s7
  (m, s9) ← two_digits s8
  end ← at_end s9
  some (record {
    date = record { year = year; month = month; day = day };
    hour_of_day = h;
    minute_of_hour = m;
  })

-- The end of `time.Parse`: a field out of its range is an error.
unfoldable pub in_range : Clock → Option Time
in_range c = if is_valid_clock c then some (instant c) else none

-- `time.Parse("2006-01-02T15:04", s)`, with `none` for its error.
unfoldable pub parse_local : String → Option Time
parse_local s = scan_clock s >>= in_range

-- A number with two digits at least.
abbrev padded : ℕ → String
padded n = (if ltb n 10 then "0" else "") <> of_int (pos n)

-- A year of at least four digits.
abbrev year_text : ℕ → String
year_text y = of_int (pos (y / 1000)) <> of_int (pos (y / 100 % 10)) <> padded (y % 100)

month_name : ℕ → String
month_name month =
    if month == 1
    then "Jan"
    else if month == 2
    then "Feb"
    else if month == 3
    then "Mar"
    else if month == 4
    then "Apr"
    else if month == 5
    then "May"
    else if month == 6
    then "Jun"
    else if month == 7
    then "Jul"
    else if month == 8
    then "Aug"
    else if month == 9
    then "Sep"
    else if month == 10
    then "Oct"
    else if month == 11
    then "Nov"
    else "Dec"

-- The hour on a clock with twelve hours.
abbrev hour12 : ℕ → ℕ
hour12 h = if h % 12 == 0 then 12 else h % 12

-- The layout "Jan 2, 3:04pm"
unfoldable pub show_short : Clock → String
unfolding month_name of_int
show_short c =
    month_name c.date.month
    <> " "
    <> of_int (pos c.date.day)
    <> ", "
    <> of_int (pos (hour12 c.hour_of_day))
    <> ":"
    <> padded c.minute_of_hour
    <> (if ltb c.hour_of_day 12 then "am" else "pm")

-- The layout "Jan 02, 2006 at 3:04 PM"
unfoldable pub show_long : Clock → String
unfolding month_name of_int
show_long c =
    month_name c.date.month
    <> " "
    <> padded c.date.day
    <> ", "
    <> year_text c.date.year
    <> " at "
    <> of_int (pos (hour12 c.hour_of_day))
    <> ":"
    <> padded c.minute_of_hour
    <> (if ltb c.hour_of_day 12 then " AM" else " PM")

-- The layout "Jan 2, 2006 3:04 PM"
unfoldable pub show_in_email : Clock → String
unfolding month_name of_int
show_in_email c =
    month_name c.date.month
    <> " "
    <> of_int (pos c.date.day)
    <> ", "
    <> year_text c.date.year
    <> " "
    <> of_int (pos (hour12 c.hour_of_day))
    <> ":"
    <> padded c.minute_of_hour
    <> (if ltb c.hour_of_day 12 then " AM" else " PM")

-- `t.UTC().Format(time.RFC3339)`, in the years with four digits.
unfoldable pub show_rfc3339 : Time → String
unfolding of_int
show_rfc3339 t =
    let c = clock_of t in
    year_text c.date.year
    <> "-"
    <> padded c.date.month
    <> "-"
    <> padded c.date.day
    <> "T"
    <> padded c.hour_of_day
    <> ":"
    <> padded c.minute_of_hour
    <> ":"
    <> padded (t / second % 60)
    <> "Z"

parse_local_test : parse_local "2026-02-30T9:05" ≡ none
unfolding parse_local scan_clock in_range
parse_local_test = refl

show_rfc3339_test :
    show_rfc3339 ((31 * 24 + 13) * 60 * minute + 5 * second) ≡ "0000-02-01T13:00:05Z"
unfolding show_rfc3339 clock_of date_of
show_rfc3339_test = refl
