-- ===== src/Calendar/RoundTrip.antt =====
-- A time that was read from a form has the date and the clock time that the form said.
use air_cover.Base.{
  ℕ, zero, suc, ◌+◌, ◌-◌, ◌*◌, ◌/◌, ◌%◌, ◌<◌, ◌≤◌, ◌≡◌, refl, ◌∙◌, ap, String, true, Option, none,
  some, arith,
}
use air_cover.Domain.{Time, minute}
use air_cover.Calendar.{
  ◌>>=◌, Clock, is_valid_clock, instant, clock_of, scan_clock, in_range, parse_local,
}
use air_cover.Calendar.Counting.{
  Date, year_length, month_length, span, span-le, locate-span, days_of, date_of, of_year,
}

year_length-pos : (y : ℕ) → 1 ≤ year_length y
year_length-pos y = ground arith

year-le-span : (k n : ℕ) → n ≤ span year_length k n
unfolding span
year-le-span k zero = omega arith
year-le-span k (suc n) = omega (arith, year_length-pos k, year-le-span (suc k) n)

months_of_year : (y : ℕ) → span (month_length y) 1 12 ≡ year_length y
unfolding span
months_of_year y = ground arith

pub record IsDate (d : Date) : Type 0 where
  pub month_from : 1 ≤ d.month
  pub month_to : d.month ≤ 12
  pub day_from : 1 ≤ d.day
  pub day_to : d.day ≤ month_length d.year d.month

-- The day's number within its year.
abbrev day_of_year : Date → ℕ
day_of_year d = span (month_length d.year) 1 (d.month - 1) + (d.day - 1)

date-within-year : (d : Date) → IsDate d → day_of_year d < year_length d.year
date-within-year d v =
    let e : 1 + (d.month - 1) ≡ d.month = omega arith in
    let month_in = rw e at (span-le (month_length d.year) (d.month - 1) 12 1 (omega arith)) in
    omega (arith, months_of_year d.year, month_in)

in_month : (d : Date) → IsDate d → of_year (d.year, day_of_year d) ≡ d
in_month d v =
    let e : 1 + (d.month - 1) ≡ d.month = omega arith in
    let here : d.day - 1 < month_length d.year (1 + (d.month - 1)) = rw e (omega arith) in
    ap (λ (r : ℕ × ℕ). date (d.year) r)
      (locate-span (month_length d.year) 12 (d.month - 1) 1 (d.day - 1) (omega arith) here)
    ∙ (ground arith)
  where
    date : ℕ → ℕ × ℕ → Date
    date y r = record { year = y; month = r.0; day = suc r.1 }

-- The date of the day that a date stands for is the date.
date_of-days_of : (d : Date) → IsDate d → date_of (days_of d) ≡ d
unfolding date_of days_of
date_of-days_of d v =
    let n = days_of d in
    let e : 0 + d.year ≡ d.year = omega arith in
    let within = date-within-year d v in
    let short : d.year < suc n = omega (arith, year-le-span 0 d.year) in
    let fits : day_of_year d < year_length (0 + d.year) = rw e within in
    ap of_year (locate-span year_length (suc n) d.year 0 (day_of_year d) short fits)
    ∙ ap (λ y. of_year (y, day_of_year d)) e
    ∙ in_month d v

pub record IsClock (c : Clock) : Type 0 where
  pub date_ok : IsDate c.date
  pub hour_ok : c.hour_of_day < 24
  pub minute_ok : c.minute_of_hour < 60

is_valid_clock-IsClock : (c : Clock) → is_valid_clock c ≡ true → IsClock c
is_valid_clock-IsClock c h = ground arith

abbrev clock : Date → ℕ → ℕ → Clock
clock d h m = record { date = d; hour_of_day = h; minute_of_hour = m }

clock_of-instant : (c : Clock) → IsClock c → clock_of (instant c) ≡ c
unfolding clock_of instant
clock_of-instant c v =
    let days = days_of c.date in
    let minutes = (days * 24 + c.hour_of_day) * 60 + c.minute_of_hour in
    let whole : minutes * minute / minute ≡ minutes = omega arith in
    let on_day : minutes / 60 / 24 ≡ days = omega arith in
    let at_hour : minutes / 60 % 24 ≡ c.hour_of_day = omega arith in
    let at_minute : minutes % 60 ≡ c.minute_of_hour = omega arith in
    rw whole (
      rw (on_day, at_hour, at_minute)
        (ap (λ d. clock d c.hour_of_day c.minute_of_hour) (date_of-days_of c.date v.date_ok)))

instant-mod_minute : (c : Clock) → instant c % minute ≡ 0
unfolding instant
instant-mod_minute c = omega arith

in_range-clock_of :
    (c : Clock) (t : Time)
    → in_range c ≡ some t
    → (c ≡ clock_of t) × IsClock (clock_of t) × (t % minute ≡ 0)
unfolding in_range
in_range-clock_of c t h =
    let valid : is_valid_clock c ≡ true = ground arith in
    let e : t ≡ instant c = ground arith in
    let ok = is_valid_clock-IsClock c valid in
    rw (e, clock_of-instant c ok) (refl, ok, instant-mod_minute c)

-- A text that is read as an instant has the layout of a date and a time of day, its fields are in
-- range, the instant is a whole minute, and the calendar shows it with the very fields of the text.
pub parse_local-clock_of :
    (s : String) (t : Time)
    → parse_local s ≡ some t
    → (scan_clock s ≡ some (clock_of t)) × IsClock (clock_of t) × (t % minute ≡ 0)
unfolding parse_local
parse_local-clock_of s t h = go (scan_clock s) h
  where
    go :
        (o : Option Clock)
        → (o >>= in_range) ≡ some t
        → (o ≡ some (clock_of t)) × IsClock (clock_of t) × (t % minute ≡ 0)
    go none bad = cc bad
    go (some c) e = let (same, ok, whole) = in_range-clock_of c t e in (ap some same, ok, whole)
