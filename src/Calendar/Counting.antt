-- ===== src/Calendar/Counting.antt =====
-- Days into years, months and days of the month, and back, in the Gregorian calendar.
use air_cover.Base.{
  ℕ, zero, suc, ◌+◌, ◌-◌, ◌%◌, ◌<◌, ◌≤◌, ◌≡◌, ◌∙◌, ap, Bool, not, ◌&&◌, ◌||◌, ◌==◌, nat_eq, ltb,
  if◌then◌else◌, arith,
}
use native.Mathlib.Nat.{add-zero}

pub record Date : Type 0 where
  pub year : ℕ
  pub month : ℕ
  pub day : ℕ

abbrev pub is_leap : ℕ → Bool
is_leap y = y % 4 == 0 && (not (y % 100 == 0) || y % 400 == 0)

abbrev pub year_length : ℕ → ℕ
year_length y = if is_leap y then 366 else 365

-- `daysIn`
abbrev pub month_length : ℕ → ℕ → ℕ
month_length y m =
    if m == 2
    then if is_leap y then 29 else 28
    else if m == 4 || m == 6 || m == 9 || m == 11
    then 30
    else 31

-- Consecutive periods of different lengths: the days in the `n` periods from the `k`-th on, and the
-- period that a day falls into, with the day's number in it. The fuel is a number of periods.
module _ (period : ℕ → ℕ) where
  unfoldable pub span : ℕ → ℕ → ℕ
  span k zero = 0
  span k (suc n) = period k + span (suc k) n

  unfoldable pub locate : ℕ → ℕ → ℕ → ℕ × ℕ
  locate zero k day = (k, day)
  locate (suc fuel) k day =
      let later = locate fuel (suc k) (day - period k) in
      if ltb day (period k) then (k, day) else later

  locate-later :
      (fuel k day rest : ℕ)
      → day ≡ period k + rest
      → locate (suc fuel) k day ≡ locate fuel (suc k) rest
  unfolding locate
  locate-later fuel k day rest e = ground arith

  -- A day is found in the period that it was counted from.
  pub locate-span :
      (fuel n k day : ℕ)
      → n < fuel
      → day < period (k + n)
      → locate fuel k (span k n + day) ≡ (k + n, day)
  unfolding span locate
  locate-span zero n k day h d = absurd (omega arith)
  locate-span (suc fuel) zero k day h d = ground arith
  locate-span (suc fuel) (suc n) k day h d =
      let day_in : day < period (suc k + n) = rw (suc-swap) d in
      locate-later fuel k (period k + span (suc k) n + day) (span (suc k) n + day) (omega arith)
      ∙ locate-span fuel n (suc k) day (omega arith) day_in
      ∙ ap (λ (m : ℕ). (m, day)) suc-swap
    where
      suc-swap : suc k + n ≡ k + suc n
      suc-swap = omega arith

  -- A period lies within any count that goes beyond it.
  pub span-le : (n all k : ℕ) → n < all → span k n + period (k + n) ≤ span k all
  unfolding span
  span-le n zero k h = absurd (omega arith)
  span-le zero (suc all) k h = rw add-zero (omega arith)
  span-le (suc n) (suc all) k h =
      let e : k + suc n ≡ suc k + n = omega arith in
      rw e (omega (arith, span-le n all (suc k) (omega arith)))

-- The number of a day, from 1 January of the year 0 on.
unfoldable pub days_of : Date → ℕ
unfolding span
days_of d = span year_length 0 d.year + (span (month_length d.year) 1 (d.month - 1) + (d.day - 1))

abbrev pub of_year : ℕ × ℕ → Date
of_year (y, rest) =
    let (m, day) = locate (month_length y) 12 1 rest in
    record { year = y; month = m; day = suc day }

-- The date of a day: of its year, then of its month.
unfoldable pub date_of : ℕ → Date
unfolding locate
date_of n = of_year (locate year_length (suc n) 0 n)
