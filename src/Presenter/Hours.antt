-- ===== src/Presenter/Hours.antt =====
-- A duration of an hour or more is shown in hundredths of an hour, without trailing zeros.
use Prim.Native.Char.{Char}
use mathlib.Core.Path.{subst}
use native.Mathlib.Nat.{mod-lt, div-add-mod', two-pow-succ}
use text.Mathlib.Text.{◌==◌ as str_eq}
use text.Mathlib.TextEquality.{eq_iff}
use text.Mathlib.TextLemmas.{nil-append, cons-append}
use air_cover.Base.{
  ℕ, zero, suc, ◌+◌, ◌*◌, ◌/◌, ◌%◌, ◌^◌, ◌<◌, ◌≤◌, pos, String, ◌<>◌, Bool, true, false, ◌&&◌, ◌≡◌,
  refl, sym, ◌∙◌, ap, ◌==◌, nat_eq, ltb, if◌then◌else◌, of_int, arith, Bool-cases, inl, inr,
}
use air_cover.Domain.{hour}
use air_cover.Presenter.{
  rounded, hours, trim_end, hundredths, two_decimals, format_hours, format_duration,
}

-- A number of hundredths as a decimal number with no zero at its end.
unfoldable pub decimal : ℕ → String
decimal h =
    of_int (pos (h / 100))
    <> (if h % 100 == 0
        then ""
        else if h % 10 == 0
        then "." <> of_int (pos (h % 100 / 10))
        else "." <> of_int (pos (h % 100 / 10)) <> of_int (pos (h % 10)))

abbrev has_text : String → Bool
has_text String.[] = false
has_text (String.◌∷◌ c s) = true

abbrev put : Char → String → String
put c s = String.◌∷◌ c s

trim_end-append :
    (c : ℕ) (s t : String) → has_text t ≡ true → trim_end c (s <> t) ≡ s <> trim_end c t
unfolding trim_end
trim_end-append c String.[] t h = rw (nil-append t, nil-append (trim_end c t)) refl
trim_end-append c (String.◌∷◌ x String.[]) String.[] h = cc h
trim_end-append c (String.◌∷◌ x String.[]) (String.◌∷◌ y t) h =
    rw
      (
        cons-append x "" (put y t),
        nil-append (put y t),
        cons-append x "" (trim_end c (put y t)),
        nil-append (trim_end c (put y t)),
      )
      refl
trim_end-append c (String.◌∷◌ x (String.◌∷◌ y s)) t h =
    rw (cons-append x (put y s) t, cons-append y s t)
      (ap (put x)
          (ap (trim_end c) (sym (cons-append y s t)) ∙ trim_end-append c (String.◌∷◌ y s) t h)
        ∙ sym (cons-append x (put y s) (trim_end c t)))

-- What stands behind the whole hours, before and after the three cuts.
abbrev tail : ℕ → String
tail r = "." <> of_int (pos (r / 10)) <> of_int (pos (r % 10))

abbrev cut : ℕ → String
cut r = if r == 0 then "" else if r % 10 == 0 then "." <> of_int (pos (r / 10)) else tail r

abbrev once : ℕ → String
once r = trim_end b'0' (tail r)

abbrev twice : ℕ → String
twice r = trim_end b'0' (once r)

-- A test passes on each of the numbers from one on, as many as are asked for.
passes : (ℕ → Bool) → ℕ → ℕ → Bool
passes test from zero = true
passes test from (suc more) = test from && passes test (suc from) more

passes-at :
    (test : ℕ → Bool) (from more r : ℕ)
    → passes test from more ≡ true
    → from ≤ r
    → r < from + more
    → test r ≡ true
unfolding passes
passes-at test from zero r all low high = absurd (omega arith)
passes-at test from (suc more) r all low high = ground (arith, passes-at test (suc from) more r)

abbrev is_cut : ℕ → Bool
is_cut r =
    (has_text (tail r) && has_text (once r))
    && (has_text (twice r) && str_eq (trim_end b'.' (twice r)) (cut r))

cuts : passes is_cut 0 100 ≡ true
unfolding passes trim_end of_int
cuts = refl

record Cut (r : ℕ) : Type 0 where
  before : has_text (tail r) ≡ true
  after_one : has_text (once r) ≡ true
  after_two : has_text (twice r) ≡ true
  at_end : trim_end b'.' (twice r) ≡ cut r

cut_lem : (r : ℕ) → r < 100 → Cut r
cut_lem r h = parts (passes-at is_cut 0 100 r cuts (omega arith) h)
  where
    parts : is_cut r ≡ true → Cut r
    parts e = record {
      before = ground arith;
      after_one = ground arith;
      after_two = ground arith;
      at_end = (eq_iff (trim_end b'.' (twice r)) (cut r)).0 (ground arith);
    }

cut_off :
    (whole : String) (r : ℕ)
    → r < 100
    → trim_end b'.' (trim_end b'0' (trim_end b'0' (whole <> tail r))) ≡ whole <> cut r
cut_off whole r h =
    let k = cut_lem r h in
    rw (trim_end-append b'0' whole (tail r) k.before) (
      rw (trim_end-append b'0' whole (once r) k.after_one)
        (rw (trim_end-append b'.' whole (twice r) k.after_two) (ap (λ t. whole <> t) k.at_end)))

two_decimals-tail : (h : ℕ) → two_decimals h ≡ of_int (pos (h / 100)) <> tail (h % 100)
unfolding two_decimals
two_decimals-tail h = let e : h % 100 % 10 ≡ h % 10 = omega arith in rw e refl

decimal-cut : (h : ℕ) → decimal h ≡ of_int (pos (h / 100)) <> cut (h % 100)
unfolding decimal
decimal-cut h = let e : h % 100 % 10 ≡ h % 10 = omega arith in rw e refl

format_hours-decimal : (n : ℕ) → format_hours n ≡ decimal (hundredths n) <> " hours"
unfolding format_hours
format_hours-decimal n =
    let h = hundredths n in
    rw (two_decimals-tail h, decimal-cut h)
      (ap (λ t. t <> " hours") (cut_off (of_int (pos (h / 100))) (h % 100) (omega arith)))

two_pow-pos : (s : ℕ) → 0 < 2 ^ s
two_pow-pos zero = omega arith
two_pow-pos (suc s) = omega (arith, two-pow-succ s, two_pow-pos s)

next-times : (q b : ℕ) → (q + 1) * b ≡ q * b + b
next-times q b = omega arith

-- What rounding makes of `whole * b + rest`, within half of `b`.
rounded-near :
    (whole rest b : ℕ)
    → rest < b
    → (2 * (rounded whole rest b * b) ≤ 2 * (whole * b + rest) + b)
      × (2 * (whole * b + rest) ≤ 2 * (rounded whole rest b * b) + b)
rounded-near whole rest b small = elim (Bool-cases (ltb (2 * rest) b)) [
  | inl below ↦ rw below (omega arith, ground arith)
  | inr not_below ↦ elim (Bool-cases (ltb b (2 * rest))) [
    | inl above ↦ rw (not_below, above, next-times whole b) (ground arith, omega arith)
    | inr not_above ↦
        let middle : 2 * rest ≡ b = ground arith in
        elim (Bool-cases (whole % 2 == 0)) [
          | inl even ↦
              let stays : whole + whole % 2 ≡ whole = ground arith in
              rw (not_below, not_above, stays) (omega arith, omega arith)
          | inr odd ↦
              let goes : whole + whole % 2 ≡ whole + 1 = ground arith in
              rw (not_below, not_above, goes, next-times whole b) (omega arith, omega arith)
        ]
  ]
]

-- A duration of an hour or more is shown as a decimal number of hours with at most two decimals, no
-- zero at the end of the decimals and no point without decimals, which is within half a hundredth
-- of the `float64` that `Hours` returns.
pub format_duration-nearest :
    (n : ℕ)
    → hour ≤ n
    → let f = hours n in
      (h : ℕ) × (format_duration (pos n) ≡ decimal h <> " hours")
      × (2 * (h * 2 ^ f.scale) ≤ 2 * (f.mantissa * 100) + 2 ^ f.scale)
      × (2 * (f.mantissa * 100) ≤ 2 * (h * 2 ^ f.scale) + 2 ^ f.scale)
unfolding format_duration hundredths
format_duration-nearest n long =
    let not_short : ltb n hour ≡ false = ground arith in
    let f = hours n in
    let near =
      rounded-near (f.mantissa * 100 / 2 ^ f.scale) (f.mantissa * 100 % 2 ^ f.scale) (2 ^ f.scale)
        (mod-lt (f.mantissa * 100) (two_pow-pos f.scale)) in
    let whole = div-add-mod' (f.mantissa * 100) (2 ^ f.scale) in
    (
      hundredths n,
      rw not_short (format_hours-decimal n),
      subst (λ x. 2 * (hundredths n * 2 ^ f.scale) ≤ 2 * x + 2 ^ f.scale) whole near.0,
      subst (λ x. 2 * x ≤ 2 * (hundredths n * 2 ^ f.scale) + 2 ^ f.scale) whole near.1,
    )
