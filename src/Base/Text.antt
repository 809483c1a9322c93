-- ===== src/Base/Text.antt =====
-- What the program uses of Go's `strings` and `strconv`. Texts are the native strings, whose `len`
-- counts bytes of UTF-8 as Go's does. `lower` and `trim` are stated on the ASCII letters and the
-- ASCII white space, and leave every other character alone.
use Prim.Native.Nat.{ℕ, zero, suc, ◌+◌, ◌-◌, ◌*◌, ◌/◌, ◌%◌, ◌^◌}
use Prim.Native.Char.{Char, code}
use Prim.Native.String.{String, [], ◌∷◌, ◌++◌, compare, slice}
use mathlib.Core.Bool.{Bool, true, false, ◌&&◌, ◌||◌}
use mathlib.Core.Option.{Option, none, some}
use mathlib.Core.Path.{◌≡◌, refl}
use text.Mathlib.Text.{is_lt}
use air_cover.Base.Tests.{ltb, leb, nat_beq, if◌then◌else◌}
use air_cover.Base.Int.{ℤ, pos, negsuc}

-- Concatenation of texts.
infixr 66 ◌<>◌
abbrev pub ◌<>◌ : String → String → String
s <> t = s ++ t

-- `<` on Go strings: the order of the bytes, which for UTF-8 is that of the code points.
abbrev pub str_ltb : String → String → Bool
str_ltb s t = is_lt (compare s t)

-- The letter of the second text at the place of `c` in the first.
swap_letter : Char → String → String → Char
swap_letter c (a ∷ from) (b ∷ to) = if nat_beq (code c) (code a) then b else swap_letter c from to
swap_letter c _ _ = c

-- `strings.ToLower`
unfoldable pub lower : String → String
unfolding swap_letter
lower [] = []
lower (c ∷ s) = swap_letter c "ABCDEFGHIJKLMNOPQRSTUVWXYZ" "abcdefghijklmnopqrstuvwxyz" ∷ lower s

is_space : ℕ → Bool
is_space c = nat_beq c 32 || (leb 9 c && leb c 13)

trim_left : String → String
unfolding is_space
trim_left [] = []
trim_left (c ∷ s) = let rest = trim_left s in if is_space (code c) then rest else c ∷ s

keep_char : Char → String → String
unfolding is_space
keep_char c [] = if is_space (code c) then [] else c ∷ []
keep_char c (d ∷ s) = c ∷ d ∷ s

trim_right : String → String
unfolding keep_char
trim_right [] = []
trim_right (c ∷ s) = keep_char c (trim_right s)

-- `strings.TrimSpace`
unfoldable pub trim : String → String
unfolding trim_left trim_right
trim s = trim_right (trim_left s)

-- `strings.TrimLeft(s, "/")`
unfoldable pub trim_slashes_left : String → String
trim_slashes_left [] = []
trim_slashes_left (c ∷ s) =
    let rest = trim_slashes_left s in if nat_beq (code c) 47 then rest else c ∷ s

keep_unless_slash : Char → String → String
keep_unless_slash c [] = if nat_beq (code c) 47 then [] else c ∷ []
keep_unless_slash c (d ∷ s) = c ∷ d ∷ s

-- `strings.TrimRight(s, "/")`
unfoldable pub trim_slashes_right : String → String
unfolding keep_unless_slash
trim_slashes_right [] = []
trim_slashes_right (c ∷ s) = keep_unless_slash c (trim_slashes_right s)

-- The digits of a number, `none` at any other character.
digits_from : ℕ → String → Option ℕ
digits_from n [] = some n
digits_from n (c ∷ s) =
    let rest = digits_from (n * 10 + (code c - b'0')) s in
    if leb b'0' (code c) && leb (code c) b'9' then rest else none

digits? : String → Option ℕ
unfolding digits_from
digits? [] = none
digits? (c ∷ s) = digits_from 0 (c ∷ s)

-- A magnitude as an `int`, refused beyond 64 bits.
signed : Bool → Option ℕ → Option ℤ
signed negative none = none
signed false (some n) = if ltb n (2 ^ 63) then some (pos n) else none
signed true (some n) =
    if nat_beq n 0 then some (pos 0) else if leb n (2 ^ 63) then some (negsuc (n - 1)) else none

-- `strconv.Atoi`, with `none` for its error: an optional sign, digits, and 64 bits.
unfoldable pub to_int? : String → Option ℤ
unfolding digits? signed
to_int? [] = none
to_int? (c ∷ s) =
    if nat_beq (code c) b'-'
    then signed true (digits? s)
    else if nat_beq (code c) b'+'
    then signed false (digits? s)
    else signed false (digits? (c ∷ s))

-- The digits of a number, on as much fuel as the number itself.
digits_of : ℕ → ℕ → String
digits_of zero n = []
digits_of (suc fuel) n =
    let rest = digits_of fuel (n / 10) in
    let digit = slice "0123456789" (n % 10) (n % 10 + 1) in
    if ltb n 10 then digit else rest ++ digit

-- The verb %d of `fmt`.
unfoldable pub of_int : ℤ → String
unfolding digits_of
of_int (pos n) = digits_of (n + 1) n
of_int (negsuc n) = "-" ++ digits_of (n + 2) (n + 1)

of_int_prints : of_int (negsuc 1029) ≡ "-1030"
unfolding of_int
of_int_prints = refl

to_int?_reads : to_int? "-12" ≡ some (negsuc 11)
unfolding to_int?
to_int?_reads = refl

to_int?_refuses : to_int? "9223372036854775808" ≡ none
unfolding to_int?
to_int?_refuses = refl

lower_and_trim : lower (trim " A bC  ") ≡ "a bc"
unfolding lower trim
lower_and_trim = refl
