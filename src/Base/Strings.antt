-- ===== src/Base/Strings.antt =====
-- Searching and cutting texts, as Go's `strings` does, by single ASCII separators. `equal_fold` is
-- stated on the ASCII letters, as `lower` is.
use Prim.Native.Nat.{ℕ}
use Prim.Native.Char.{code}
use Prim.Native.Char
use Prim.Native.String.{String, [], ◌∷◌}
use mathlib.Core.Bool.{Bool, true, false, ◌&&◌, ◌||◌}
use mathlib.Core.Path.{◌≡◌, refl}
use mathlib.Core.Option.{Option, none, some}
use mathlib.Core.List.{List}
use air_cover.Base.Tests.{nat_beq, if◌then◌else◌, ◌==◌, string_eq}
use air_cover.Base.Text.{lower}

-- `strings.HasPrefix(s, p)`, with the prefix first.
unfoldable pub has_prefix : String → String → Bool
has_prefix [] s = true
has_prefix (c ∷ p) [] = false
has_prefix (c ∷ p) (d ∷ s) = nat_beq (code c) (code d) && has_prefix p s

-- `strings.Contains(s, p)`
unfoldable pub contains : String → String → Bool
unfolding has_prefix
contains p [] = has_prefix p []
contains p (c ∷ s) = has_prefix p (c ∷ s) || contains p s

-- `strings.EqualFold`
unfoldable pub equal_fold : String → String → Bool
unfolding lower
equal_fold s t = lower s == lower t

abbrev push : Char.Char → List String → List String
push c List.[] = List.◌∷◌ (c ∷ []) List.[]
push c (List.◌∷◌ p ps) = List.◌∷◌ (c ∷ p) ps

-- `strings.Split` at a separator of one character.
unfoldable pub split_on : ℕ → String → List String
split_on sep [] = List.◌∷◌ "" List.[]
split_on sep (c ∷ s) =
    let rest = split_on sep s in if nat_beq (code c) sep then List.◌∷◌ "" rest else push c rest

-- The text before the first separator, or all of it.
unfoldable pub until : ℕ → String → String
until sep [] = []
until sep (c ∷ s) = let rest = until sep s in if nat_beq (code c) sep then [] else c ∷ rest

-- The text behind the first separator, if there is one.
unfoldable pub behind : ℕ → String → Option String
behind sep [] = none
behind sep (c ∷ s) = let rest = behind sep s in if nat_beq (code c) sep then some s else rest

-- `strings.Trim(s, "[]")`
abbrev is_bracket : ℕ → Bool
is_bracket c = nat_beq c 91 || nat_beq c 93

trim_left : String → String
trim_left [] = []
trim_left (c ∷ s) = let rest = trim_left s in if is_bracket (code c) then rest else c ∷ s

keep_char : Char.Char → String → String
keep_char c [] = if is_bracket (code c) then [] else c ∷ []
keep_char c (d ∷ s) = c ∷ d ∷ s

trim_right : String → String
unfolding keep_char
trim_right [] = []
trim_right (c ∷ s) = keep_char c (trim_right s)

unfoldable pub trim_brackets : String → String
unfolding trim_left trim_right
trim_brackets s = trim_right (trim_left s)

split_on_test : split_on 44 "a,,b" ≡ List.◌∷◌ "a" (List.◌∷◌ "" (List.◌∷◌ "b" List.[]))
unfolding split_on
split_on_test = refl

contains_test : contains "json" "application/json; q=1" ≡ true
unfolding contains
contains_test = refl

behind_test : behind 60 "see <x>" ≡ some "x>"
unfolding behind
behind_test = refl

trim_brackets_test : trim_brackets "[::1]" ≡ "::1"
unfolding trim_brackets
trim_brackets_test = refl
