-- ===== src/Json.antt =====
-- Values of JSON, as `encoding/json` hands them to the program: `null` where a value may be missing,
-- and a number as the integer that `int(v)` makes of the float64. What the decoder makes of a text is
-- an `Option`, `none` for its syntax error.
use air_cover.Base.{ℤ, String, Bool, Option, none, some, ◌==◌, string_eq, if◌then◌else◌}
use air_cover.Base.Strings.{equal_fold}

mutual
  pub data Json : Type 0 where
    null : Json
    bool : Bool → Json
    num : ℤ → Json
    str : String → Json
    arr : Elems → Json
    obj : Fields → Json

  pub data Elems : Type 0 where
    nil : Elems
    cons : Json → Elems → Elems

  pub data Fields : Type 0 where
    end : Fields
    field : String → Json → Fields → Fields

abbrev or_else : Option Json → Option Json → Option Json
or_else none o = o
or_else (some j) o = some j

-- `m[key]` on a map that was decoded: of two fields with one key the later counts.
unfoldable pub get_field : String → Fields → Option Json
get_field key end = none
get_field key (field k v fields) =
    or_else (get_field key fields) (if k == key then some v else none)

-- A field of a struct with a JSON tag, set field by field: a key matches without regard to case, and
-- `read` says what a value makes of what is there, `none` if its type does not fit.
module _ {A : Type 0} (read : Json → A → Option A) (tag : String) where
  abbrev set_from : Option A → (A → Option A) → Option A
  set_from none rest = none
  set_from (some new) rest = rest new

  unfoldable pub struct_field : Fields → A → Option A
  struct_field end old = some old
  struct_field (field k v fields) old =
      if equal_fold k tag
      then set_from (read v old) (struct_field fields)
      else struct_field fields old

-- A field of type `string`, which `null` leaves as it is.
abbrev pub read_string : Json → String → Option String
read_string (str s) old = some s
read_string null old = some old
read_string v old = none

-- A pointer, which `null` makes nil.
abbrev pub read_string_pointer : Json → Option String → Option (Option String)
read_string_pointer (str s) old = some (some s)
read_string_pointer null old = some none
read_string_pointer v old = none

abbrev pub read_bool_pointer : Json → Option Bool → Option (Option Bool)
read_bool_pointer (bool b) old = some (some b)
read_bool_pointer null old = some none
read_bool_pointer v old = none

-- Decoding into a struct: of `null` nothing is set, and anything but an object is an error.
abbrev pub as_struct : Json → Option Fields
as_struct null = some end
as_struct (obj fields) = some fields
as_struct v = none
