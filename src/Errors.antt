-- ===== src/Errors.antt =====
-- internal/apperrors/errors.go, the sentinel errors of the services, and the parts of Go's
-- `errors` and `fmt` that the program uses on them. A call that may fail returns a `Result`; one
-- that also reads or writes state is an `Exec`, and what was written before an error stays written.
pub mod Steps
use air_cover.Base.{ℕ, String, ◌≡◌, refl, Bool, true, false, ◌==◌, ◌<>◌, nat_eq}

-- The error values that are compared by identity. The first four are those of apperrors.
pub data Sentinel : Type 0 where
  invalid not_found conflict forbidden : Sentinel
  catalog_failed invalid_magic_link user_already_exists no_catalog_source : Sentinel

-- `opaque` is any other error, a driver's for one; `wrap before e after` is `fmt.Errorf` with the
-- verb %w for `e` between the two texts.
pub data Error : Type 0 where
  sentinel : Sentinel → Error
  opaque : String → Error
  wrap : String → Error → String → Error

abbrev index : Sentinel → ℕ
index invalid = 0
index not_found = 1
index conflict = 2
index forbidden = 3
index catalog_failed = 4
index invalid_magic_link = 5
index user_already_exists = 6
index no_catalog_source = 7

-- `errors.Is(e, target)`: the target is met on the way down the wrapped errors.
unfoldable pub is : Error → Sentinel → Bool
is (sentinel s) target = index s == index target
is (opaque text) target = false
is (wrap before e after) target = is e target

abbrev text_of : Sentinel → String
text_of invalid = "invalid input"
text_of not_found = "not found"
text_of conflict = "conflict"
text_of forbidden = "forbidden"
text_of catalog_failed = "show catalog error"
text_of invalid_magic_link = "invalid magic link"
text_of user_already_exists = "user already exists"
text_of no_catalog_source = "spinitron catalog source is not configured"

-- `err.Error()`
unfoldable pub message : Error → String
message (sentinel s) = text_of s
message (opaque text) = text
message (wrap before e after) = before <> message e <> after

pub data Result {ℓ} (A : Type ℓ) : Type ℓ where
  ok : A → Result A
  err : Error → Result A

abbrev pub Done : Type 0
Done = Result (Unit {0})

-- The error of a nil receiver of a sentinel: shorthands for `return apperrors.ErrX`.
abbrev pub fail {ℓ} : {A : Type ℓ} → Sentinel → Result A
fail s = err (sentinel s)

abbrev pub Exec : Type 0 → Type 0 → Type 0
Exec W A = W → Result A × W

abbrev pub on_error : {A : Type 0} → (Error → Error) → Result A → Result A
on_error f (ok a) = ok a
on_error f (err e) = err (f e)

module _ {W A : Type 0} where
  unfoldable pub pure : A → Exec W A
  pure a w = (ok a, w)

  unfoldable pub raise : Error → Exec W A
  raise e w = (err e, w)

  unfoldable pub lift : Result A → Exec W A
  lift r w = (r, w)

  -- `if err != nil { return f(err) }`
  unfoldable pub map_error : (Error → Error) → Exec W A → Exec W A
  map_error f m w = let (r, w') = m w in (on_error f r, w')

module _ {W A B : Type 0} where
  abbrev pub continue : Result A → (A → Exec W B) → Exec W B
  continue (ok a) f w = f a w
  continue (err e) f w = (err e, w)

  infixl 5 ◌>>=◌ ◌>>◌
  -- Opening this opens `pure`, `raise`, `lift` and `map_error` too.
  unfoldable pub ◌>>=◌ : Exec W A → (A → Exec W B) → Exec W B
  unfolding pure raise lift map_error
  ◌>>=◌ m f w = let (r, w') = m w in continue r f w'

  abbrev pub ◌>>◌ : Exec W A → Exec W B → Exec W B
  m >> k = m >>= λ _. k

wrapped_is : is (wrap "failed: " (wrap "" (sentinel not_found) ": x") "") not_found ≡ true
unfolding is
wrapped_is = refl
