-- ===== src/Errors/Steps.antt =====
-- Reasoning about calls in sequence: what a success says of each step, and what all steps keep.
use air_cover.Base.{◌≡◌, refl, Bool, true, false, if◌then◌else◌}
use air_cover.Errors.{
  Error, Result, ok, err, Exec, continue, ◌>>=◌, pure, raise, lift, map_error, on_error,
}

continue-ok :
    {W A B : Type 0} (r : Result A) (f : A → Exec W B) (w : W) (b : B)
    → (continue r f w).0 ≡ ok b
    → (a : A) × (r ≡ ok a) × (continue r f w ≡ f a w)
continue-ok (ok a) f w b h = (a, refl, refl)
continue-ok (err e) f w b h = cc h

-- A sequence that succeeds went through both parts.
pub >>=-ok :
    {W A B : Type 0} (m : Exec W A) (f : A → Exec W B) (w : W) (b : B)
    → ((m >>= f) w).0 ≡ ok b
    → (a : A) × ((m w).0 ≡ ok a) × ((m >>= f) w ≡ f a (m w).1)
unfolding ◌>>=◌
>>=-ok m f w b h = continue-ok (m w).0 f (m w).1 b h

on_error-ok :
    {A : Type 0} (f : Error → Error) (r : Result A) (a : A) → on_error f r ≡ ok a → r ≡ ok a
on_error-ok f (ok a) b h = h
on_error-ok f (err e) b h = cc h

pub map_error-ok :
    {W A : Type 0} (f : Error → Error) (m : Exec W A) (w : W) (a : A)
    → (map_error f m w).0 ≡ ok a
    → (m w).0 ≡ ok a
unfolding map_error
map_error-ok f m w a h = on_error-ok f (m w).0 a h

-- A predicate on the world that a call keeps, whether it succeeds or not.
pub record Stable {W A : Type 0} (P : W → Type 0) (m : Exec W A) : Type 0 where
  pub at : (w : W) → P w → P (m w).1

module _ {W A : Type 0} (P : W → Type 0) where
  pub pure-Stable : (a : A) → Stable P (pure {W = W} a)
  unfolding pure
  pure-Stable a = record { at = λ w h. h }

  pub raise-Stable : (e : Error) → Stable P (raise {W = W} {A = A} e)
  unfolding raise
  raise-Stable e = record { at = λ w h. h }

  pub lift-Stable : (r : Result A) → Stable P (lift {W = W} r)
  unfolding lift
  lift-Stable r = record { at = λ w h. h }

  pub if-Stable :
      (b : Bool) (m n : Exec W A) → Stable P m → Stable P n → Stable P (if b then m else n)
  if-Stable true m n hm hn = hm
  if-Stable false m n hm hn = hn

  pub map_error-Stable : (f : Error → Error) (m : Exec W A) → Stable P m → Stable P (map_error f m)
  unfolding map_error
  map_error-Stable f m h = record { at = h.at }

continue-Stable :
    {W A B : Type 0} (P : W → Type 0) (r : Result A) (f : A → Exec W B) (w : W)
    → ((a : A) → Stable P (f a))
    → P w
    → P (continue r f w).1
continue-Stable P (ok a) f w hf h = (hf a).at w h
continue-Stable P (err e) f w hf h = h

pub >>=-Stable :
    {W A B : Type 0} (P : W → Type 0) (m : Exec W A) (f : A → Exec W B)
    → Stable P m
    → ((a : A) → Stable P (f a))
    → Stable P (m >>= f)
unfolding ◌>>=◌
>>=-Stable P m f hm hf = record { at = λ w h. continue-Stable P (m w).0 f (m w).1 hf (hm.at w h) }

continue-at :
    {W A B : Type 0} (P : W → Type 0) (r : Result A) (f : A → Exec W B) (w : W)
    → P w
    → ((a : A) → r ≡ ok a → P (f a w).1)
    → P (continue r f w).1
continue-at P (ok a) f w h hf = hf a refl
continue-at P (err e) f w h hf = h

-- The same at one world, where the second part may use what the first returned.
pub >>=-at :
    {W A B : Type 0} (P : W → Type 0) (m : Exec W A) (f : A → Exec W B) (w : W)
    → P (m w).1
    → ((a : A) → (m w).0 ≡ ok a → P (f a (m w).1).1)
    → P ((m >>= f) w).1
unfolding ◌>>=◌
>>=-at P m f w h hf = continue-at P (m w).0 f (m w).1 h hf
