-- ===== src/SubRequests/Refinement/Rules.antt =====
-- How a use case meets its transition, one rule for each kind of step.
use air_cover.Base.{
  ℤ, ◌≡◌, refl, sym, ◌∙◌, ap, ◌⊎◌, inl, inr, Bool, true, false, none, some, arith, if◌then◌else◌,
}
use mathlib.Core.Path.{subst}
use air_cover.Errors.{
  Error, not_found, conflict, forbidden, sentinel, is, Result, Done, ok, err, fail, Exec, continue,
  on_error, ◌>>=◌, ◌>>◌, lift, map_error,
}
use air_cover.Domain.{SubRequest}
use air_cover.SubRequests.Service.{map_repository_error}
use air_cover.SubRequests.Refinement.Frame.{Keeps-Still}
use air_cover.SubRequests.Spec.{
  Row, Store, settle, found, IsOther, IsBroken, Keeps, Still, Landed, Realises,
}

-- Mapping the repository's errors changes none of them: its sentinels come bare.
pub map_repository_error-other : (e : Error) → IsOther e → map_repository_error e ≡ e
unfolding map_repository_error
map_repository_error-other e other = ground (arith, other.at not_found, other.at conflict)

found-ok : (row : Row) {sr : SubRequest} → ok sr ≡ found row → row ≡ some sr
found-ok none h = cc
found-ok (some sr) h = ground arith

found-err : (row : Row) {e : Error} → err e ≡ found row → (row ≡ none) × (e ≡ sentinel not_found)
found-err none h = (refl, ground arith)
found-err (some sr) h = ground arith

not_broken : {A : Type 0} {a : A} {bad : Error → Type 0} → IsBroken bad (ok a) → ⊥
not_broken (e, h, other, b) = cc

IsOther-of :
    {A : Type 0} {bad : Error → Type 0} {e : Error}
    → IsBroken {A = A} bad (err e)
    → IsOther e × bad e
IsOther-of {A} {bad} {e} (x, h, other, b) =
    let same : e ≡ x = ground arith in subst (λ e. IsOther e × bad e) (sym same) (other, b)

IsBroken-mapped :
    {A : Type 0} (B : Type 0) (bad : Error → Type 0) (e : Error)
    → IsBroken {A = A} bad (err e)
    → IsBroken {A = B} bad (err (map_repository_error e))
IsBroken-mapped B bad e b =
    (e, ap err (map_repository_error-other e (IsOther-of b).0), (IsOther-of b).0, (IsOther-of b).1)

pub IsBroken-from :
    {A : Type 0} {here bad : Error → Type 0} {r : Result A}
    → ((e : Error) → here e → bad e)
    → IsBroken here r
    → IsBroken bad r
IsBroken-from from (e, h, other, b) = (e, h, other, from e b)

module _ {W : Type 0} (view : W → Store) (IsFault : W → Error → Type 0) (id : ℤ)
    (f : Row → Result Row) (st : Store) (bad : Error → Type 0) where
  -- A refusal of the transition at this row.
  refused :
      (e : Error) (w : W)
      → f (st id) ≡ err e
      → view w ≡ st
      → Landed view IsFault id f st bad (err e, w)
  refused e w h v = inl (rw h refl, rw h v)

  -- Two transitions that agree at this row.
  pub Landed-of :
      (g : Row → Result Row) (p : Done × W)
      → f (st id) ≡ g (st id)
      → Landed view IsFault id g st bad p
      → Landed view IsFault id f st bad p
  Landed-of g p same (inl (h, hv)) =
      inl
        (h ∙ sym (ap (λ u. (settle id u st).0) same), hv ∙ sym (ap (λ u. (settle id u st).1) same))
  Landed-of g p same (inr b) = inr b

  -- The read at the start.
  pub Landed-get :
      (k : SubRequest → Exec W (Unit {0})) (r : Result SubRequest) (w : W)
      → (r ≡ found (st id)) ⊎ IsBroken bad r
      → Still view IsFault st bad w
      → f none ≡ fail not_found
      → ((sr : SubRequest) → st id ≡ some sr → Landed view IsFault id f st bad (k sr w))
      → Landed view IsFault id f st bad (continue (on_error map_repository_error r) k w)
  unfolding map_repository_error is
  Landed-get k (ok sr) w (inl h) v missing next = next sr (found-ok (st id) h)
  Landed-get k (ok sr) w (inr b) v missing next = absurd (not_broken b)
  Landed-get k (err e) w (inl h) v missing next =
      let (gone, which) = found-err (st id) h in
      rw which (refused (sentinel not_found) w (rw gone missing) v.0)
  Landed-get k (err e) w (inr b) v missing next = inr (IsBroken-mapped (Unit {0}) bad e b, v.0)

  -- A step that leaves the rows alone and returns.
  pub Landed-step :
      {A : Type 0} (m : Exec W A) (k : A → Exec W (Unit {0})) (w : W) (a : A)
      → Keeps view IsFault m
      → Still view IsFault st bad w
      → (m w).0 ≡ ok a
      → (Still view IsFault st bad (m w).1 → Landed view IsFault id f st bad (k a (m w).1))
      → Landed view IsFault id f st bad ((m >>= k) w)
  unfolding ◌>>=◌
  Landed-step m k w a km v returned next = rw returned (next (Keeps-Still km v))

  -- A test of the service itself.
  pub Landed-test :
      (b : Bool) (e : Error) (k : Exec W (Unit {0})) (w : W)
      → Still view IsFault st bad w
      → (b ≡ true → f (st id) ≡ err e)
      → (b ≡ false → Landed view IsFault id f st bad (k w))
      → Landed view IsFault id f st bad ((lift (if b then err e else ok tt) >> k) w)
  unfolding ◌>>=◌
  Landed-test true e k w v stop next = refused e w (stop refl) v.0
  Landed-test false e k w v stop next = next refl

  -- The authorizer's answer, which is a grant, a refusal or a failure.
  pub Landed-authorize :
      (allow : Bool) (m k : Exec W (Unit {0})) (w : W)
      → Keeps view IsFault m
      → Still view IsFault st bad w
      → ((m w).0 ≡ (if allow then ok tt else fail forbidden)) ⊎ IsBroken (IsFault w) (m w).0
      → (allow ≡ false → f (st id) ≡ fail forbidden)
      → (allow ≡ true
          → Still view IsFault st bad (m w).1
          → Landed view IsFault id f st bad (k (m w).1))
      → Landed view IsFault id f st bad ((m >> k) w)
  unfolding ◌>>=◌
  Landed-authorize true m k w km v (inl e) stop next = rw e (next refl (Keeps-Still km v))
  Landed-authorize false m k w km v (inl e) stop next =
      rw e (refused (sentinel forbidden) (m w).1 (stop refl) (km.at w ∙ v.0))
  Landed-authorize allow m k w km v (inr (e, h, other, b)) stop next =
      rw h (inr ((e, refl, other, v.1 e b), km.at w ∙ v.0))

  -- A write from rows and faults that are still those of the start.
  Landed-from :
      (g : Row → Result Row) (p : Done × W) {w : W}
      → Still view IsFault st bad w
      → Landed view IsFault id g (view w) (IsFault w) p
      → Landed view IsFault id g st bad p
  Landed-from g p (v, from) (inl h) = subst (λ u. Landed view IsFault id g u bad p) v (inl h)
  Landed-from g p (v, from) (inr (b, hv)) = inr (IsBroken-from from b, hv ∙ v)

  -- The write, and what follows it whatever the write has done.
  Landed-after_write :
      (g : Row → Result Row) (v : Row) (k : Exec W (Unit {0})) (r : Done) (w : W)
      → Keeps view IsFault k
      → (k w).0 ≡ ok tt
      → f (st id) ≡ ok v
      → g (st id) ≡ ok v
      → Landed view IsFault id g st bad (r, w)
      → Landed view IsFault id f st bad (continue (on_error map_repository_error r) (λ _. k) w)
  Landed-after_write g v k (ok x) w kk returns fv gv (inl (h, hv)) = inl (
    returns ∙ sym (ap (λ u. (settle id u st).0) fv),
    kk.at w ∙ hv ∙ ap (λ u. (settle id u st).1) (gv ∙ sym fv),
  )
  Landed-after_write g v k (ok x) w kk returns fv gv (inr (b, hv)) = absurd (not_broken b)
  Landed-after_write g v k (err e) w kk returns fv gv (inl (h, hv)) =
      let bad : err e ≡ ok tt = h ∙ ap (λ u. (settle id u st).0) gv in cc bad
  Landed-after_write g v k (err e) w kk returns fv gv (inr (b, hv)) =
      inr (IsBroken-mapped (Unit {0}) bad e b, hv)

  pub Landed-write :
      (g : Row → Result Row) (v : Row) (m k : Exec W (Unit {0})) (w : W)
      → Keeps view IsFault k
      → ((w' : W) → (k w').0 ≡ ok tt)
      → Still view IsFault st bad w
      → f (st id) ≡ ok v
      → g (st id) ≡ ok v
      → Realises view IsFault id g m
      → Landed view IsFault id f st bad ((map_error map_repository_error m >> k) w)
  unfolding ◌>>=◌
  Landed-write g v m k w kk returns same fv gv realises =
      Landed-after_write g v k (m w).0 (m w).1 kk (returns (m w).1) fv gv
        (Landed-from g (m w) same (realises.at w))

  Landed-after_last :
      (g : Row → Result Row) (v : Row) (r : Done) (w : W)
      → f (st id) ≡ ok v
      → g (st id) ≡ ok v
      → Landed view IsFault id g st bad (r, w)
      → Landed view IsFault id f st bad (on_error map_repository_error r, w)
  Landed-after_last g v (ok x) w fv gv (inl (h, hv)) = inl (
    h ∙ ap (λ u. (settle id u st).0) (gv ∙ sym fv),
    hv ∙ ap (λ u. (settle id u st).1) (gv ∙ sym fv),
  )
  Landed-after_last g v (ok x) w fv gv (inr (b, hv)) = absurd (not_broken b)
  Landed-after_last g v (err e) w fv gv (inl (h, hv)) =
      let bad : err e ≡ ok tt = h ∙ ap (λ u. (settle id u st).0) gv in cc bad
  Landed-after_last g v (err e) w fv gv (inr (b, hv)) = inr (IsBroken-mapped (Unit {0}) bad e b, hv)

  -- A write that ends the use case.
  pub Landed-last :
      (g : Row → Result Row) (v : Row) (m : Exec W (Unit {0})) (w : W)
      → Still view IsFault st bad w
      → f (st id) ≡ ok v
      → g (st id) ≡ ok v
      → Realises view IsFault id g m
      → Landed view IsFault id f st bad (map_error map_repository_error m w)
  unfolding map_error
  Landed-last g v m w same fv gv realises =
      Landed-after_last g v (m w).0 (m w).1 fv gv (Landed-from g (m w) same (realises.at w))
