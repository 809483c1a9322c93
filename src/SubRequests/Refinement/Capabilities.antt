-- ===== src/SubRequests/Refinement/Capabilities.antt =====
-- What the dashboard and the detail page say a viewer can do is what the use cases let the viewer do.
use air_cover.Base.{◌≡◌, ◌⊎◌, Bool, true, false, some, string_eq, int_eq}
use air_cover.Errors.{Error, Result, ok, err, forbidden, is}
use air_cover.Domain.{SubRequest, CurrentUser, Time}
use air_cover.Authorization
use air_cover.Authorization.{taken_resource}
use air_cover.SubRequests.Ports.{Capabilities}
use air_cover.SubRequests.Dashboard.{can_take}
use air_cover.SubRequests.Spec.{Row, use_delete, use_take, use_untake}

abbrev succeeds : Result Row → Bool
succeeds (ok _) = true
succeeds (err _) = false

-- The use cases that would succeed on the request, at any instant.
abbrev pub permitted : CurrentUser → Time → SubRequest → Capabilities
permitted viewer t sr = record {
  can_delete = succeeds (use_delete viewer (some sr));
  can_take = succeeds (use_take viewer t (some sr));
  can_untake = succeeds (use_untake viewer t (some sr));
}

-- The answer, unless the authorizer failed.
abbrev pub Answers : {A : Type 0} → A → Result A → Type 0
Answers a r = (r ≡ ok a) ⊎ ((e : Error) × (r ≡ err e) × (is e forbidden ≡ false))
