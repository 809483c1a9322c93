-- ===== src/Http/SignIn.antt =====
-- From the link in an email to a page behind a session: two requests in a row.
use mathlib.Core.Path.{subst, ap₂}
use air_cover.Base.{
  ◌+◌, ◌≤◌, String, ◌≡◌, refl, sym, ◌∙◌, ap, ◌⊎◌, inl, inr, some, List, [], ◌∷◌, ◌==◌, string_eq,
  find_by, Bool-cases,
}
use air_cover.Errors.{Error, is, invalid_magic_link, Result, ok, err}
use air_cover.Domain.{Time, MagicLink, CurrentUser}
use air_cover.SubRequests.Spec.{IsBroken}
use air_cover.Auth.Ports.{VerifiedSession, Service}
use air_cover.Auth.Service.{session_ttl, verify_magic_link, authenticate_session}
use air_cover.Auth.Spec.{View, RepositoryContract, Environment, is_live}
use air_cover.Auth.Sessions.{viewer_of}
use air_cover.Auth.Sessions.Opening.{verify-authenticates}
use air_cover.Http.Message.{Request, Context, Cookie, Response, Handler, respond, answer}
use air_cover.Http.AuthHandler.{
  verify_failed, signed_in, session_cookie_name, session_cookie, with_user, handle_auth_error,
  handle_verify, auth_middleware, go_on,
}
use air_cover.Http.Services.{auth_of}

module _ {W : Type 0} (view : View W) (s : Service W) (contract : RepositoryContract view s.repo)
    (env : Environment view s) where
  -- What a handler behind the session does for the bearer, or the refusal.
  abbrev pub Reached :
      Result CurrentUser → Handler W → Context → Request → W → Response × W → Type 0
  Reached (ok user) next c r w p = p ≡ next (with_user user c) r w
  Reached (err e) next c r w p = p ≡ (handle_auth_error r "Unauthorized" 401, w)

  go_on-Reached :
      (next : Handler W) (c : Context) (r : Request) (user : Result CurrentUser) (w : W)
      → Reached user next c r w (go_on (auth_of s) next c r user w)
  go_on-Reached next c r (ok user) w = refl
  go_on-Reached next c r (err e) w = refl

  -- A verification that sets a cookie succeeded, and the cookie carries its token.
  verify-cookie :
      (raw : String) (c : Context) (r : Request) (w : W) (k : Cookie)
      → (handle_verify (auth_of s) raw c r w).0.cookies ≡ k ∷ []
      → (v : VerifiedSession) × ((verify_magic_link s raw w).0 ≡ ok v)
        × (k ≡ session_cookie c r v.token v.expires_at)
        × ((handle_verify (auth_of s) raw c r w).1 ≡ (verify_magic_link s raw w).1)
  unfolding handle_verify respond
  verify-cookie raw c r w k h = elim (Bool-cases (raw == "")) [
    | inl e ↦ absurd (no_cookie (rw e at h))
    | inr e ↦ rw e (go (verify_magic_link s raw w).0 refl (rw e at h))
  ]
    where
      no_cookie : ◌≡◌ {A = List Cookie} [] (k ∷ []) → ⊥
      no_cookie bad = cc bad

      go :
          (x : Result VerifiedSession)
          → (verify_magic_link s raw w).0 ≡ x
          → (answer verify_failed (signed_in c r) x).cookies ≡ k ∷ []
          → (v : VerifiedSession) × ((verify_magic_link s raw w).0 ≡ ok v)
            × (k ≡ session_cookie c r v.token v.expires_at)
            × ((verify_magic_link s raw w).1 ≡ (verify_magic_link s raw w).1)
      go (ok v) e f = (v, e, cc f, refl)
      go (err x) e f = elim (Bool-cases (is x invalid_magic_link)) [
        | inl bad ↦ absurd (no_cookie (rw bad at f))
        | inr bad ↦ absurd (no_cookie (rw bad at f))
      ]

  -- The cookie's token and expiry are the session's.
  cookie-token :
      (c : Context) (r : Request) (k : Cookie) (v : VerifiedSession) (t : Time)
      → k ≡ session_cookie c r v.token v.expires_at
      → k.expires ≡ some t
      → (v.token ≡ k.value) × (v.expires_at ≡ t)
  unfolding session_cookie
  cookie-token c r k v t is_cookie expires = (
    sym (ap (λ (x : Cookie). x.value) is_cookie),
    cc (expires, ap (λ (x : Cookie). x.expires) is_cookie),
  )

  behind_session :
      (d : Context) (q : Request) (k : Cookie) (next : Handler W) (w : W)
      (user : Result CurrentUser)
      → q.cookie session_cookie_name ≡ some k.value
      → ((authenticate_session s k.value w).0 ≡ user)
        ⊎ IsBroken (view.IsFault w) (authenticate_session s k.value w).0
      → let w' = (authenticate_session s k.value w).1 in
        let p = auth_middleware (auth_of s) next d q w in
        Reached user next d q w' p
        ⊎ ((p ≡ (handle_auth_error q "Unauthorized" 401, w')) × ((e : Error) × view.IsFault w e))
  unfolding auth_middleware
  behind_session d q k next w user carried (inl e) =
      let step = authenticate_session s k.value w in
      rw carried (
        inl (
          subst (λ u. Reached u next d q step.1 (go_on (auth_of s) next d q step.0 step.1)) e
            (go_on-Reached next d q step.0 step.1)))
  behind_session d q k next w user carried (inr (x, e, other, b)) =
      let step = authenticate_session s k.value w in
      rw carried (inr (ap (λ u. go_on (auth_of s) next d q u step.1) e, (x, b)))

  -- Signing in: where the verification of a link sets a cookie that expires at `t`, the link was live,
  -- the cookie is the session cookie of a day, and the next request that carries it by then reaches
  -- any handler behind a session as the user of that link, if enabled, and is refused if the user is
  -- not. Otherwise it is refused only where a call of the database was to fail.
  pub sign_in-Reached :
      (raw : String) (c d : Context) (r q : Request) (w : W) (k : Cookie) (t : Time)
      (next : Handler W)
      → let w₁ = (handle_verify (auth_of s) raw c r w).1 in
        (handle_verify (auth_of s) raw c r w).0.cookies ≡ k ∷ []
        → q.cookie session_cookie_name ≡ some k.value
        → k.expires ≡ some t
        → (s.now_func w₁).0 ≤ t
        → let w₂ = (authenticate_session s k.value w₁).1 in
          let p = auth_middleware (auth_of s) next d q w₁ in
          (l : MagicLink) × (find_by (is_live (s.hash_token raw) (s.now_func w).0) (view.links w)
            ≡ some l)
          × (k ≡ session_cookie c r k.value ((s.now_func w).0 + session_ttl))
          × (Reached (viewer_of (view.users w₁ l.user_id)) next d q w₂ p
              ⊎ ((p ≡ (handle_auth_error q "Unauthorized" 401, w₂))
                  × ((e : Error) × view.IsFault w₁ e)))
  sign_in-Reached raw c d r q w k t next cookies carried expires early =
      let (v, opened, is_cookie, same) = verify-cookie raw c r w k cookies in
      let (token, until) = cookie-token c r k v t is_cookie expires in
      let in_time : (s.now_func (verify_magic_link s raw w).1).0 ≤ v.expires_at =
        rw (until, ← same) early in
      let (l, live, ttl, stands) =
        verify-authenticates view s contract env raw w v opened in_time in
      (
        l,
        live,
        is_cookie ∙ ap₂ (session_cookie c r) token ttl,
        rw same (behind_session d q k next _ _ carried (rw (← token) stands)),
      )
