-- ===== src/Auth/Sessions/Opening.antt =====
-- A link opens a session of its user.
use air_cover.Base.{
  ◌+◌, ◌≤◌, ℤ, String, ◌≡◌, refl, sym, ◌∙◌, ap, ◌⊎◌, inl, inr, Option, none, some, List, [], ◌∷◌,
  ◌++◌, string_eq, find_by, arith,
}
use air_cover.Errors.{Result, ok, err, Exec, ◌>>=◌, ◌>>◌, pure, map_error}
use air_cover.Errors.Steps.{>>=-ok, map_error-ok}
use air_cover.Domain.{MagicLink, Session, Time}
use air_cover.SubRequests.Spec.{IsBroken}
use air_cover.Auth.Ports.{VerifiedSession, Service, clock}
use air_cover.Auth.Service.{
  session_ttl, session_token_bytes, start_session, verify_magic_link, authenticate_session,
  magic_link_error,
}
use air_cover.Auth.Spec.{
  View, RepositoryContract, Environment, has_token, is_live, unexpired, found,
}
use air_cover.Auth.Sessions.{viewer_of, bearer, authenticate-bearer}

found-ok : {A : Type 0} (o : Option A) (a : A) → ok a ≡ found o → o ≡ some a
found-ok none a h = cc h
found-ok (some b) a h = cc h

ok_same : {A : Type 0} {a b : A} → ◌≡◌ {A = Result A} (ok a) (ok b) → a ≡ b
ok_same h = cc h

find-last :
    (hash : String) (s : Session) (sessions : List Session)
    → find_by (has_token hash) sessions ≡ none
    → s.token_hash ≡ hash
    → find_by (has_token hash) (sessions ++ s ∷ []) ≡ some s
find-last hash s [] h e = ground (arith, string_eq.equal_iff s.token_hash hash)
find-last hash s (x ∷ sessions) h e = ground (arith, find-last hash s sessions)

unexpired-some : (now : Time) (s : Session) → now ≤ s.expires_at → unexpired now (some s) ≡ ok s
unexpired-some now s h = ground arith

module _ {W : Type 0} (view : View W) (s : Service W) (contract : RepositoryContract view s.repo)
    (env : Environment view s) where
  -- A session in the world for this token, user and expiry.
  abbrev pub Opened : ℤ → Time → VerifiedSession → W → Type 0
  Opened user expires_at v w =
      (sess : Session) × (find_by (has_token (s.hash_token v.token)) (view.sessions w) ≡ some sess)
      × (sess.user_id ≡ user)
      × (sess.expires_at ≡ v.expires_at)
      × (v.expires_at ≡ expires_at)

  used-live :
      (raw : String) (now : Time) (w : W) (l : MagicLink)
      → (s.repo.use_magic_link (s.hash_token raw) now (s.now_func w).1).0 ≡ ok l
      → find_by (is_live (s.hash_token raw) now) (view.links w) ≡ some l
  used-live raw now w l h = elim (contract.use_link_lem (s.hash_token raw) now (s.now_func w).1) [
    | inl (done, links, sessions, users) ↦
        ap (λ ls. find_by (is_live (s.hash_token raw) now) ls) (sym (env.clock_keeps w).links)
        ∙ found-ok _ l (sym h ∙ done)
    | inr ((e, broke, other, b), same) ↦ let bad : ok l ≡ err e = sym h ∙ broke in cc bad
  ]

  created-Opened :
      (id token : String) (user : ℤ) (expires_at : Time) (w : W)
      → (s.repo.create_session id (s.hash_token token) user expires_at w).0 ≡ ok tt
      → Opened user expires_at
          (record { token = token; expires_at = expires_at })
          (s.repo.create_session id (s.hash_token token) user expires_at w).1
  created-Opened id token user expires_at w h =
      elim (contract.create_session_lem id (s.hash_token token) user expires_at w) [
        | inl (done, new, sessions, links, users) ↦ (
          record {
            id = id;
            user_id = user;
            token_hash = s.hash_token token;
            expires_at = expires_at;
          },
          rw sessions (find-last (s.hash_token token) _ (view.sessions w) new refl),
          refl,
          refl,
          refl,
        )
        | inr (inl ((e, broke, other, b), same)) ↦ let bad : ok tt ≡ err e = sym h ∙ broke in cc bad
        | inr (inr (clash, (e, broke), same)) ↦ let bad : ok tt ≡ err e = sym h ∙ broke in cc bad
      ]

  open_with : String → ℤ → Time → String → Exec W VerifiedSession
  open_with id user expires_at token =
      s.repo.create_session id (s.hash_token token) user expires_at
      >> pure (record { token = token; expires_at = expires_at })

  start-Opened :
      (user : ℤ) (expires_at : Time) (w : W) (v : VerifiedSession)
      → (start_session s user expires_at w).0 ≡ ok v
      → Opened user expires_at v (start_session s user expires_at w).1
  unfolding start_session open_with pure
  start-Opened user expires_at w v h =
      let gen = s.token_generator session_token_bytes in
      let (id, drawn, e) = >>=-ok gen (λ id. gen >>= open_with id user expires_at) w v h in
      let (token, drawn₂, e₂) =
        >>=-ok gen (open_with id user expires_at) (gen w).1 v (sym (ap (λ p. p.0) e) ∙ h) in
      let w₂ = (gen (gen w).1).1 in
      let (u, done, e₃) =
        >>=-ok (s.repo.create_session id (s.hash_token token) user expires_at)
          (λ _. pure (record { token = token; expires_at = expires_at })) w₂ v
          (sym (ap (λ p. p.0) (e ∙ e₂)) ∙ h) in
      let all = e ∙ e₂ ∙ e₃ in
      rw (ok_same (sym h ∙ ap (λ p. p.0) all), ap (λ p. p.1) all)
        (created-Opened id token user expires_at w₂ done)

  verify-Opened :
      (raw : String) (w : W) (v : VerifiedSession)
      → (verify_magic_link s raw w).0 ≡ ok v
      → (l : MagicLink) × (find_by (is_live (s.hash_token raw) (s.now_func w).0) (view.links w)
          ≡ some l)
        × Opened l.user_id ((s.now_func w).0 + session_ttl) v (verify_magic_link s raw w).1
  unfolding verify_magic_link clock ◌>>=◌
  verify-Opened raw w v h =
      let now = (s.now_func w).0 in
      let w₁ = (s.now_func w).1 in
      let uses = s.repo.use_magic_link (s.hash_token raw) now in
      let m : Exec W MagicLink = map_error magic_link_error uses in
      let (l, used, e) = >>=-ok m (λ l. start_session s l.user_id (now + session_ttl)) w₁ v h in
      let opened =
        start-Opened l.user_id (now + session_ttl) (m w₁).1 v (sym (ap (λ p. p.0) e) ∙ h) in
      (l, used-live raw now w l (map_error-ok magic_link_error uses w₁ l used), rw e opened)

  bearer-Opened :
      (user : ℤ) (expires_at : Time) (v : VerifiedSession) (w : W)
      → Opened user expires_at v w
      → (s.now_func w).0 ≤ v.expires_at
      → bearer (view.users w) (
          unexpired (s.now_func w).0 (find_by (has_token (s.hash_token v.token)) (view.sessions w)))
        ≡ viewer_of (view.users w user)
  bearer-Opened user expires_at v w (sess, here, of_user, expires, until) early =
      rw (here, unexpired-some (s.now_func w).0 sess (rw expires early))
        (ap (λ id. viewer_of (view.users w id)) of_user)

  -- A verification succeeds only for a live link, and the token that it returns expires a day after
  -- the instant that the service read. Until then the token stands for the user of that link, if
  -- enabled, and for nobody and nothing else, unless the database fails from there on: where nothing
  -- fails, the session is found and has not expired, and an enabled user is let in.
  pub verify-authenticates :
      (raw : String) (w : W) (v : VerifiedSession)
      → (verify_magic_link s raw w).0 ≡ ok v
      → (s.now_func (verify_magic_link s raw w).1).0 ≤ v.expires_at
      → let w' = (verify_magic_link s raw w).1 in
        (l : MagicLink) × (find_by (is_live (s.hash_token raw) (s.now_func w).0) (view.links w)
          ≡ some l)
        × (v.expires_at ≡ (s.now_func w).0 + session_ttl)
        × (((authenticate_session s v.token w').0 ≡ viewer_of (view.users w' l.user_id))
            ⊎ IsBroken (view.IsFault w') (authenticate_session s v.token w').0)
  verify-authenticates raw w v h early =
      let w' = (verify_magic_link s raw w).1 in
      let (l, live, opened) = verify-Opened raw w v h in
      let (sess, here, of_user, expires, until) = opened in
      (
        l,
        live,
        until,
        elim (authenticate-bearer view s contract env v.token w') [
          | inl e ↦ inl (e ∙ bearer-Opened l.user_id _ v w' opened early)
          | inr broke ↦ inr broke
        ],
      )
