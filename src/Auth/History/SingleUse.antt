-- ===== src/Auth/History/SingleUse.antt =====
-- A link that opened a session opens no other.
use air_cover.Base.{
  ◌≤◌, String, ◌≡◌, refl, ◌∙◌, ap, inl, inr, Bool, true, false, Option, none, some, List, [], ◌∷◌,
  ◌==◌, string_eq,
}
use air_cover.Errors.{
  Error, Result, ok, err, not_found, sentinel, invalid_magic_link, is, continue, on_error, Exec,
  ◌>>=◌, map_error,
}
use air_cover.Errors.Steps.{
  >>=-ok, map_error-ok, Stable, pure-Stable, raise-Stable, >>=-Stable, >>=-at,
}
use air_cover.Domain.{User, MagicLink, Time}
use air_cover.Auth.Ports.{LoginInput, VerifiedSession, Service, clock}
use air_cover.Auth.Service.{
  login_token_bytes, deliver, issue, issue_if, request_login, start_session, verify_magic_link,
  magic_link_error,
}
use air_cover.Auth.Spec.{View, RepositoryContract, Environment, found}
use air_cover.Auth.Links.{
  AreSpent-used, find-AreSpent, Spent, moved, Keeps-Stable, clock-Stable, create_link-Stable,
  start_session-Stable, verify-Stable, logout-Stable, authenticate-Stable,
}
use air_cover.Auth.History.{
  Call, logs_in, verifies, logs_out, authenticates, call, run, DrawsOther, DrawOther,
}

-- The call failed because the link is no good.
abbrev pub IsInvalidLink : {A : Type 0} → Result A → Type 0
IsInvalidLink r = (e : Error) × (r ≡ err e) × (is e invalid_magic_link ≡ true)

module _ {W : Type 0} (view : View W) (s : Service W) (contract : RepositoryContract view s.repo)
    (env : Environment view s) (hash : String) (t : Time) where
  deliver-Stable :
      (email raw : String) (url : Option (String → String))
      (sender : Option (String → String → Exec W (Unit {0})))
      → s.sender ≡ sender
      → Stable (Spent view s contract env hash t) (deliver s email raw url sender)
  deliver-Stable email raw url none e = pure-Stable (Spent view s contract env hash t) _
  deliver-Stable email raw none (some send) e = raise-Stable (Spent view s contract env hash t) _
  deliver-Stable email raw (some url) (some send) e =
      >>=-Stable (Spent view s contract env hash t) (send email (url raw)) _
        (Keeps-Stable view s contract env hash t (send email (url raw))
          (env.sender_keeps send email (url raw) e))
        λ u. pure-Stable (Spent view s contract env hash t) _

  issue-at :
      (input : LoginInput) (user : User) (w : W)
      → ((raw : String)
          → (s.token_generator login_token_bytes w).0 ≡ ok raw
          → (s.hash_token raw == hash) ≡ false)
      → Spent view s contract env hash t w
      → Spent view s contract env hash t (issue s input user w).1
  unfolding issue
  issue-at input user w other h =
      >>=-at (Spent view s contract env hash t) (s.token_generator login_token_bytes) _ w
        ((Keeps-Stable view s contract env hash t (s.token_generator login_token_bytes)
            (env.generator_keeps _)).at
          w h)
        λ raw drawn.
          (>>=-Stable (Spent view s contract env hash t) (clock s) _
              (clock-Stable view s contract env hash t)
              λ now.
                >>=-Stable (Spent view s contract env hash t)
                  (s.repo.create_magic_link user.id (s.hash_token raw) _) _
                  (create_link-Stable view s contract env hash t user.id (s.hash_token raw) _
                    (other raw drawn))
                  λ u. deliver-Stable user.email raw input.magic_link_url s.sender refl).at
            _
            ((Keeps-Stable view s contract env hash t (s.token_generator login_token_bytes)
                (env.generator_keeps _)).at
              w h)

  issue_if-at :
      (input : LoginInput) (user : User) (b : Bool) (w : W)
      → ((raw : String)
          → (s.token_generator login_token_bytes w).0 ≡ ok raw
          → (s.hash_token raw == hash) ≡ false)
      → Spent view s contract env hash t w
      → Spent view s contract env hash t (issue_if s input user b w).1
  issue_if-at input user true w other h = issue-at input user w other h
  issue_if-at input user false w other h = (pure-Stable (Spent view s contract env hash t) _).at w h

  call-at :
      (c : Call) (w : W)
      → DrawsOther s hash c w
      → Spent view s contract env hash t w
      → Spent view s contract env hash t (call s c w)
  unfolding request_login
  call-at (logs_in input) w other h =
      let kept =
        (Keeps-Stable view s contract env hash t (s.repo.get_user_by_email input.email)
            (contract.email_keeps input.email)).at
          w h in
      >>=-at (Spent view s contract env hash t) (s.repo.get_user_by_email input.email)
        (λ user. issue_if s input user user.is_enabled) w kept
        λ user e. issue_if-at input user user.is_enabled _ other kept
  call-at (verifies raw) w other h = (verify-Stable view s contract env hash t raw).at w h
  call-at (logs_out user) w other h = (logout-Stable view s contract env hash t user).at w h
  call-at (authenticates token) w other h =
      (authenticate-Stable view s contract env hash t token).at w h

  run-at :
      (calls : List Call) (w : W)
      → DrawOther s hash calls w
      → Spent view s contract env hash t w
      → Spent view s contract env hash t (run s calls w)
  run-at [] w other h = h
  run-at (c ∷ calls) w other h = run-at calls (call s c w) other.1 (call-at c w other.0 h)

ok_not_err : {A : Type 0} (r : Result A) (a : A) (e : Error) → r ≡ ok a → r ≡ err e → ⊥
ok_not_err r a e h q = cc (h, q)

invalid-from :
    {W B : Type 0} (r : Result MagicLink) (f : MagicLink → Exec W B) (w : W) (e : Error)
    → r ≡ err e
    → IsInvalidLink (continue (on_error magic_link_error r) f w).0
unfolding is
invalid-from r f w e h = rw h (magic_link_error e, refl, refl)

module _ {W : Type 0} (view : View W) (s : Service W) (contract : RepositoryContract view s.repo)
    (env : Environment view s) where
  used-spends :
      (raw : String) (now : Time) (w : W) (l : MagicLink)
      → (s.repo.use_magic_link (s.hash_token raw) now w).0 ≡ ok l
      → Spent view s contract env
          (s.hash_token raw)
          now
          (s.repo.use_magic_link (s.hash_token raw) now w).1
  used-spends raw now w l h = elim (contract.use_link_lem (s.hash_token raw) now w) [
    | inl (done, links, sessions, users) ↦
        rw links (AreSpent-used (s.hash_token raw) now (view.links w))
    | inr ((e, broke, other, b), same) ↦ absurd (ok_not_err _ l e h broke)
  ]

  verify-spends :
      (raw : String) (w : W) (v : VerifiedSession)
      → (verify_magic_link s raw w).0 ≡ ok v
      → Spent view s contract env (s.hash_token raw) (s.now_func w).0 (verify_magic_link s raw w).1
  unfolding verify_magic_link clock ◌>>=◌
  verify-spends raw w v h =
      let now = (s.now_func w).0 in
      let m : Exec W MagicLink =
        map_error magic_link_error (s.repo.use_magic_link (s.hash_token raw) now) in
      let (l, used, e) = >>=-ok m (λ l. start_session s l.user_id _) (s.now_func w).1 v h in
      rw e (
        (start_session-Stable view s contract env (s.hash_token raw) now l.user_id _).at _ (
          used-spends raw now (s.now_func w).1 l (
            map_error-ok magic_link_error (s.repo.use_magic_link (s.hash_token raw) now)
              (s.now_func w).1 l used)))

  verify-invalid :
      (raw : String) (t : Time) (w : W)
      → Spent view s contract env (s.hash_token raw) t w
      → t ≤ (s.now_func w).0
      → IsInvalidLink (verify_magic_link s raw w).0
  unfolding verify_magic_link clock ◌>>=◌
  verify-invalid raw t w spent later =
      let hash = s.hash_token raw in
      let now = (s.now_func w).0 in
      let w₁ = (s.now_func w).1 in
      let spent₁ = moved view s contract env hash t ((env.clock_keeps w).links) spent in
      elim (contract.use_link_lem hash now w₁) [
        | inl (done, links, sessions, users) ↦
            invalid-from (s.repo.use_magic_link hash now w₁).0 _ _ (sentinel not_found)
              (done ∙ ap found (find-AreSpent hash t now (view.links w₁) later spent₁))
        | inr ((e, broke, other, b), same) ↦
            invalid-from (s.repo.use_magic_link hash now w₁).0 _ _ e broke
      ]

  -- A magic link works once: after it has opened a session, no later attempt with the same token
  -- succeeds, through any calls by anybody in between, as long as the clock does not run backwards
  -- and no login in between draws a token with the same hash. The attempt fails with the error of
  -- an invalid link.
  pub verify-once :
      (raw : String) (calls : List Call) (w : W) (v : VerifiedSession)
      → (verify_magic_link s raw w).0 ≡ ok v
      → DrawOther s (s.hash_token raw) calls (verify_magic_link s raw w).1
      → (s.now_func w).0 ≤ (s.now_func (run s calls (verify_magic_link s raw w).1)).0
      → IsInvalidLink (verify_magic_link s raw (run s calls (verify_magic_link s raw w).1)).0
  verify-once raw calls w v opened other later =
      verify-invalid raw (s.now_func w).0 _
        (run-at view s contract env (s.hash_token raw) (s.now_func w).0 calls _ other
          (verify-spends raw w v opened))
        later
