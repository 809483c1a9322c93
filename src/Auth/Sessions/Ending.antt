-- ===== src/Auth/Sessions/Ending.antt =====
-- After a logout the user has no session.
use mathlib.Core.Path.{subst}
use air_cover.Base.{
  ℤ, String, ◌≡◌, ◌≢◌, refl, sym, ◌∙◌, ap, inl, inr, Bool, true, false, not, Option, none, some,
  List, [], ◌∷◌, ◌==◌, int_eq, int_beq_iff, All, find_by, filter_by, arith, Bool-cases,
}
use air_cover.Errors.{opaque, Result, ok, err, Exec}
use air_cover.Errors.Steps.{Stable, pure-Stable, raise-Stable, >>=-Stable}
use air_cover.Domain.{User, CurrentUser, Session, Time, before}
use air_cover.Auth.Ports.{LoginInput, Service, clock}
use air_cover.Auth.Service.{deliver, issue, issue_if, request_login, logout, authenticate_session}
use air_cover.Auth.Reading as Reading
use air_cover.Auth.Spec.{
  Same, View, Keeps, RepositoryContract, Environment, has_token, is_of_user, unexpired,
}
use air_cover.Auth.Sessions.{viewer_of, enabled_user, bearer, authenticate-bearer}
use air_cover.Auth.History.{Call, logs_in, verifies, logs_out, authenticates, call, run}

-- No session in the list is the user's.
abbrev pub HaveLeft : ℤ → List Session → Type 0
HaveLeft user sessions = All (λ s. is_of_user user s ≡ false) sessions

HaveLeft-filter :
    (user : ℤ) (test : Session → Bool) (sessions : List Session)
    → HaveLeft user sessions
    → HaveLeft user (filter_by test sessions)
HaveLeft-filter user test [] h = tt
HaveLeft-filter user test (x ∷ sessions) h = elim (Bool-cases (test x)) [
  | inl e ↦ rw e (h.0, HaveLeft-filter user test sessions h.1)
  | inr e ↦ rw e (HaveLeft-filter user test sessions h.1)
]

HaveLeft-deleted :
    (user : ℤ) (sessions : List Session)
    → HaveLeft user (filter_by (λ s. not (is_of_user user s)) sessions)
HaveLeft-deleted user [] = tt
HaveLeft-deleted user (x ∷ sessions) = elim (Bool-cases (is_of_user user x)) [
  | inl e ↦ rw e (HaveLeft-deleted user sessions)
  | inr e ↦ rw e (e, HaveLeft-deleted user sessions)
]

find-HaveLeft :
    (user : ℤ) (test : Session → Bool) (sessions : List Session) (x : Session)
    → HaveLeft user sessions
    → find_by test sessions ≡ some x
    → is_of_user user x ≡ false
find-HaveLeft user test [] x h e = cc e
find-HaveLeft user test (y ∷ sessions) x h e = ground (
  arith,
  find-HaveLeft user test sessions x,
  int_beq_iff x.user_id user,
  int_beq_iff y.user_id user,
)

enabled-id :
    (user : ℤ) (u : User) (b : Bool) (v : CurrentUser)
    → enabled_user u b ≡ ok v
    → (u.id == user) ≡ false
    → v.id ≢ user
enabled-id user u true v h other same = ground (
  arith,
  int_beq_iff u.id user,
  ap {B = Option ℤ} (λ (r : Result CurrentUser). elim r [ ok c ↦ some c.id | err e ↦ none ]) h,
)
enabled-id user u false v h other same = cc h

viewer-id :
    (user : ℤ) (o : Option User) (x : Session) (v : CurrentUser)
    → ((u : User) → o ≡ some u → u.id ≡ x.user_id)
    → viewer_of o ≡ ok v
    → is_of_user user x ≡ false
    → v.id ≢ user
viewer-id user none x v ids h other = cc h
viewer-id user (some u) x v ids h other =
    enabled-id user u u.is_enabled v h (ap (λ id. id == user) (ids u refl) ∙ other)

bearer-id :
    (user : ℤ) (users : ℤ → Option User) (now : Time) (o : Option Session) (v : CurrentUser)
    → ((id : ℤ) (u : User) → users id ≡ some u → u.id ≡ id)
    → ((x : Session) → o ≡ some x → is_of_user user x ≡ false)
    → bearer users (unexpired now o) ≡ ok v
    → v.id ≢ user
bearer-id user users now none v ids left h = cc h
bearer-id user users now (some x) v ids left h = elim (Bool-cases (before x.expires_at now)) [
  | inl late ↦
      let bad : bearer users (err (opaque "session expired")) ≡ ok v = rw late at h in cc bad
  | inr early ↦ viewer-id user (users x.user_id) x v (ids x.user_id) (rw early at h) (left x refl)
]

-- Calls other than a verification, which is the only way to a new session.
abbrev pub OpensNone : Call → Type 0
OpensNone (logs_in input) = Unit
OpensNone (verifies raw) = ⊥
OpensNone (logs_out user) = Unit
OpensNone (authenticates token) = Unit

module _ {W : Type 0} (view : View W) (s : Service W) (contract : RepositoryContract view s.repo)
    (env : Environment view s) (user : ℤ) where
  Gone : W → Type 0
  Gone w = HaveLeft user (view.sessions w)

  seen : (a b : W) → Same view a b → Gone a → Gone b
  unfolding Gone
  seen a b same h = subst (HaveLeft user) (sym same.sessions) h

  Keeps-Stable : {A : Type 0} (m : Exec W A) → Keeps view m → Stable Gone m
  Keeps-Stable = Reading.Keeps-Stable view s contract env Gone seen

  clock-Stable : Stable Gone (clock s)
  clock-Stable = Reading.clock-Stable view s contract env Gone seen

  create_link-Stable :
      (id : ℤ) (hash : String) (expires_at : Time)
      → Stable Gone (s.repo.create_magic_link id hash expires_at)
  unfolding Gone
  create_link-Stable id hash expires_at = record {
    at = λ w h. elim (contract.create_link_lem id hash expires_at w) [
      | inl (l, done, of_user, hashed, expires, added, same, users) ↦
          subst (HaveLeft user) (sym same) h
      | inr broke ↦ subst (HaveLeft user) (sym broke.1.sessions) h
    ];
  }

  logout-Stable : (id : ℤ) → Stable Gone (logout s id)
  unfolding logout Gone
  logout-Stable id = record {
    at = λ w h. elim (contract.delete_sessions_lem id w) [
      | inl (done, left, links, users) ↦
          subst (HaveLeft user) (sym left) (HaveLeft-filter user _ (view.sessions w) h)
      | inr broke ↦ subst (HaveLeft user) (sym broke.1.sessions) h
    ];
  }

  deliver-Stable :
      (email raw : String) (url : Option (String → String))
      (sender : Option (String → String → Exec W (Unit {0})))
      → s.sender ≡ sender
      → Stable Gone (deliver s email raw url sender)
  deliver-Stable email raw url none e = pure-Stable Gone _
  deliver-Stable email raw none (some send) e = raise-Stable Gone _
  deliver-Stable email raw (some url) (some send) e =
      >>=-Stable Gone (send email (url raw)) _
        (Keeps-Stable (send email (url raw)) (env.sender_keeps send email (url raw) e))
        λ u. pure-Stable Gone _

  issue_if-Stable : (input : LoginInput) (u : User) (b : Bool) → Stable Gone (issue_if s input u b)
  unfolding issue
  issue_if-Stable input u false = pure-Stable Gone _
  issue_if-Stable input u true =
      >>=-Stable Gone (s.token_generator _) _
        (Keeps-Stable (s.token_generator _) (env.generator_keeps _))
        λ raw. >>=-Stable Gone (clock s) _ clock-Stable λ now.
          >>=-Stable Gone (s.repo.create_magic_link u.id (s.hash_token raw) _) _
            (create_link-Stable u.id (s.hash_token raw) _)
            λ done. deliver-Stable u.email raw input.magic_link_url s.sender refl

  call-Gone : (c : Call) (w : W) → OpensNone c → Gone w → Gone (call s c w)
  unfolding request_login
  call-Gone (logs_in input) w none_opened h =
      (>>=-Stable Gone (s.repo.get_user_by_email input.email) (λ u. issue_if s input u u.is_enabled)
          (Keeps-Stable (s.repo.get_user_by_email input.email) (contract.email_keeps input.email))
          λ u. issue_if-Stable input u u.is_enabled).at
        w h
  call-Gone (verifies raw) w none_opened h = absurd none_opened
  call-Gone (logs_out id) w none_opened h = (logout-Stable id).at w h
  call-Gone (authenticates token) w none_opened h =
      (Reading.authenticate_session-Stable view s contract env Gone seen token).at w h

  run-Gone : (calls : List Call) (w : W) → All OpensNone calls → Gone w → Gone (run s calls w)
  run-Gone [] w quiet h = h
  run-Gone (c ∷ calls) w quiet h = run-Gone calls (call s c w) quiet.1 (call-Gone c w quiet.0 h)

  logout-Gone : (w : W) → (logout s user w).0 ≡ ok tt → Gone (logout s user w).1
  unfolding logout Gone
  logout-Gone w h = elim (contract.delete_sessions_lem user w) [
    | inl (done, left, links, users) ↦
        subst (HaveLeft user) (sym left) (HaveLeft-deleted user (view.sessions w))
    | inr ((e, broke, other, b), same) ↦ let bad : ok tt ≡ err e = sym h ∙ broke in cc bad
  ]

  -- After a successful logout no token stands for the user any more, through any calls by anybody
  -- in between other than a verification of a magic link.
  pub logout-ends :
      (calls : List Call) (token : String) (w : W) (v : CurrentUser)
      → (logout s user w).0 ≡ ok tt
      → All OpensNone calls
      → (authenticate_session s token (run s calls (logout s user w).1)).0 ≡ ok v
      → v.id ≢ user
  unfolding Gone
  logout-ends calls token w v done quiet h =
      let w' = run s calls (logout s user w).1 in
      let gone = run-Gone calls (logout s user w).1 quiet (logout-Gone w done) in
      elim (authenticate-bearer view s contract env token w') [
        | inl e ↦
            bearer-id user (view.users w') (s.now_func w').0 _ v
              (λ id u. contract.users_lem id u w')
              (λ x. find-HaveLeft user (has_token (s.hash_token token)) (view.sessions w') x gone)
              (sym e ∙ h)
        | inr (x, broke, other, b) ↦ let bad : err x ≡ ok v = sym broke ∙ h in cc bad
      ]
