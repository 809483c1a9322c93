-- ===== src/Auth/Spec.antt =====
-- What internal/app/auth relies on: a world in which users, links and sessions can be seen, and
-- what each method of the repository does to them. A failure changes none of them, and is one that
-- the world had in store.
use air_cover.Base.{
  ℤ, String, ◌≡◌, ◌⊎◌, Bool, true, false, not, ◌&&◌, ◌||◌, any_by, Option, none, some, List, [],
  ◌∷◌, ◌++◌, ◌==◌, string_eq, int_eq, ltb, find_by, filter_by, if◌then◌else◌,
}
use air_cover.Errors.{Error, not_found, opaque, Result, ok, err, fail, Exec}
use air_cover.Domain.{User, MagicLink, Session, Time, before}
use air_cover.SubRequests.Spec.{IsBroken}
use air_cover.Auth.Ports.{Repository, Service}

pub record View (W : Type 0) : Type 1 where
  pub users : W → ℤ → Option User
  pub by_email : W → String → Option User
  pub links : W → List MagicLink
  pub sessions : W → List Session
  -- The errors with which calls of others can fail from here on: none where all of them work.
  pub IsFault : W → Error → Type 0

abbrev pub is_unused : Option Time → Bool
is_unused none = true
is_unused (some _) = false

-- The link opens a session at this instant, for the token with this hash.
abbrev pub is_live : String → Time → MagicLink → Bool
is_live hash now l = l.token_hash == hash && is_unused l.used_at && ltb now l.expires_at

abbrev pub has_token : String → Session → Bool
has_token hash s = s.token_hash == hash

abbrev pub is_of_user : ℤ → Session → Bool
is_of_user user s = s.user_id == user

abbrev pub found {ℓ} : {A : Type ℓ} → Option A → Result A
found none = fail not_found
found (some a) = ok a

-- A session counts up to its last instant, which is included.
abbrev pub unexpired : Time → Option Session → Result Session
unexpired now none = fail not_found
unexpired now (some s) = if before s.expires_at now then err (opaque "session expired") else ok s

module _ {W : Type 0} (view : View W) where
  pub record Same (a b : W) : Type 0 where
    pub users : view.users b ≡ view.users a
    pub by_email : view.by_email b ≡ view.by_email a
    pub links : view.links b ≡ view.links a
    pub sessions : view.sessions b ≡ view.sessions a
    pub pending : (e : Error) → view.IsFault b e → view.IsFault a e

  pub record Keeps {A : Type 0} (m : Exec W A) : Type 0 where
    pub at : (w : W) → Same w (m w).1

  -- The call failed for a reason that is not the program's, and changed nothing.
  abbrev pub Broke : {A : Type 0} → Result A × W → W → Type 0
  Broke p w = IsBroken (view.IsFault w) p.0 × Same w p.1

  -- A session has the identifier or the hash already, so the call failed and changed nothing.
  abbrev pub Clashed : {A : Type 0} → String → String → Result A × W → W → Type 0
  Clashed id hash p w =
      (any_by (λ t. t.id == id || has_token hash t) (view.sessions w) ≡ true)
      × ((e : Error) × (p.0 ≡ err e))
      × Same w p.1

  pub record RepositoryContract (repo : Repository W) : Type 0 where
    pub users_lem : (id : ℤ) (u : User) (w : W) → view.users w id ≡ some u → u.id ≡ id
    pub email_lem :
        (email : String) (w : W)
        → ((repo.get_user_by_email email w).0 ≡ found (view.by_email w email))
          ⊎ IsBroken (view.IsFault w) (repo.get_user_by_email email w).0
    pub email_keeps : (email : String) → Keeps (repo.get_user_by_email email)
    pub user_keeps : (id : ℤ) → Keeps (repo.get_user_by_id id)
    pub user_lem :
        (id : ℤ) (w : W)
        → ((repo.get_user_by_id id w).0 ≡ found (view.users w id))
          ⊎ IsBroken (view.IsFault w) (repo.get_user_by_id id w).0
    pub session_keeps : (hash : String) (now : Time) → Keeps (repo.get_session_by_token hash now)
    pub session_lem :
        (hash : String) (now : Time) (w : W)
        → ((repo.get_session_by_token hash now w).0
            ≡ unexpired now (find_by (has_token hash) (view.sessions w)))
          ⊎ IsBroken (view.IsFault w) (repo.get_session_by_token hash now w).0
    pub create_link_lem :
        (user : ℤ) (hash : String) (expires_at : Time) (w : W)
        → let p = repo.create_magic_link user hash expires_at w in
          ((l : MagicLink) × (p.0 ≡ ok tt)
            × (l.user_id ≡ user)
            × (l.token_hash ≡ hash)
            × (l.expires_at ≡ expires_at)
            × (view.links p.1 ≡ view.links w ++ l ∷ [])
            × (view.sessions p.1 ≡ view.sessions w)
            × (view.users p.1 ≡ view.users w))
          ⊎ Broke p w
    pub use_link_lem :
        (hash : String) (now : Time) (w : W)
        → let p = repo.use_magic_link hash now w in
          ((p.0 ≡ found (find_by (is_live hash now) (view.links w)))
            × (view.links p.1 ≡ filter_by (λ l. not (is_live hash now l)) (view.links w))
            × (view.sessions p.1 ≡ view.sessions w)
            × (view.users p.1 ≡ view.users w))
          ⊎ Broke p w
    pub create_session_lem :
        (id hash : String) (user : ℤ) (expires_at : Time) (w : W)
        → let p = repo.create_session id hash user expires_at w in
          let s : Session = record {
            id = id;
            user_id = user;
            token_hash = hash;
            expires_at = expires_at;
          } in
          ((p.0 ≡ ok tt)
            × (find_by (has_token hash) (view.sessions w) ≡ none)
            × (view.sessions p.1 ≡ view.sessions w ++ s ∷ [])
            × (view.links p.1 ≡ view.links w)
            × (view.users p.1 ≡ view.users w))
          ⊎ (Broke p w ⊎ Clashed id hash p w)
    pub delete_sessions_lem :
        (user : ℤ) (w : W)
        → let p = repo.delete_sessions_by_user_id user w in
          ((p.0 ≡ ok tt)
            × (view.sessions p.1 ≡ filter_by (λ s. not (is_of_user user s)) (view.sessions w))
            × (view.links p.1 ≡ view.links w)
            × (view.users p.1 ≡ view.users w))
          ⊎ Broke p w

  -- The clock, the token generator and the sender leave users, links and sessions alone.
  pub record Environment (s : Service W) : Type 0 where
    pub clock_keeps : (w : W) → Same w (s.now_func w).1
    pub generator_keeps : (n : _) → Keeps (s.token_generator n)
    pub sender_keeps :
        (send : String → String → Exec W (Unit {0})) (to url : String)
        → s.sender ≡ some send
        → Keeps (send to url)
