-- ===== src/Auth/Links.antt =====
-- A magic link works once.
use mathlib.Core.Path.{subst}
use air_cover.Base.{
  ◌≤◌, ℤ, String, ◌≡◌, refl, sym, ◌∙◌, ap, inl, inr, Bool, false, not, none, List, [], ◌∷◌, ◌++◌,
  ◌==◌, string_eq, All, find_by, filter_by, arith, Bool-cases,
}
use air_cover.Errors.{Exec, map_error}
use air_cover.Errors.Steps.{Stable, pure-Stable, map_error-Stable, >>=-Stable}
use air_cover.Domain.{MagicLink, Time}
use air_cover.Auth.Ports.{Service, clock}
use air_cover.Auth.Service.{
  start_session, verify_magic_link, logout, authenticate_session, magic_link_error,
}
use air_cover.Auth.Reading as Reading
use air_cover.Auth.Spec.{View, Same, Keeps, RepositoryContract, Environment, is_live}

-- From this instant on no link in the list opens a session for the token.
abbrev pub AreSpent : String → Time → List MagicLink → Type 0
AreSpent hash t links = All (λ l. is_live hash t l ≡ false) links

AreSpent-append :
    (hash : String) (t : Time) (l : MagicLink) (links : List MagicLink)
    → AreSpent hash t links
    → (l.token_hash == hash) ≡ false
    → AreSpent hash t (links ++ l ∷ [])
AreSpent-append hash t l [] h other = (rw other, tt)
AreSpent-append hash t l (x ∷ links) h other = (h.0, AreSpent-append hash t l links h.1 other)

AreSpent-filter :
    (hash : String) (t : Time) (test : MagicLink → Bool) (links : List MagicLink)
    → AreSpent hash t links
    → AreSpent hash t (filter_by test links)
AreSpent-filter hash t test [] h = tt
AreSpent-filter hash t test (l ∷ links) h = elim (Bool-cases (test l)) [
  | inl e ↦ rw e (h.0, AreSpent-filter hash t test links h.1)
  | inr e ↦ rw e (AreSpent-filter hash t test links h.1)
]

pub AreSpent-used :
    (hash : String) (t : Time) (links : List MagicLink)
    → AreSpent hash t (filter_by (λ l. not (is_live hash t l)) links)
AreSpent-used hash t [] = tt
AreSpent-used hash t (l ∷ links) = elim (Bool-cases (is_live hash t l)) [
  | inl e ↦ rw e (AreSpent-used hash t links)
  | inr e ↦ rw e (e, AreSpent-used hash t links)
]

pub find-AreSpent :
    (hash : String) (t now : Time) (links : List MagicLink)
    → t ≤ now
    → AreSpent hash t links
    → find_by (is_live hash now) links ≡ none
find-AreSpent hash t now [] later h = refl
find-AreSpent hash t now (l ∷ links) later h =
    rw (dead l h.0) (find-AreSpent hash t now links later h.1)
  where
    dead : (l : MagicLink) → is_live hash t l ≡ false → is_live hash now l ≡ false
    dead l e = ground arith

module _ {W : Type 0} (view : View W) (s : Service W) (contract : RepositoryContract view s.repo)
    (env : Environment view s) (hash : String) (t : Time) where
  abbrev pub Spent : W → Type 0
  Spent w = AreSpent hash t (view.links w)

  pub moved : {a b : W} → view.links b ≡ view.links a → Spent a → Spent b
  moved same h = subst (AreSpent hash t) (sym same) h

  seen : (a b : W) → Same view a b → Spent a → Spent b
  seen a b same h = moved same.links h

  pub Keeps-Stable : {A : Type 0} (m : Exec W A) → Keeps view m → Stable Spent m
  Keeps-Stable = Reading.Keeps-Stable view s contract env Spent seen

  pub clock-Stable : Stable Spent (clock s)
  clock-Stable = Reading.clock-Stable view s contract env Spent seen

  use_link-Stable : (other : String) (now : Time) → Stable Spent (s.repo.use_magic_link other now)
  use_link-Stable other now = record {
    at = λ w h. elim (contract.use_link_lem other now w) [
      | inl (done, links, sessions, users) ↦
          subst (AreSpent hash t) (sym links) (AreSpent-filter hash t _ _ h)
      | inr broke ↦ moved broke.1.links h
    ];
  }

  create_session-Stable :
      (id other : String) (user : ℤ) (expires_at : Time)
      → Stable Spent (s.repo.create_session id other user expires_at)
  create_session-Stable id other user expires_at = record {
    at = λ w h. elim (contract.create_session_lem id other user expires_at w) [
      | inl (done, new, sessions, links, users) ↦ moved links h
      | inr (inl broke) ↦ moved broke.1.links h
      | inr (inr (clash, failed, same)) ↦ moved same.links h
    ];
  }

  pub create_link-Stable :
      (user : ℤ) (other : String) (expires_at : Time)
      → (other == hash) ≡ false
      → Stable Spent (s.repo.create_magic_link user other expires_at)
  create_link-Stable user other expires_at differs = record {
    at = λ w h. elim (contract.create_link_lem user other expires_at w) [
      | inl (l, done, of_user, hashed, expires, added, sessions, users) ↦
          subst (AreSpent hash t) (sym added)
            (AreSpent-append hash t l _ h (ap (λ x. x == hash) hashed ∙ differs))
      | inr broke ↦ moved broke.1.links h
    ];
  }

  pub logout-Stable : (user : ℤ) → Stable Spent (logout s user)
  unfolding logout
  logout-Stable user = record {
    at = λ w h. elim (contract.delete_sessions_lem user w) [
      | inl (done, sessions, links, users) ↦ moved links h
      | inr broke ↦ moved broke.1.links h
    ];
  }

  pub start_session-Stable :
      (user : ℤ) (expires_at : Time) → Stable Spent (start_session s user expires_at)
  unfolding start_session
  start_session-Stable user expires_at =
      >>=-Stable Spent (s.token_generator _) _
        (Keeps-Stable (s.token_generator _) (env.generator_keeps _))
        λ id.
          >>=-Stable Spent (s.token_generator _) _
            (Keeps-Stable (s.token_generator _) (env.generator_keeps _))
            λ token.
              >>=-Stable Spent (s.repo.create_session id (s.hash_token token) user expires_at) _
                (create_session-Stable id _ user expires_at) λ u. pure-Stable Spent _

  pub verify-Stable : (raw : String) → Stable Spent (verify_magic_link s raw)
  unfolding verify_magic_link
  verify-Stable raw = >>=-Stable Spent (clock s) _ clock-Stable λ now.
      >>=-Stable Spent (map_error magic_link_error (s.repo.use_magic_link (s.hash_token raw) now)) _
        (map_error-Stable Spent magic_link_error (s.repo.use_magic_link (s.hash_token raw) now)
          (use_link-Stable _ now))
        λ l. start_session-Stable _ _

  pub authenticate-Stable : (token : String) → Stable Spent (authenticate_session s token)
  authenticate-Stable = Reading.authenticate_session-Stable view s contract env Spent seen
