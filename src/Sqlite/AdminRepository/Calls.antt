-- ===== src/Sqlite/AdminRepository/Calls.antt =====
-- The admin service over the SQLite repository.
use mathlib.Core.Path.{subst}
use air_cover.Base.{
  ℤ, String, ◌≡◌, refl, sym, inl, inr, Bool, true, false, ◌&&◌, Option, none, some, List, [], ◌∷◌,
  ◌==◌, string_eq, int_eq, int_beq_iff, All, if◌then◌else◌, arith, Bool-cases,
}
use air_cover.Errors.{Result, ok, fail, forbidden, Exec, lift}
use air_cover.Errors.Steps.{Stable, pure-Stable, lift-Stable, map_error-Stable, >>=-Stable, >>=-at}
use air_cover.Domain.{CurrentUser}
use air_cover.Authorization.{Subject, Resource}
use air_cover.SubRequests.Ports.{Persona}
use air_cover.Admin.Ports.{UpdateUserInput, Service}
use air_cover.Admin.Service
use air_cover.Admin.Service.{authorize, disables, is_valid_optional, plain_not_found}
use air_cover.Admin.History.{Environment, Call, run, run-Stable}
use air_cover.Sqlite.Tables.{Db, UserRow, update_key}
use air_cover.Sqlite.Driver.{driver-cases}
use air_cover.Sqlite.Queries.Users
use air_cover.Sqlite.Queries.Users.{has_user_id}
use air_cover.Sqlite.AdminRepository.{admin_repository, update_user, user_affected}
use air_cover.Sqlite.AdminRepository.Emails.{HasDistinctEmails, admin_repository-IsStable}

abbrev pub admin_service :
    Option (Exec Db (List Persona))
    → (Subject → String → Resource → Exec Db (Unit {0}))
    → Service Db
admin_service catalog authorizer = record {
  repo = admin_repository;
  catalog = catalog;
  authorizer = authorizer;
}

guard_open :
    (b : Bool)
    → ◌≡◌ {A = Result (Unit {0})} (if b then fail forbidden else ok tt) (ok tt)
    → b ≡ false
guard_open true h = cc h
guard_open false h = refl

-- The users with this identifier are enabled.
abbrev IsOn : ℤ → UserRow → Type 0
IsOn id r = (r.id == id) ≡ true → r.is_enabled ≡ true

abbrev pub AreOn : ℤ → Db → Type 0
AreOn id db = All (IsOn id) db.users

All-update_key :
    (id user : ℤ) (f : UserRow → UserRow)
    → ((r : UserRow) → has_user_id user r ≡ true → IsOn id r → IsOn id (f r))
    → (rows : List UserRow) → All (IsOn id) rows
    → All (IsOn id) (update_key (has_user_id user) (λ _. true) f rows)
All-update_key id user f keeps [] h = tt
All-update_key id user f keeps (r ∷ rows) h = elim (Bool-cases (has_user_id user r)) [
  | inl e ↦ rw e (keeps r e h.0, h.1)
  | inr e ↦ rw e (h.0, All-update_key id user f keeps rows h.1)
]

module _ (catalog : Option (Exec Db (List Persona)))
    (authorizer : Subject → String → Resource → Exec Db (Unit {0})) where
  -- Through any calls of the admin service by any viewers, failing or not, no two users come to
  -- share an email.
  pub run-HasDistinctEmails :
      (env : Environment HasDistinctEmails (admin_service catalog authorizer)) (calls : List Call)
      (db : Db)
      → HasDistinctEmails db
      → HasDistinctEmails (run (admin_service catalog authorizer) calls db)
  run-HasDistinctEmails env calls db h =
      run-Stable HasDistinctEmails (admin_service catalog authorizer) admin_repository-IsStable env
        calls db h

  module _ (id : ℤ)
      (asks : (subject : Subject) (action : String) (r : Resource)
        → Stable (AreOn id) (authorizer subject action r)) where
    changed-Stable :
        (user : ℤ) (f : UserRow → UserRow)
        → ((r : UserRow) → has_user_id user r ≡ true → IsOn id r → IsOn id (f r))
        → Stable (AreOn id) (Users.update_user user f)
    changed-Stable user f keeps = record {
      at = λ db h.
          driver-cases (λ p. AreOn id p.1) _ db
            (λ db' same.
              All-update_key id user f keeps db'.users (subst (All (IsOn id)) (sym same.users) h))
            (λ text db' same failed. subst (All (IsOn id)) (sym same.users) h);
    }

    switched :
        (user : ℤ) (b : Bool)
        → (disables (some b) && user == id) ≡ false
        → (r : UserRow) → has_user_id user r ≡ true
        → r.id == id ≡ true
        → b ≡ true
    switched user b h r key mine =
        ground (arith, int_beq_iff r.id user, int_beq_iff r.id id, int_beq_iff user id)

    update-Stable :
        (user : ℤ) (role : Option String) (is_enabled : Option Bool)
        → (disables is_enabled && user == id) ≡ false
        → Stable (AreOn id) (update_user user role is_enabled)
    unfolding update_user Users.update_user_role_and_enabled Users.update_user_role
        Users.update_user_enabled
    update-Stable user none none other = pure-Stable (AreOn id) tt
    update-Stable user (some role) (some b) other =
        >>=-Stable (AreOn id) (Users.update_user user _) _
          (changed-Stable user (λ u. record u { role = some role; is_enabled = b })
            (λ r key on mine. switched user b other r key mine))
          λ rows. lift-Stable (AreOn id) (user_affected rows)
    update-Stable user (some role) none other =
        >>=-Stable (AreOn id) (Users.update_user user _) _
          (changed-Stable user (λ u. record u { role = some role }) (λ r key on. on))
          λ rows. lift-Stable (AreOn id) (user_affected rows)
    update-Stable user none (some b) other =
        >>=-Stable (AreOn id) (Users.update_user user _) _
          (changed-Stable user (λ u. record u { is_enabled = b })
            (λ r key on mine. switched user b other r key mine))
          λ rows. lift-Stable (AreOn id) (user_affected rows)

  -- Nobody disables themselves: whatever a viewer asks of UpdateUser, and whatever the authorizer
  -- says, the viewer stays enabled.
  pub update_user-keeps_viewer :
      (viewer : CurrentUser) (input : UpdateUserInput) (db : Db)
      → ((subject : Subject) (action : String) (r : Resource)
          → Stable (AreOn viewer.id) (authorizer subject action r))
      → AreOn viewer.id db
      → AreOn viewer.id (Service.update_user (admin_service catalog authorizer) viewer input db).1
  unfolding Service.update_user lift
  update_user-keeps_viewer viewer input db asks h =
      let P = AreOn viewer.id in
      let is_self = disables input.is_enabled && input.id == viewer.id in
      >>=-at P (lift _) _ db h λ u valid.
        >>=-at P (lift (if is_self then fail forbidden else ok tt)) _ db h λ v other.
          (>>=-Stable P (authorizer _ _ _) _ (asks _ _ _) λ a.
              map_error-Stable P plain_not_found (update_user input.id input.role input.is_enabled)
                (update-Stable viewer.id asks input.id input.role input.is_enabled
                  (guard_open is_self other))).at
            db h
