-- ===== src/Sqlite/AdminRepository/Imports.antt =====
-- An import happens as a whole or not at all.
use mathlib.Core.Path.{subst}
use mathlib.Core.List.{append-nil, append_assoc}
use air_cover.Base.{
  String, ◌≡◌, refl, sym, ◌∙◌, ap, ◌⊎◌, inl, inr, Bool, true, false, some, List, [], ◌∷◌, ◌++◌,
  string_eq, any_by, All, arith,
}
use air_cover.Domain.{role_member}
use air_cover.Errors.{Error, Result, Done, ok, err, ◌>>◌, pure}
use air_cover.Errors.Steps.{>>=-ok}
use air_cover.Sqlite.Tables.{Db, UserRow, driver}
use air_cover.Sqlite.Driver.{driver-cases, driver-SameTables}
use air_cover.Sqlite.Queries.Users
use air_cover.Sqlite.Queries.Users.{has_email, import_if_new, new_user_row}
use air_cover.Sqlite.AdminRepository.{import_all, rolled_back, transaction, import_users}

-- A row as an import makes it.
pub record IsImported (r : UserRow) : Type 0 where
  pub member : r.role ≡ some role_member
  pub enabled : r.is_enabled ≡ true

-- The table holds the rows that it held, unchanged, then new members, and the emails are all there.
abbrev pub Imported : List String → List UserRow → List UserRow → Type 0
Imported emails rows rows' =
    (added : List UserRow) × (rows' ≡ rows ++ added)
    × All IsImported added
    × All (λ email. any_by (has_email email) rows' ≡ true) emails

any-append_left :
    (email : String) (a b : List UserRow)
    → any_by (has_email email) a ≡ true
    → any_by (has_email email) (a ++ b) ≡ true
any-append_left email [] b h = cc h
any-append_left email (r ∷ a) b h = ground (arith, any-append_left email a b)

any-append_new :
    (email : String) (a : List UserRow) (r : UserRow)
    → r.email ≡ email
    → any_by (has_email email) (a ++ r ∷ []) ≡ true
any-append_new email [] r e = ground (arith, string_eq.equal_iff r.email email)
any-append_new email (x ∷ a) r e = ground (arith, any-append_new email a r)

All-IsImported-append :
    (a b : List UserRow) → All IsImported a → All IsImported b → All IsImported (a ++ b)
All-IsImported-append [] b ha hb = hb
All-IsImported-append (r ∷ a) b ha hb = (ha.0, All-IsImported-append a b ha.1 hb)

one-Imported :
    (email : String) (b : Bool) (db : Db)
    → any_by (has_email email) db.users ≡ b
    → Imported (email ∷ []) db.users (import_if_new email b db).1.users
one-Imported email true db e = ([], sym (append-nil db.users), tt, (e, tt))
one-Imported email false db e = (
  new_user_row db email (some role_member) ∷ [],
  refl,
  (record { member = refl; enabled = refl }, tt),
  (any-append_new email db.users (new_user_row db email (some role_member)) refl, tt),
)

import_user-Imported :
    (email : String) (db : Db) (u : Unit {0})
    → (Users.import_user email db).0 ≡ ok u
    → Imported (email ∷ []) db.users (Users.import_user email db).1.users
unfolding Users.import_user
import_user-Imported email db u =
    driver-cases (λ p. p.0 ≡ ok u → Imported (email ∷ []) db.users p.1.users)
      (λ db'. import_if_new email (any_by (has_email email) db'.users) db') db
      (λ db' same h. rw (sym same.users) (one-Imported email _ db' refl))
      (λ text db' same failed h. cc h)

import_all-Imported :
    (emails : List String) (db : Db) (u : Unit {0})
    → (import_all emails db).0 ≡ ok u
    → Imported emails db.users (import_all emails db).1.users
unfolding import_all pure
import_all-Imported [] db u h = ([], sym (append-nil db.users), tt, tt)
import_all-Imported (email ∷ emails) db u h =
    let (v, first, e) = >>=-ok (Users.import_user email) (λ _. import_all emails) db u h in
    let db₁ = (Users.import_user email db).1 in
    let (added, rows, imported, there) = import_user-Imported email db v first in
    let (added₂, rows₂, imported₂, there₂) =
      import_all-Imported emails db₁ u (sym (ap (λ p. p.0) e) ∙ h) in
    subst (Imported (email ∷ emails) db.users)
      (sym (ap (λ (p : Result (Unit {0}) × Db). p.1.users) e))
      (
        added ++ added₂,
        rows₂ ∙ ap (λ rs. rs ++ added₂) rows ∙ append_assoc db.users added added₂,
        All-IsImported-append added added₂ imported imported₂,
        (
          ap (any_by (has_email email)) rows₂ ∙ any-append_left email db₁.users added₂ there.0,
          there₂,
        ),
      )

-- What an import comes to.
abbrev pub Atomic : List String → Db → Done × Db → Type 0
Atomic emails db p =
    ((p.0 ≡ ok tt) × Imported emails db.users p.1.users)
    ⊎ ((e : Error) × (p.0 ≡ err e) × (p.1.users ≡ db.users) × (p.1.user_seq ≡ db.user_seq))

rolled-Atomic :
    (emails : List String) (db : Db) (p : Done × Db)
    → ((p.0 ≡ ok tt) → Imported emails db.users p.1.users)
    → Atomic emails db (rolled_back db p)
rolled-Atomic emails db (ok u, db') h = inl (refl, h refl)
rolled-Atomic emails db (err e, db') h = inr (e, refl, refl, refl)

began-Imported :
    (emails : List String) (db : Db) (u : Unit {0})
    → ((driver >> import_all emails) db).0 ≡ ok u
    → Imported emails db.users ((driver >> import_all emails) db).1.users
began-Imported emails db u =
    driver-cases (λ p. p.0 ≡ ok u → Imported emails db.users p.1.users) (import_all emails) db
      (λ db' same h. rw (sym same.users) (import_all-Imported emails db' u h))
      (λ text db' same failed h. cc h)

-- An import of emails either succeeds, and then every email has a user, each new user is an enabled
-- member, and every row from before is there unchanged; or it returns an error, wherever the driver
-- failed, and leaves the users as they were.
pub import_users-Atomic :
    (emails : List String) (db : Db) → Atomic emails db (import_users emails db)
unfolding import_users transaction pure
import_users-Atomic [] db = inl (refl, ([], sym (append-nil db.users), tt, tt))
import_users-Atomic (email ∷ emails) db =
    rolled-Atomic (email ∷ emails) db ((driver >> import_all (email ∷ emails) >> driver) db) λ h.
      let (u, began, e) = >>=-ok (driver >> import_all (email ∷ emails)) (λ _. driver) db tt h in
      subst (Imported (email ∷ emails) db.users)
        (sym (
          ap (λ (p : Done × Db). p.1.users) e
          ∙ (driver-SameTables ((driver >> import_all (email ∷ emails)) db).1).users))
        (began-Imported (email ∷ emails) db u began)
