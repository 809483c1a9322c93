-- ===== src/Sqlite/AdminRepository/Emails.antt =====
-- No two users share an email.
use mathlib.Core.Path.{subst}
use air_cover.Base.{
  ℤ, String, ◌≡◌, refl, sym, ◌∙◌, inl, inr, Bool, true, false, ◌||◌, Option, none, some, List, [],
  ◌∷◌, ◌++◌, string_eq, any_by, arith, Bool-cases,
}
use air_cover.Errors.{Result, ok, err, Exec, ◌>>◌}
use air_cover.Errors.Steps.{Stable, pure-Stable, lift-Stable, >>=-Stable}
use air_cover.Sqlite.Tables.{Db, UserRow, driver, update_key}
use air_cover.Sqlite.Driver.{SameTables, driver-cases, driver-SameTables}
use air_cover.Sqlite.Queries.Users
use air_cover.Sqlite.Queries.Users.{
  has_email, has_user_id, insert_user, import_if_new, new_user_row,
}
use air_cover.Sqlite.AuthRepository.{get_user_by_id, found_user, get_user_by_email}
use air_cover.Sqlite.AdminRepository.{
  create_user, update_user, user_affected, import_all, rolled_back, transaction, import_users,
  list_users, admin_repository,
}
use air_cover.Admin.History.{IsStable}

abbrev pub AreDistinct : List UserRow → Type 0
AreDistinct [] = Unit
AreDistinct (r ∷ rows) = (any_by (has_email r.email) rows ≡ false) × AreDistinct rows

any-append :
    (email : String) (rows : List UserRow) (new : UserRow)
    → any_by (has_email email) (rows ++ new ∷ [])
      ≡ (any_by (has_email email) rows || has_email email new)
any-append email [] new = ground arith
any-append email (r ∷ rows) new = ground (arith, any-append email rows new)

split_free :
    (new r : UserRow) (rows : List UserRow)
    → any_by (has_email new.email) (r ∷ rows) ≡ false
    → (has_email r.email new ≡ false) × (any_by (has_email new.email) rows ≡ false)
split_free new r rows free =
    ground (arith, string_eq.equal_iff r.email new.email, string_eq.equal_iff new.email r.email)

neither : (a b : Bool) → a ≡ false → b ≡ false → (a || b) ≡ false
neither a b ha hb = rw (ha, hb) refl

AreDistinct-append :
    (new : UserRow) (rows : List UserRow)
    → AreDistinct rows
    → any_by (has_email new.email) rows ≡ false
    → AreDistinct (rows ++ new ∷ [])
AreDistinct-append new [] h free = (refl, tt)
AreDistinct-append new (r ∷ rows) h free =
    let (other, later) = split_free new r rows free in
    (any-append r.email rows new ∙ neither _ _ h.0 other, AreDistinct-append new rows h.1 later)

any-update_key :
    (email : String) (id : ℤ) (f : UserRow → UserRow)
    → ((r : UserRow) → (f r).email ≡ r.email)
    → (rows : List UserRow)
    → any_by (has_email email) (update_key (has_user_id id) (λ _. true) f rows)
      ≡ any_by (has_email email) rows
any-update_key email id f same [] = refl
any-update_key email id f same (r ∷ rows) =
    ground (arith, any-update_key email id f same rows, same r)

AreDistinct-update_key :
    (id : ℤ) (f : UserRow → UserRow)
    → ((r : UserRow) → (f r).email ≡ r.email)
    → (rows : List UserRow) → AreDistinct rows
    → AreDistinct (update_key (has_user_id id) (λ _. true) f rows)
AreDistinct-update_key id f same [] h = tt
AreDistinct-update_key id f same (r ∷ rows) h = elim (Bool-cases (has_user_id id r)) [
  | inl e ↦ rw (e, same r) h
  | inr e ↦
      rw e (any-update_key r.email id f same rows ∙ h.0, AreDistinct-update_key id f same rows h.1)
]

abbrev pub HasDistinctEmails : Db → Type 0
HasDistinctEmails db = AreDistinct db.users

moved : {a b : Db} → SameTables a b → HasDistinctEmails a → HasDistinctEmails b
moved same h = subst AreDistinct (sym same.users) h

-- A statement keeps the emails distinct if it does from tables on which the driver lets it run.
statement-Stable :
    {A : Type 0} (k : Exec Db A)
    → Stable HasDistinctEmails k
    → Stable HasDistinctEmails (driver >> k)
statement-Stable k h = record {
  at = λ db distinct.
      driver-cases (λ p. HasDistinctEmails p.1) k db (λ db' same. h.at db' (moved same distinct))
        (λ text db' same failed. moved same distinct);
}

added-HasDistinctEmails :
    (email : String) (role : Option String) (db : Db)
    → HasDistinctEmails db
    → any_by (has_email email) db.users ≡ false
    → HasDistinctEmails (Users.add_user email role db)
added-HasDistinctEmails email role db h free =
    AreDistinct-append (new_user_row db email role) db.users h free

inserted-HasDistinctEmails :
    (email : String) (role : Option String) (b : Bool) (db : Db)
    → HasDistinctEmails db
    → any_by (has_email email) db.users ≡ b
    → HasDistinctEmails (insert_user email role b db).1
inserted-HasDistinctEmails email role true db h e = h
inserted-HasDistinctEmails email role false db h e = added-HasDistinctEmails email role db h e

imported-HasDistinctEmails :
    (email : String) (b : Bool) (db : Db)
    → HasDistinctEmails db
    → any_by (has_email email) db.users ≡ b
    → HasDistinctEmails (import_if_new email b db).1
imported-HasDistinctEmails email true db h e = h
imported-HasDistinctEmails email false db h e = added-HasDistinctEmails email (some "member") db h e

get-Stable : (id : ℤ) → Stable HasDistinctEmails (get_user_by_id id)
unfolding get_user_by_id Users.get_user_by_id
get-Stable id =
    >>=-Stable HasDistinctEmails (driver >> _) _ (statement-Stable _ (record { at = λ db h. h }))
      λ row. lift-Stable HasDistinctEmails (found_user row)

create-Stable : (email role : String) → Stable HasDistinctEmails (create_user email role)
unfolding create_user Users.create_user
create-Stable email role =
    >>=-Stable HasDistinctEmails (Users.create_user email (some role)) get_user_by_id
      (statement-Stable (λ db. insert_user email (some role) (any_by (has_email email) db.users) db)
        (record { at = λ db h. inserted-HasDistinctEmails email (some role) _ db h refl }))
      get-Stable

email-Stable : (email : String) → Stable HasDistinctEmails (get_user_by_email email)
unfolding get_user_by_email Users.get_user_by_email
email-Stable email =
    >>=-Stable HasDistinctEmails (driver >> _) _ (statement-Stable _ (record { at = λ db h. h }))
      λ row. lift-Stable HasDistinctEmails (found_user row)

list-Stable : Stable HasDistinctEmails list_users
unfolding list_users Users.list_users
list-Stable =
    >>=-Stable HasDistinctEmails (driver >> _) _ (statement-Stable _ (record { at = λ db h. h }))
      λ rows. pure-Stable HasDistinctEmails _

changed-Stable :
    (id : ℤ) (f : UserRow → UserRow)
    → ((r : UserRow) → (f r).email ≡ r.email)
    → Stable HasDistinctEmails (Users.update_user id f)
changed-Stable id f same =
    statement-Stable _ (record { at = λ db h. AreDistinct-update_key id f same db.users h })

update-Stable :
    (id : ℤ) (role : Option String) (is_enabled : Option Bool)
    → Stable HasDistinctEmails (update_user id role is_enabled)
unfolding update_user Users.update_user_role_and_enabled Users.update_user_role
    Users.update_user_enabled
update-Stable id none none = pure-Stable HasDistinctEmails tt
update-Stable id (some role) (some is_enabled) =
    >>=-Stable HasDistinctEmails (Users.update_user id _) _ (changed-Stable id _ (λ r. refl))
      λ rows. lift-Stable HasDistinctEmails (user_affected rows)
update-Stable id (some role) none =
    >>=-Stable HasDistinctEmails (Users.update_user id _) _ (changed-Stable id _ (λ r. refl))
      λ rows. lift-Stable HasDistinctEmails (user_affected rows)
update-Stable id none (some is_enabled) =
    >>=-Stable HasDistinctEmails (Users.update_user id _) _ (changed-Stable id _ (λ r. refl))
      λ rows. lift-Stable HasDistinctEmails (user_affected rows)

import_all-Stable : (emails : List String) → Stable HasDistinctEmails (import_all emails)
unfolding import_all Users.import_user
import_all-Stable [] = pure-Stable HasDistinctEmails tt
import_all-Stable (email ∷ emails) =
    >>=-Stable HasDistinctEmails (Users.import_user email) _
      (statement-Stable (λ db. import_if_new email (any_by (has_email email) db.users) db)
        (record { at = λ db h. imported-HasDistinctEmails email _ db h refl }))
      λ u. import_all-Stable emails

driver-Stable : Stable HasDistinctEmails driver
driver-Stable = record { at = λ db h. moved (driver-SameTables db) h }

rolled_back-HasDistinctEmails :
    (db : Db) (p : Result (Unit {0}) × Db)
    → HasDistinctEmails db
    → HasDistinctEmails p.1
    → HasDistinctEmails (rolled_back db p).1
rolled_back-HasDistinctEmails db (ok a, db') h h' = h'
rolled_back-HasDistinctEmails db (err e, db') h h' = h

import-Stable : (emails : List String) → Stable HasDistinctEmails (import_users emails)
unfolding import_users transaction
import-Stable [] = pure-Stable HasDistinctEmails tt
import-Stable (email ∷ emails) = record {
  at = λ db h. rolled_back-HasDistinctEmails db _ h (
      (>>=-Stable HasDistinctEmails (driver >> import_all (email ∷ emails)) _
          (statement-Stable (import_all (email ∷ emails)) (import_all-Stable (email ∷ emails)))
          λ u. driver-Stable).at
        db h);
}

-- Every method of the repository that the admin service calls keeps the emails distinct.
pub admin_repository-IsStable : IsStable HasDistinctEmails admin_repository
admin_repository-IsStable = record {
  list = list-Stable;
  get = email-Stable;
  create = create-Stable;
  update = update-Stable;
  imports = import-Stable;
}
