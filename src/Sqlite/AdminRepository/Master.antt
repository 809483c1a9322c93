-- ===== src/Sqlite/AdminRepository/Master.antt =====
-- internal/app/bootstrap over the SQLite repository.
use mathlib.Core.Path.{subst}
use air_cover.Base.{
  ℤ, String, ◌≡◌, refl, sym, ◌∙◌, ap, ◌⊎◌, inl, inr, Bool, true, false, some, List, [], ◌∷◌, ◌++◌,
  ◌==◌, string_eq, find_by, any_by, Bool-cases,
}
use air_cover.Errors.{Result, ok, err, not_found, is, wrap, continue, lift, pure, map_error, ◌>>=◌}
use air_cover.Errors.Steps.{>>=-ok, map_error-ok}
use air_cover.Domain.{User, role_admin}
use air_cover.Bootstrap.{
  Repository, create_master, create_if_missing, look_for_master, ensure_master_user,
}
use air_cover.Sqlite.Tables.{Db, UserRow}
use air_cover.Sqlite.Driver.{driver-cases}
use air_cover.Sqlite.Queries.Users
use air_cover.Sqlite.Queries.Users.{has_email, insert_user, new_user_row}
use air_cover.Sqlite.AuthRepository.{get_user_by_email, get_user_by_id, found_user}
use air_cover.Sqlite.AdminRepository.{create_user}

abbrev pub master_repository : Repository Db
master_repository = record { get_user_by_email = get_user_by_email; create_user = create_user }

-- From the rows before to the rows after, one user is new, with an email that nobody had, this role,
-- and enabled.
abbrev Added : String → String → List UserRow → List UserRow → Type 0
Added email role rows rows' =
    (row : UserRow) × (any_by (has_email email) rows ≡ false)
    × (rows' ≡ rows ++ row ∷ [])
    × (row.email ≡ email)
    × (row.role ≡ some role)
    × (row.is_enabled ≡ true)

-- There is a user with the email afterwards: one of those from before, when nothing has changed, or
-- a new administrator.
abbrev pub HasMaster : String → List UserRow → List UserRow → Type 0
HasMaster email rows rows' =
    ((any_by (has_email email) rows ≡ true) × (rows' ≡ rows)) ⊎ Added email "admin" rows rows'

any-find :
    (email : String) (rows : List UserRow) (u : User)
    → found_user (find_by (has_email email) rows) ≡ ok u
    → any_by (has_email email) rows ≡ true
any-find email [] u h = cc h
any-find email (r ∷ rows) u h = elim (Bool-cases (has_email email r)) [
  | inl e ↦ rw e refl
  | inr e ↦ rw e (any-find email rows u (rw e at h))
]

look-users : (email : String) (db : Db) → (get_user_by_email email db).1.users ≡ db.users
unfolding get_user_by_email Users.get_user_by_email ◌>>=◌ lift
look-users email db =
    driver-cases (λ p. (continue p.0 (λ row. lift (found_user row)) p.1).1.users ≡ db.users)
      (λ db'. (ok (find_by (has_email email) db'.users), db')) db (λ db' same. same.users)
      (λ text db' same failed. same.users)

found-any :
    (email : String) (db : Db) (u : User)
    → (get_user_by_email email db).0 ≡ ok u
    → any_by (has_email email) db.users ≡ true
unfolding get_user_by_email Users.get_user_by_email ◌>>=◌ lift
found-any email db u =
    driver-cases
      (λ p.
        (continue p.0 (λ row. lift (found_user row)) p.1).0 ≡ ok u
        → any_by (has_email email) db.users ≡ true)
      (λ db'. (ok (find_by (has_email email) db'.users), db')) db
      (λ db' same h. any-find email db.users u (rw (sym same.users) h))
      (λ text db' same failed h. cc h)

inserted-Added :
    (email role : String) (b : Bool) (db : Db) (id : ℤ)
    → any_by (has_email email) db.users ≡ b
    → (insert_user email (some role) b db).0 ≡ ok id
    → Added email role db.users (insert_user email (some role) b db).1.users
inserted-Added email role true db id e h = cc h
inserted-Added email role false db id e h =
    (new_user_row db email (some role), e, refl, refl, refl, refl)

statement-Added :
    (email role : String) (db : Db) (id : ℤ)
    → (Users.create_user email (some role) db).0 ≡ ok id
    → Added email role db.users (Users.create_user email (some role) db).1.users
unfolding Users.create_user
statement-Added email role db id =
    driver-cases (λ p. p.0 ≡ ok id → Added email role db.users p.1.users)
      (λ db'. insert_user email (some role) (any_by (has_email email) db'.users) db') db
      (λ db' same h.
        subst
          (λ rows.
            Added email role rows
              (insert_user email (some role) (any_by (has_email email) db'.users) db').1.users)
          same.users (inserted-Added email role _ db' id refl h))
      (λ text db' same failed h. cc h)

get-users : (id : ℤ) (db : Db) → (get_user_by_id id db).1.users ≡ db.users
unfolding get_user_by_id Users.get_user_by_id ◌>>=◌ lift
get-users id db =
    driver-cases (λ p. (continue p.0 (λ row. lift (found_user row)) p.1).1.users ≡ db.users) _ db
      (λ db' same. same.users) (λ text db' same failed. same.users)

created-Added :
    (email role : String) (db : Db) (u : User)
    → (create_user email role db).0 ≡ ok u
    → Added email role db.users (create_user email role db).1.users
unfolding create_user
created-Added email role db u h =
    let (id, done, e) = >>=-ok (Users.create_user email (some role)) get_user_by_id db u h in
    subst (Added email role db.users)
      (sym (ap (λ (p : Result User × Db). p.1.users) e ∙ get-users id _))
      (statement-Added email role db id done)

master-Added :
    (email : String) (db : Db)
    → (create_master master_repository email db).0 ≡ ok tt
    → Added email "admin" db.users (create_master master_repository email db).1.users
unfolding create_master pure map_error
master-Added email db h =
    let m =
      map_error (λ e. wrap "failed to create master user: " e "") (create_user email role_admin) in
    let (u, done, e) = >>=-ok m (λ _. pure tt) db tt h in
    subst (Added email "admin" db.users) (sym (ap (λ (p : Result (Unit {0}) × Db). p.1.users) e)) (
      created-Added email role_admin db u (map_error-ok _ (create_user email role_admin) db u done))

missing-HasMaster :
    (email : String) (r : Result User) (db : Db)
    → ((u : User) → r ≡ ok u → any_by (has_email email) db.users ≡ true)
    → (create_if_missing master_repository email r db).0 ≡ ok tt
    → HasMaster email db.users (create_if_missing master_repository email r db).1.users
missing-HasMaster email (ok u) db there h = inl (there u refl, refl)
missing-HasMaster email (err e) db there h = elim (Bool-cases (is e not_found)) [
  | inl missing ↦ rw missing (inr (master-Added email db (rw missing at h)))
  | inr other ↦
      let bad : ◌≡◌ {A = Result (Unit {0})} (err (wrap "failed to check master user: " e ""))
          (ok tt) =
        rw other at h in
      cc bad
]

-- A start-up that succeeds with the email of an administrator set leaves the users as they are, if
-- one has that email, and else adds one user: enabled, with that email and the role of an
-- administrator.
pub ensure_master_user-HasMaster :
    (email : String) (db : Db)
    → (email == "") ≡ false
    → (ensure_master_user master_repository email db).0 ≡ ok tt
    → HasMaster email db.users (ensure_master_user master_repository email db).1.users
unfolding ensure_master_user look_for_master
ensure_master_user-HasMaster email db set h =
    let db' = (get_user_by_email email db).1 in
    let look = look-users email db in
    rw set (
      subst (λ rows. HasMaster email rows (look_for_master master_repository email db).1.users) look
        (missing-HasMaster email (get_user_by_email email db).0 db'
          (λ u e. ap (any_by (has_email email)) look ∙ found-any email db u e) (rw set at h)))
