-- ===== src/Sqlite/AuthRepository/Reads.antt =====
-- What the auth service reads through auth_repository.go.
use air_cover.Base.{
  ℤ, String, ◌≡◌, refl, sym, ◌∙◌, ap, ◌⊎◌, inl, inr, Option, none, some, List, [], ◌∷◌, int_eq,
  int_beq_iff, string_eq, find_by, Bool-cases,
}
use air_cover.Errors.{err, opaque, continue, lift, ◌>>=◌}
use air_cover.Domain.{User, MagicLink, Session, Time}
use air_cover.SubRequests.Spec.{IsBroken}
use air_cover.Auth.Spec.{View, Same, has_token, unexpired, found}
use air_cover.Sqlite.Tables.{Db, UserRow, user_from_sql}
use air_cover.Sqlite.Driver.{SameTables, IsPending, driver-cases, opaque-IsOther}
use air_cover.Sqlite.Queries.Users
use air_cover.Sqlite.Queries.Users.{has_user_id, has_email}
use air_cover.Sqlite.Queries.Auth
use air_cover.Sqlite.Queries.Auth.{clashes, insert_session, new_link, next_link}
use air_cover.Sqlite.AuthRepository.{
  found_user, found_link, current_session, get_user_by_email, get_user_by_id, get_session_by_token,
}

abbrev pub user_of : Option UserRow → Option User
user_of none = none
user_of (some row) = some (user_from_sql row)

abbrev pub view : View Db
view = record {
  users = λ db id. user_of (find_by (has_user_id id) db.users);
  by_email = λ db email. user_of (find_by (has_email email) db.users);
  links = λ db. db.magic_links;
  sessions = λ db. db.sessions;
  IsFault = IsPending;
}

pub Same-of : {a b : Db} → SameTables a b → Same view a b
Same-of same = record {
  users = ap (λ rows id. user_of (find_by (has_user_id id) rows)) same.users;
  by_email = ap (λ rows email. user_of (find_by (has_email email) rows)) same.users;
  links = same.magic_links;
  sessions = same.sessions;
  pending = same.pending;
}

pub broken :
    {A : Type 0} {db : Db} (text : String)
    → IsPending db (opaque text)
    → IsBroken {A = A} (IsPending db) (err (opaque text))
broken text failed = (opaque text, refl, opaque-IsOther text, failed)

found-user_of : (r : Option UserRow) → found_user r ≡ found (user_of r)
found-user_of none = refl
found-user_of (some r) = refl

pub found-link_of : (r : Option MagicLink) → found_link r ≡ found r
found-link_of none = refl
found-link_of (some r) = refl

current-unexpired : (now : Time) (r : Option Session) → current_session now r ≡ unexpired now r
current-unexpired now none = refl
current-unexpired now (some s) = refl

pub users_lem :
    (id : ℤ) (u : User) (rows : List UserRow)
    → user_of (find_by (has_user_id id) rows) ≡ some u
    → u.id ≡ id
users_lem id u [] h = cc h
users_lem id u (r ∷ rows) h = elim (Bool-cases (has_user_id id r)) [
  | inl e ↦
      let same : some (user_from_sql r) ≡ some u = rw e at h in
      sym (id_of same) ∙ (int_beq_iff r.id id).0 e
  | inr e ↦ users_lem id u rows (rw e at h)
]
  where
    id_of : some (user_from_sql r) ≡ some u → r.id ≡ u.id
    id_of same = ap (λ (o : Option User). elim o [ none ↦ r.id | some x ↦ x.id ]) same

pub email_keeps : (email : String) (db : Db) → Same view db (get_user_by_email email db).1
unfolding get_user_by_email Users.get_user_by_email ◌>>=◌
email_keeps email db =
    driver-cases (λ p. Same view db (continue p.0 (λ r. lift (found_user r)) p.1).1) _ db
      (λ db' same. Same-of same) (λ text db' same failed. Same-of same)

pub email_lem :
    (email : String) (db : Db)
    → ((get_user_by_email email db).0 ≡ found (view.by_email db email))
      ⊎ IsBroken (IsPending db) (get_user_by_email email db).0
unfolding get_user_by_email Users.get_user_by_email ◌>>=◌
email_lem email db =
    driver-cases
      (λ p.
        ((continue p.0 (λ r. lift (found_user r)) p.1).0 ≡ found (view.by_email db email))
        ⊎ IsBroken (IsPending db) (continue p.0 (λ r. lift (found_user r)) p.1).0)
      _ db (λ db' same. inl (found-user_of _ ∙ ap (λ us. found (us email)) (Same-of same).by_email))
      (λ text db' same failed. inr (broken text failed))

pub user_keeps : (id : ℤ) (db : Db) → Same view db (get_user_by_id id db).1
unfolding get_user_by_id Users.get_user_by_id ◌>>=◌
user_keeps id db =
    driver-cases (λ p. Same view db (continue p.0 (λ r. lift (found_user r)) p.1).1) _ db
      (λ db' same. Same-of same) (λ text db' same failed. Same-of same)

pub user_lem :
    (id : ℤ) (db : Db)
    → ((get_user_by_id id db).0 ≡ found (view.users db id))
      ⊎ IsBroken (IsPending db) (get_user_by_id id db).0
unfolding get_user_by_id Users.get_user_by_id ◌>>=◌
user_lem id db =
    driver-cases
      (λ p.
        ((continue p.0 (λ r. lift (found_user r)) p.1).0 ≡ found (view.users db id))
        ⊎ IsBroken (IsPending db) (continue p.0 (λ r. lift (found_user r)) p.1).0)
      _ db (λ db' same. inl (found-user_of _ ∙ ap (λ us. found (us id)) (Same-of same).users))
      (λ text db' same failed. inr (broken text failed))

pub session_keeps :
    (hash : String) (now : Time) (db : Db) → Same view db (get_session_by_token hash now db).1
unfolding get_session_by_token Auth.get_session_by_token ◌>>=◌
session_keeps hash now db =
    driver-cases (λ p. Same view db (continue p.0 (λ r. lift (current_session now r)) p.1).1) _ db
      (λ db' same. Same-of same) (λ text db' same failed. Same-of same)

pub session_lem :
    (hash : String) (now : Time) (db : Db)
    → ((get_session_by_token hash now db).0 ≡ unexpired now (find_by (has_token hash) db.sessions))
      ⊎ IsBroken (IsPending db) (get_session_by_token hash now db).0
unfolding get_session_by_token Auth.get_session_by_token ◌>>=◌
session_lem hash now db =
    driver-cases
      (λ p.
        ((continue p.0 (λ r. lift (current_session now r)) p.1).0
          ≡ unexpired now (find_by (has_token hash) db.sessions))
        ⊎ IsBroken (IsPending db) (continue p.0 (λ r. lift (current_session now r)) p.1).0)
      _ db
      (λ db' same. inl (
        current-unexpired now _
        ∙ ap (λ ss. unexpired now (find_by (has_token hash) ss)) same.sessions))
      (λ text db' same failed. inr (broken text failed))
