-- ===== src/Sqlite/AuthRepository/AuthContract.antt =====
-- The SQLite repository fulfils what the auth service asks of it.
use air_cover.Base.{
  ℤ, String, ◌≡◌, refl, sym, ◌∙◌, ap, ◌⊎◌, inl, inr, Bool, true, false, not, none, List, [], ◌∷◌,
  ◌++◌, string_eq, find_by, filter_by, arith,
}
use air_cover.Errors.{Result, ok, continue, lift, ◌>>=◌}
use air_cover.Domain.{MagicLink, Session, Time}
use air_cover.Auth.Spec.{Broke, Clashed, RepositoryContract, is_live, has_token, is_of_user, found}
use air_cover.Sqlite.Tables.{Db}
use air_cover.Sqlite.Driver.{SameTables, driver-cases}
use air_cover.Sqlite.Queries.Auth
use air_cover.Sqlite.Queries.Auth.{clashes, insert_session, new_link, next_link}
use air_cover.Sqlite.AuthRepository.{auth_repository, found_link, use_magic_link, create_session}
use air_cover.Sqlite.AuthRepository.Reads.{
  view, Same-of, broken, found-link_of, email_lem, email_keeps, user_keeps, user_lem, session_keeps,
  session_lem, users_lem,
}

create_link_lem :
    (user : ℤ) (hash : String) (expires_at : Time) (db : Db)
    → let p = Auth.create_magic_link user hash expires_at db in
      ((l : MagicLink) × (p.0 ≡ ok tt)
        × (l.user_id ≡ user)
        × (l.token_hash ≡ hash)
        × (l.expires_at ≡ expires_at)
        × (view.links p.1 ≡ view.links db ++ l ∷ [])
        × (view.sessions p.1 ≡ view.sessions db)
        × (view.users p.1 ≡ view.users db))
      ⊎ Broke view p db
unfolding Auth.create_magic_link
create_link_lem user hash expires_at db =
    driver-cases
      (λ p.
        ((l : MagicLink) × (p.0 ≡ ok tt)
          × (l.user_id ≡ user)
          × (l.token_hash ≡ hash)
          × (l.expires_at ≡ expires_at)
          × (view.links p.1 ≡ view.links db ++ l ∷ [])
          × (view.sessions p.1 ≡ view.sessions db)
          × (view.users p.1 ≡ view.users db))
        ⊎ Broke view p db)
      _ db
      (λ db' same. inl (
        new_link (next_link db') user hash expires_at,
        refl,
        refl,
        refl,
        refl,
        ap (λ ls. ls ++ new_link (next_link db') user hash expires_at ∷ []) same.magic_links,
        same.sessions,
        (Same-of same).users,
      ))
      (λ text db' same failed. inr (broken text failed, Same-of same))

use_link_lem :
    (hash : String) (now : Time) (db : Db)
    → let p = use_magic_link hash now db in
      ((p.0 ≡ found (find_by (is_live hash now) (view.links db)))
        × (view.links p.1 ≡ filter_by (λ l. not (is_live hash now l)) (view.links db))
        × (view.sessions p.1 ≡ view.sessions db)
        × (view.users p.1 ≡ view.users db))
      ⊎ Broke view p db
unfolding use_magic_link Auth.use_magic_link ◌>>=◌
use_link_lem hash now db =
    driver-cases
      (λ q.
        let p = continue q.0 (λ l. lift (found_link l)) q.1 in
        ((p.0 ≡ found (find_by (is_live hash now) (view.links db)))
          × (view.links p.1 ≡ filter_by (λ l. not (is_live hash now l)) (view.links db))
          × (view.sessions p.1 ≡ view.sessions db)
          × (view.users p.1 ≡ view.users db))
        ⊎ Broke view p db)
      _ db
      (λ db' same. inl (
        found-link_of _ ∙ ap (λ ls. found (find_by (is_live hash now) ls)) same.magic_links,
        ap (filter_by (λ l. not (is_live hash now l))) same.magic_links,
        same.sessions,
        (Same-of same).users,
      ))
      (λ text db' same failed. inr (broken text failed, Same-of same))

delete_sessions_lem :
    (user : ℤ) (db : Db)
    → let p = Auth.delete_sessions_by_user_id user db in
      ((p.0 ≡ ok tt)
        × (view.sessions p.1 ≡ filter_by (λ s. not (is_of_user user s)) (view.sessions db))
        × (view.links p.1 ≡ view.links db)
        × (view.users p.1 ≡ view.users db))
      ⊎ Broke view p db
unfolding Auth.delete_sessions_by_user_id
delete_sessions_lem user db =
    driver-cases
      (λ p.
        ((p.0 ≡ ok tt)
          × (view.sessions p.1 ≡ filter_by (λ s. not (is_of_user user s)) (view.sessions db))
          × (view.links p.1 ≡ view.links db)
          × (view.users p.1 ≡ view.users db))
        ⊎ Broke view p db)
      _ db
      (λ db' same. inl (
        refl,
        ap (filter_by (λ s. not (is_of_user user s))) same.sessions,
        same.magic_links,
        (Same-of same).users,
      ))
      (λ text db' same failed. inr (broken text failed, Same-of same))

-- What inserting a session comes to.
abbrev Inserted : Session → Db → Result (Unit {0}) × Db → Type 0
Inserted s db p =
    ((p.0 ≡ ok tt)
      × (find_by (has_token s.token_hash) (view.sessions db) ≡ none)
      × (view.sessions p.1 ≡ view.sessions db ++ s ∷ [])
      × (view.links p.1 ≡ view.links db)
      × (view.users p.1 ≡ view.users db))
    ⊎ (Broke view p db ⊎ Clashed view s.id s.token_hash p db)

no_clash :
    (s : Session) (sessions : List Session)
    → clashes s sessions ≡ false
    → find_by (has_token s.token_hash) sessions ≡ none
no_clash s [] h = refl
no_clash s (x ∷ sessions) h = ground (arith, no_clash s sessions)

insert_lem :
    (s : Session) (db db' : Db) (b : Bool)
    → SameTables db db'
    → clashes s db'.sessions ≡ b
    → Inserted s db (insert_session s b db')
insert_lem s db db' true same e =
    inr (inr (ap (clashes s) (sym same.sessions) ∙ e, (_, refl), Same-of same))
insert_lem s db db' false same e = inl (
  refl,
  no_clash s db.sessions (ap (clashes s) (sym same.sessions) ∙ e),
  ap (λ ss. ss ++ s ∷ []) same.sessions,
  same.magic_links,
  (Same-of same).users,
)

create_session_lem :
    (id hash : String) (user : ℤ) (expires_at : Time) (db : Db)
    → let s : Session = record {
      id = id;
      user_id = user;
      token_hash = hash;
      expires_at = expires_at;
    } in
      Inserted s db (create_session id hash user expires_at db)
unfolding create_session Auth.create_session
create_session_lem id hash user expires_at db =
    let s : Session = record {
      id = id;
      user_id = user;
      token_hash = hash;
      expires_at = expires_at;
    } in
    driver-cases (Inserted s db) _ db
      (λ db' same. insert_lem s db db' (clashes s db'.sessions) same refl)
      (λ text db' same failed. inr (inl (broken text failed, Same-of same)))

-- The SQLite repository finds users by their identifiers and their emails, and
-- sessions by their hashes, creates and uses up magic links, and creates and
-- deletes sessions as the auth service relies on: a link is returned and removed only while it is
-- live, a new session is created unless another has its identifier or its hash, and a logout
-- removes every session of the user; any other failure is an error that the driver had in store, and
-- changes nothing.
pub auth-contract : RepositoryContract view auth_repository
auth-contract = record {
  users_lem = λ id u db. users_lem id u db.users;
  email_lem = email_lem;
  email_keeps = λ email. record { at = email_keeps email };
  user_keeps = λ id. record { at = user_keeps id };
  user_lem = user_lem;
  session_keeps = λ hash now. record { at = session_keeps hash now };
  session_lem = session_lem;
  create_link_lem = create_link_lem;
  use_link_lem = use_link_lem;
  create_session_lem = create_session_lem;
  delete_sessions_lem = delete_sessions_lem;
}
