-- ===== src/Recipients/Created.antt =====
-- Whom a new request is announced to, over the SQLite repository.
use mathlib.Core.List.{Perm}
use mathlib.Core.List.Perm
use air_cover.Base.{
  String, ◌≡◌, refl, sym, ap, ◌⊎◌, inl, inr, some, List, [], ◌∷◌, map, filter_by, sort_by,
}
use air_cover.Base.Sort.{sort_by-perm}
use air_cover.Errors.{Result, Done, ok, err, opaque, wrap, on_error, continue, ◌>>=◌, pure}
use air_cover.Domain.{User}
use air_cover.SubRequests.Ports.{CreatedEvent}
use air_cover.SubRequests.Service.{log_error}
use air_cover.Sqlite.Tables.{Db, UserRow, user_from_sql}
use air_cover.Sqlite.Driver.{SameTables, IsPending, driver-cases}
use air_cover.Sqlite.Queries.Users
use air_cover.Sqlite.Queries.Users.{email_before}
use air_cover.Sqlite.AuthRepository.{list_active_users}
use air_cover.Recipients.{
  Sender, SubRequestNotifier, created_message, tell_all, tell_users, sub_request_created,
}

-- The notifier over the database.
abbrev pub db_notifier : Sender Db → String → SubRequestNotifier Db
db_notifier sender base_url = record {
  users = some list_active_users;
  sender = some sender;
  base_url = base_url;
}

-- The emails of the users who are enabled.
abbrev pub enabled_emails : Db → List String
enabled_emails db = map (λ (r : UserRow). r.email) (filter_by (λ u. u.is_enabled) db.users)

emails_of_rows :
    (rows : List UserRow)
    → map (λ (u : User). u.email) (map user_from_sql rows) ≡ map (λ (r : UserRow). r.email) rows
emails_of_rows [] = refl
emails_of_rows (r ∷ rows) = ap (λ es. r.email ∷ es) (emails_of_rows rows)

module _ (sender : Sender Db) (base_url : String) (event : CreatedEvent) where
  -- One message goes to all of them; none is sent to nobody.
  abbrev pub SentTo : List String → Db → Done × Db → Type 0
  SentTo [] db p = p ≡ (ok tt, db)
  SentTo (email ∷ emails) db p = p ≡ (
    ok tt,
    (sender.send_sub_request_created (email ∷ emails)
        (created_message (db_notifier sender base_url) event) db).1,
  )

  tell-SentTo :
      (emails : List String) (db : Db)
      → SentTo emails db (tell_all (db_notifier sender base_url) sender event emails db)
  unfolding tell_all pure log_error
  tell-SentTo [] db = refl
  tell-SentTo (email ∷ emails) db = refl

  abbrev pub Announced : Db → Done × Db → Type 0
  Announced db p =
      ((text : String) × IsPending db (opaque text)
        × (p.0 ≡ err (wrap "list active users: " (opaque text) ""))
        × SameTables db p.1)
      ⊎ ((emails : List String) × (db' : Db) × Perm emails (enabled_emails db)
          × SameTables db db'
          × SentTo emails db' p)

  -- A new request is announced in one message to exactly the users who are enabled, once each; a
  -- failure of the sender is not returned. The only other outcome is where the driver was to fail:
  -- its error is returned, wrapped, nothing is sent, and no table has changed.
  pub created-Announced :
      (db : Db) → Announced db (sub_request_created (db_notifier sender base_url) event db)
  unfolding sub_request_created tell_users list_active_users Users.list_active_users ◌>>=◌
  created-Announced db =
      driver-cases (λ q. Announced db (announce q))
        (λ db'. (ok (sort_by email_before (filter_by (λ u. u.is_enabled) db'.users)), db')) db
        (λ db' same. inr (
          map (λ (u : User). u.email) (map user_from_sql (rows_of db')),
          db',
          rw (emails_of_rows (rows_of db'), sym same.users)
              (Perm.map (λ (r : UserRow). r.email)
                (sort_by-perm email_before (filter_by (λ u. u.is_enabled) db'.users))),
          same,
          tell-SentTo _ db',
        ))
        (λ text db' same failed. inl (text, failed, refl, same))
    where
      rows_of : Db → List UserRow
      rows_of db' = sort_by email_before (filter_by (λ u. u.is_enabled) db'.users)

      announce : Result (List UserRow) × Db → Done × Db
      announce q =
          continue
            (on_error (λ e. wrap "list active users: " e "")
              (continue q.0 (λ rows. pure (map user_from_sql rows)) q.1).0)
            (λ users.
              tell_all (db_notifier sender base_url) sender event
                (map (λ (u : User). u.email) users))
            (continue q.0 (λ rows. pure (map user_from_sql rows)) q.1).1
