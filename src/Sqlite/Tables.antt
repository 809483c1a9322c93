-- ===== src/Sqlite/Tables.antt =====
-- The tables of internal/adapters/outbound/sqlite (schema.gen.sql, dbgen/models.gen.go) and the
-- conversions of repository.go. A nullable column is an `Option`. The driver is not the program's:
-- `faults` lists, for each statement to come, the error with which it fails, or none; past the
-- end of the list statements succeed. Foreign keys are not enforced, as is SQLite's default; a
-- violation where they are is one more fault.
use air_cover.Base.{
  ℕ, ℤ, String, Bool, Option, none, some, List, [], ◌∷◌, pos_part, if◌then◌else◌, leb,
}
use air_cover.Errors.{Exec, opaque, ok, err}
use air_cover.Domain.{User, SubRequest, MagicLink, Session, Time, zero_time}

pub record UserRow : Type 0 where
  pub id : ℤ
  pub email : String
  pub role : Option String
  pub is_enabled : Bool
  pub created_at : Option Time

pub record SubRequestRow : Type 0 where
  pub id : ℤ
  pub show_id : ℤ
  pub posted_by_user_id : ℤ
  pub taken_by_user_id : Option ℤ
  pub start_time : Time
  pub end_time : Time
  pub notes : Option String
  pub created_at : Option Time
  pub updated_at : Option Time

-- `magic_links` and `sessions` have no column that is not in the domain's types.
pub record Db : Type 0 where
  pub users : List UserRow
  pub user_seq : ℕ
  pub magic_links : List MagicLink
  pub magic_link_seq : ℕ
  pub sessions : List Session
  pub sub_requests : List SubRequestRow
  pub sub_request_seq : ℕ
  pub current_timestamp : Time
  pub faults : List (Option String)

-- What the driver makes of the next statement.
abbrev pub attempt : List (Option String) → Exec Db (Unit {0})
attempt [] db = (ok tt, db)
attempt (none ∷ rest) db = (ok tt, record db { faults = rest })
attempt (some text ∷ rest) db = (err (opaque text), record db { faults = rest })

unfoldable pub driver : Exec Db (Unit {0})
driver db = attempt db.faults db

-- The identifier of an AUTOINCREMENT column: beyond all that there are and ever were.
abbrev pub largest : {A : Type 0} → (A → ℤ) → ℕ → List A → ℕ
largest id seq [] = seq
largest id seq (x ∷ xs) =
    let rest = largest id seq xs in if leb rest (pos_part (id x)) then pos_part (id x) else rest

-- Statements whose `WHERE` fixes the primary key act on the row of that key, if it meets the rest
-- of the condition.
module _ {A : Type 0} (has_key : A → Bool) (test : A → Bool) where
  abbrev pub update_key : (A → A) → List A → List A
  update_key f [] = []
  update_key f (r ∷ rows) =
      if has_key r then (if test r then f r else r) ∷ rows else r ∷ update_key f rows

  abbrev pub affected : List A → ℕ
  affected [] = 0
  affected (r ∷ rows) = if has_key r then (if test r then 1 else 0) else affected rows

-- `stringFromSQLNull`
abbrev pub string_from_sql_null : Option String → String
string_from_sql_null none = ""
string_from_sql_null (some s) = s

-- `timeFromSQLNull`
abbrev pub time_from_sql_null : Option Time → Time
time_from_sql_null none = zero_time
time_from_sql_null (some t) = t

-- `userFromSQL`
abbrev pub user_from_sql : UserRow → User
user_from_sql row = record {
  id = row.id;
  email = row.email;
  role = string_from_sql_null row.role;
  is_enabled = row.is_enabled;
  created_at = time_from_sql_null row.created_at;
}

-- `subRequestFromSQL`
abbrev pub sub_request_from_sql : SubRequestRow → SubRequest
sub_request_from_sql row = record {
  id = row.id;
  show_id = row.show_id;
  posted_by_user_id = row.posted_by_user_id;
  taken_by_user_id = row.taken_by_user_id;
  substitute_id = none;
  start_time = row.start_time;
  end_time = row.end_time;
  notes = string_from_sql_null row.notes;
  created_at = time_from_sql_null row.created_at;
  updated_at = time_from_sql_null row.updated_at;
}
