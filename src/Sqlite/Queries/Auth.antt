-- ===== src/Sqlite/Queries/Auth.antt =====
-- dbgen/auth.sql.gen.go. The columns `sessions.id` and `sessions.token_hash` are unique; hashes of
-- magic links need not be.
use air_cover.Base.{
  ℕ, suc, ℤ, pos, String, Bool, true, false, not, ◌&&◌, ◌||◌, Option, none, some, List, [], ◌∷◌,
  ◌++◌, ◌==◌, int_eq, string_eq, find_by, filter_by, any_by, ltb,
}
use air_cover.Errors.{Exec, ok, err, opaque, ◌>>◌}
use air_cover.Domain.{Time, MagicLink, Session}
use air_cover.Sqlite.Tables.{Db, driver, largest}

-- `used_at IS NULL`
abbrev pub is_unused : Option Time → Bool
is_unused none = true
is_unused (some _) = false

abbrev pub new_link : ℕ → ℤ → String → Time → MagicLink
new_link seq user hash expires_at = record {
  id = pos seq;
  user_id = user;
  token_hash = hash;
  expires_at = expires_at;
  used_at = none;
}

abbrev pub next_link : Db → ℕ
next_link db = suc (largest (λ (l : MagicLink). l.id) db.magic_link_seq db.magic_links)

-- `INSERT INTO magic_links (user_id, token_hash, expires_at) …`
unfoldable pub create_magic_link : ℤ → String → Time → Exec Db (Unit {0})
create_magic_link user hash expires_at = driver >> λ db. (
  ok tt,
  record db {
    magic_links = db.magic_links ++ new_link (next_link db) user hash expires_at ∷ [];
    magic_link_seq = next_link db;
  },
)

-- `WHERE token_hash = ? AND used_at IS NULL AND expires_at > ?`
abbrev pub is_usable : String → Time → MagicLink → Bool
is_usable hash now l = l.token_hash == hash && is_unused l.used_at && ltb now l.expires_at

-- `DELETE FROM magic_links WHERE … RETURNING …`: every such row goes, the first is returned.
unfoldable pub use_magic_link : String → Time → Exec Db (Option MagicLink)
use_magic_link hash now = driver >> λ db. (
  ok (find_by (is_usable hash now) db.magic_links),
  record db { magic_links = filter_by (λ l. not (is_usable hash now l)) db.magic_links },
)

abbrev pub has_token : String → Session → Bool
has_token hash s = s.token_hash == hash

-- The new session has the identifier or the hash of another.
abbrev pub clashes : Session → List Session → Bool
clashes s sessions = any_by (λ (t : Session). t.id == s.id || has_token s.token_hash t) sessions

abbrev pub insert_session : Session → Bool → Exec Db (Unit {0})
insert_session s true db = (err (opaque "UNIQUE constraint failed"), db)
insert_session s false db = (ok tt, record db { sessions = db.sessions ++ s ∷ [] })

-- `INSERT INTO sessions …`
unfoldable pub create_session : Session → Exec Db (Unit {0})
create_session s = driver >> λ db. insert_session s (clashes s db.sessions) db

-- `SELECT … FROM sessions WHERE token_hash = ?`
unfoldable pub get_session_by_token : String → Exec Db (Option Session)
get_session_by_token hash = driver >> λ db. (ok (find_by (has_token hash) db.sessions), db)

abbrev pub is_of_user : ℤ → Session → Bool
is_of_user user s = s.user_id == user

-- `DELETE FROM sessions WHERE user_id = ?`
unfoldable pub delete_sessions_by_user_id : ℤ → Exec Db (Unit {0})
delete_sessions_by_user_id user = driver >> λ db.
    (ok tt, record db { sessions = filter_by (λ s. not (is_of_user user s)) db.sessions })
