-- ===== src/Sqlite/Driver.antt =====
-- A statement either runs on tables that the driver left alone, or fails with an error that the
-- driver had in store.
use air_cover.Base.{String, ◌≡◌, refl, ◌⊎◌, inl, inr, Option, none, some, List, [], ◌∷◌}
use air_cover.Errors.{Error, Result, err, opaque, is, Exec, ◌>>=◌, ◌>>◌}
use air_cover.SubRequests.Spec.{IsOther}
use air_cover.Sqlite.Tables.{Db, attempt, driver}

-- One of the statements to come fails with this text.
abbrev pub IsAhead : String → List (Option String) → Type 0
IsAhead text [] = ⊥
IsAhead text (none ∷ rest) = IsAhead text rest
IsAhead text (some t ∷ rest) = (t ≡ text) ⊎ IsAhead text rest

-- The errors with which the driver fails from here on; there are none if no statement fails.
pub record IsPending (db : Db) (e : Error) : Type 0 where
  pub text : String
  pub driver_text : e ≡ opaque text
  pub ahead : IsAhead text db.faults

pub record SameTables (a b : Db) : Type 0 where
  pub users : b.users ≡ a.users
  pub magic_links : b.magic_links ≡ a.magic_links
  pub sessions : b.sessions ≡ a.sessions
  pub sub_requests : b.sub_requests ≡ a.sub_requests
  pub user_seq : b.user_seq ≡ a.user_seq
  -- The driver has nothing more in store than before.
  pub pending : (e : Error) → IsPending b e → IsPending a e

pub SameTables-refl : (a : Db) → SameTables a a
SameTables-refl a = record {
  users = refl;
  magic_links = refl;
  sessions = refl;
  sub_requests = refl;
  user_seq = refl;
  pending = λ e h. h;
}

SameTables-faults :
    (a : Db) (rest : List (Option String))
    → ((text : String) → IsAhead text rest → IsAhead text a.faults)
    → SameTables a (record a { faults = rest })
SameTables-faults a rest later = record {
  users = refl;
  magic_links = refl;
  sessions = refl;
  sub_requests = refl;
  user_seq = refl;
  pending =
      λ e h. record { text = h.text; driver_text = h.driver_text; ahead = later h.text h.ahead };
}

pub opaque-IsOther : (text : String) → IsOther (opaque text)
unfolding is
opaque-IsOther text = record { at = λ s. refl }

-- The rule for a statement: prove what holds after it has run, and after it has failed.
pub driver-cases :
    {A : Type 0} (P : Result A × Db → Type 0) (k : Exec Db A) (db : Db)
    → ((db' : Db) → SameTables db db' → P (k db'))
    → ((text : String) (db' : Db)
        → SameTables db db'
        → IsPending db (opaque text)
        → P (err (opaque text), db'))
    → P ((driver >> k) db)
unfolding driver ◌>>=◌
driver-cases {A} P k db runs fails = go db.faults refl
  where
    go : (faults : List (Option String)) → db.faults ≡ faults → P ((attempt faults >> k) db)
    go [] e = runs db (SameTables-refl db)
    go (none ∷ rest) e =
        runs (record db { faults = rest }) (SameTables-faults db rest (λ text h. rw e h))
    go (some text ∷ rest) e =
        fails text (record db { faults = rest })
          (SameTables-faults db rest (λ text h. rw e (inr h)))
          (record { text = text; driver_text = refl; ahead = rw e (inl refl) })

pub driver-SameTables : (db : Db) → SameTables db (driver db).1
unfolding driver
driver-SameTables db = go db.faults refl
  where
    go : (faults : List (Option String)) → db.faults ≡ faults → SameTables db (attempt faults db).1
    go [] e = SameTables-refl db
    go (none ∷ rest) e = SameTables-faults db rest (λ text h. rw e h)
    go (some text ∷ rest) e = SameTables-faults db rest (λ text h. rw e (inr h))
