-- ===== src/Sqlite/SubRequestRepository.antt =====
-- subrequest_repository.go
pub mod Rows
pub mod Landing
pub mod Contract
use air_cover.Base.{ℕ, ℤ, pos, zero, suc, String, Option, none, some, List, [], ◌∷◌, map}
use air_cover.Errors.{
  Exec, Done, Result, fail, not_found, conflict, sentinel, ok, pure, raise, lift, ◌>>=◌, ◌>>◌,
}
use air_cover.Domain.{SubRequest, Time}
use air_cover.SubRequests.Ports.{ReadModel, Repository}
use air_cover.Sqlite.Tables.{Db, SubRequestRow, sub_request_from_sql}
use air_cover.Sqlite.Queries.SubRequests
use air_cover.Sqlite.Queries.SubRequests.{JoinedRow}

-- The parameters of `CreateSubRequest`: nothing is null but a missing taker.
abbrev pub to_row : SubRequest → SubRequestRow
to_row sr = record {
  id = pos 0;
  show_id = sr.show_id;
  posted_by_user_id = sr.posted_by_user_id;
  taken_by_user_id = sr.taken_by_user_id;
  start_time = sr.start_time;
  end_time = sr.end_time;
  notes = some sr.notes;
  created_at = some sr.created_at;
  updated_at = some sr.updated_at;
}

abbrev pub found_row : Option SubRequestRow → Result SubRequest
found_row none = fail not_found
found_row (some row) = ok (sub_request_from_sql row)

-- `subRequestSummaryFromSQL` and `subRequestDetailFromSQL`, which are the same
abbrev pub read_model_from_sql : JoinedRow → ReadModel
read_model_from_sql j = record {
  request = sub_request_from_sql j.row;
  requester_email = j.requester_email;
  taker_email = j.taker_email;
}

abbrev pub found_joined : Option JoinedRow → Result ReadModel
found_joined none = fail not_found
found_joined (some j) = ok (read_model_from_sql j)

unfoldable pub create_sub_request : SubRequest → Exec Db SubRequest
create_sub_request sr = do
  id ← SubRequests.create_sub_request (to_row sr)
  pure (record sr { id = id })

unfoldable pub list_dashboard_sub_requests : Exec Db (List ReadModel)
list_dashboard_sub_requests = do
  rows ← SubRequests.list_sub_requests
  pure (map read_model_from_sql rows)

unfoldable pub get_sub_request_by_id : ℤ → Exec Db SubRequest
get_sub_request_by_id id = do row ← SubRequests.get_sub_request_by_id id; lift (found_row row)

unfoldable pub get_sub_request_detail_by_id : ℤ → Exec Db ReadModel
get_sub_request_detail_by_id id = do
  joined ← SubRequests.get_sub_request_detail_by_id id
  lift (found_joined joined)

abbrev pub some_affected : ℕ → Done
some_affected zero = fail not_found
some_affected (suc n) = ok tt

unfoldable pub delete_sub_request : ℤ → Exec Db (Unit {0})
delete_sub_request id = do rows ← SubRequests.delete_sub_request id; lift (some_affected rows)

-- No row was affected: the request is missing, or it is in the wrong state.
abbrev pub affected_or_conflict : ℤ → ℕ → Exec Db (Unit {0})
affected_or_conflict id (suc n) = pure tt
affected_or_conflict id zero = get_sub_request_by_id id >> raise (sentinel conflict)

unfoldable pub take_sub_request : ℤ → ℤ → Time → Exec Db (Unit {0})
take_sub_request id user updated_at = do
  rows ← SubRequests.take_sub_request user updated_at id
  affected_or_conflict id rows

unfoldable pub untake_sub_request : ℤ → ℤ → Time → Exec Db (Unit {0})
untake_sub_request id user updated_at = do
  rows ← SubRequests.untake_sub_request updated_at id user
  affected_or_conflict id rows

-- The port of the sub request service.
abbrev pub repository : Repository Db
repository = record {
  create_sub_request = create_sub_request;
  get_sub_request_by_id = get_sub_request_by_id;
  delete_sub_request = delete_sub_request;
  take_sub_request = take_sub_request;
  untake_sub_request = untake_sub_request;
  list_dashboard_sub_requests = list_dashboard_sub_requests;
  get_sub_request_detail_by_id = get_sub_request_detail_by_id;
}
