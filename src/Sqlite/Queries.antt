-- ===== src/Sqlite/Queries.antt =====
-- The statements of internal/adapters/outbound/sqlite/dbgen, each on the tables. A `:one` query
-- without a row (`sql.ErrNoRows`) answers none; an `:execresult` statement answers the number of
-- rows that it affected, or the identifier of the row that it inserted.
pub mod SubRequests
pub mod Users
pub mod Auth
