-- ===== src/Store.antt =====
-- The database as a tenant's transaction sees it: the rows (Store/Rows), tables indexed by the
-- key of a balance (Store/Table), and transactions with their errors (Store/Monad).
pub mod Rows
pub mod Table
pub mod Monad
