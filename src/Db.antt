-- ===== src/Db.antt =====
-- app/db.py: the SQLite storage. Each helper of the source is a function on the whole database.
pub mod Schema
pub mod Files
pub mod Records
pub mod Meta
pub mod Validity
pub mod Reach
