-- ===== src/Database.antt =====
-- The state of the service, the methods that change it, and what they ask of the database.
-- TypeORM, SQLite and the source of UUIDs are not part of the repository: `Engine` is their
-- interface as the services call it, `Database` adds what their documentation promises.
-- A method is a function of the locks that its caller holds and of the tables.
mod Defs
mod Memory
unfoldable pub use Defs.*
unfoldable pub use Memory.*
