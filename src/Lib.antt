-- ===== src/Lib.antt =====
-- A model of the Unity Catalog extension for DuckDB, which attaches a catalog of a Unity Catalog
-- server as a database. `ATTACH` (src/uc_catalog_extension.cpp) reads the credentials from a secret
-- and makes the catalog. The catalog has a set of schemas, each schema a set of tables; both sets are
-- caches (src/storage/uc_catalog_set.cpp) that ask the server (src/uc_api.cpp) when they are first
-- used. The types of the columns come as texts, which src/uc_utils.cpp reads.
--
-- Files, and the code they are about:
--   Base, Outcome, Action: shared names, results of calls, and calls that change a state.
--   TypeText: src/uc_utils.cpp, `TypeToLogicalType`. Scan has the loop that looks for the next comma,
--     Types the types of DuckDB, Print the grammar of the texts as a specification, Trailing texts
--     that go on behind their end, Names the functions `TypeToString` and `ToUCType`, which nothing
--     calls.
--   Api: src/uc_api.cpp; Api/Interface is what it uses of yyjson and libcurl.
--   CatalogSet: src/storage/uc_catalog_set.cpp, `UCCatalogSet` and `UCInSchemaSet`. System has threads,
--     as many as there are, that look up, scan and clear in steps, with `entry_lock` as a flag; Plan
--     has what both `LoadEntries` do with their listing, which is what the threads run.
--   SchemaSet, TableSet: src/storage/uc_schema_set.cpp and src/storage/uc_table_set.cpp. Plan relates
--     their loads to CatalogSet/Plan, Threads and Filled are about threads that run them.
--   SchemaEntry: src/storage/uc_schema_entry.cpp; Columns has `UCUnqualifyColumnRef`.
--   TableEntry: src/storage/uc_table_entry.cpp and its header, with the scan of a table.
--   Catalog: src/storage/uc_catalog.cpp. Pointers has the calls through a pointer to a schema, and the
--     two calls that DuckDB makes for `schema.table`: `GetSchema`, and `GetEntry` or `Scan` on what it
--     gives. Consistent has the listings of a server and the catalogs that keep to them, Lookups the
--     map that is the specification, Refines, Keeps, Formed, Requests and Recovers histories of calls,
--     Lifetime the pointers.
--   ClearCache: src/storage/uc_clear_cache.cpp.
--   Transactions: src/storage/uc_transaction.cpp and src/storage/uc_transaction_manager.cpp.
--   Attach: src/uc_catalog_extension.cpp, from `CREATE SECRET` to the credentials of the catalog.
--   Extension: src/uc_catalog_extension.cpp, what is registered when the extension is loaded, and the
--     catalog that `ATTACH` makes.
--   Samples and the modules Tests: parameters made concrete, and the theorems at given inputs.
-- The operations have the names of the functions, in small letters.
--
-- Texts are lists of bytes. A call ends with a value, an exception of a class that the source throws,
-- or undefined behaviour; a call that changes a state keeps it as it stands when an exception is
-- thrown. `size_t` wraps at 2 ^ 64; a read past the end of a text is undefined, but for the zero byte
-- behind its last. The recursion of the reader has one more unit of fuel than the text is long, and
-- its loops two more than the text is long: each call is on a shorter text, and each round
-- moves on. `GetSchema` has fuel for the calls of itself. The count of open brackets has no bounds in
-- the model; it is an `int` in the source, whose range is only left by texts of 2^31 bytes and more.
-- `LogicalType::DECIMAL` throws above the width of 38, and `back` on an empty vector throws, as DuckDB
-- has them.
--
-- The following are parameters, as they are not part of the repository: the cast of numerals, the
-- equality of keys of a case-insensitive map with the laws of an equivalence, the order in which a
-- hash map is walked, the list of columns, `StringUtil` and `Value::ToString`, the secret manager,
-- `delta_scan`, the name of the default schema, DuckDB's registries with the laws that an entry is
-- found once it is registered and that each registration leaves the others alone,
-- `LogicalType::ToString`, yyjson and libcurl. Objects are told apart by the number of objects made
-- before them, which stands for their address; a call on an address whose object is gone is undefined.
--
-- Not modelled: threads are part of the model within one set only (CatalogSet/System); the calls on a
-- catalog, its transactions and its secrets are atomic. A step of a thread is an access to the shared
-- memory: a transfer is one step, and so is a walk or a search of the map under `entry_lock`. What a
-- data race on the map would do to it is left out; `ClearEntries`, which takes no lock, can race with
-- the other calls, and behind such a race the steps say nothing about the program. `Scan` gives the
-- entries that its callback is handed: the callback is DuckDB's, and what it throws, or calls on the
-- set while `entry_lock` is held, is left out.
-- `Transaction::Get` and `Initialize` have no effect here. The C entry points
-- `uc_catalog_init` and `uc_catalog_version` only call DuckDB.
pub mod Base
pub mod Outcome
pub mod Samples
pub mod TypeText
pub mod Action
pub mod Api
pub mod CatalogSet
pub mod TableSet
pub mod SchemaSet
pub mod SchemaEntry
pub mod Transactions
pub mod TableEntry
pub mod Catalog
pub mod ClearCache
pub mod Attach
pub mod Extension
