-- ===== src/Lib.antt =====
-- A bank on event sourcing: accounts that hold assets, transfers between them, and orders that swap
-- assets. An aggregate has `handle`, which takes a command to events or an error, and `apply`,
-- which takes an event to the next state; the framework cqrs-es stores the events, replays them,
-- and updates a view with each of them.
--
-- The parts of the program and their files:
-- * `Types` is `ByteArray32` of `src/util/types.rs`. `hex::encode` is a parameter, `Platform`, that
--   is injective; so is the build mode, in which an unchecked `u64` addition panics or wraps.
-- * `Outcome` has panics as values, and the checked and unchecked `u64` arithmetic; `BTreeMap` is
--   an association list with the operations of the standard library that the source calls.
-- * `Account` is `src/account/`: `Commands`, `Events` and their `Build` (the associated functions
--   of `commands.rs` and `events.rs`), `Processed` (`ProcessedTransactions`), `State`, `Handle` and
--   `Apply` (`aggregate.rs`), `View` (`queries.rs`). `Effect` says, apart from the code, what each
--   command means; `History`, `Replay`, `Undo`, `Lifecycle` and `Drained` are about sequences of
--   commands. The queue of `ProcessedTransactions` has a stamp for each id, by which it expires; it
--   need not be the id's timestamp, since `insert` gives the front entry the new one.
-- * `Service` is `Arc<PostgresCqrs<Account>>`, as the other aggregates call it: `execute` is a
--   parameter, `IsEventSourced` what the framework documents of it (it loads the account, calls
--   `handle`, commits the events and runs the views on them, where a panic leaves the events stored;
--   or it leaves the store as it was), `IsAvailable` that a command
--   which the account accepts succeeds, where nothing else goes wrong. It also has
--   `src/util/transaction_guard.rs`: a guard that is dropped appends its undo to a queue of spawned
--   futures, and `run_spawned` runs them later, one after the other.
-- * `Transfer` is `src/transfer/`: `Defs` (`commands.rs`, `events.rs`, the state and `apply` of
--   `aggregate.rs`), `Handle` (`TransferServices` and `handle`), `View` (`queries.rs`). Its
--   `handle` passes a `Runtime` along: the store and the queue of spawned futures.
-- * `Order` is `src/order/`: `Defs` (`commands.rs`, `events.rs`, the state and `apply` of
--   `aggregate.rs`), `Handle` (`OrderServices` and `handle`; the clock and the texts of `format!`
--   are parameters), `View` (`queries.rs`). `Machine` has the steps of an order as a relation,
--   with the answers of the accounts that they need, `Sides` one side of a settlement,
--   `Follow` what its view shows, `Resume` is about settlements that stop and are continued,
--   `Cancel` about the end of a cancelled order. `Names` here, of `Transfer` and of
--   `Account.Events`, has the names that label stored events.
-- * `Http` is `src/command_extractor.rs`, `src/route_handler.rs`, the state of `src/state.rs` and
--   the routes of `src/main.rs`; axum's matching of paths, `serde_json` and the framework are
--   parameters. `Http.Laws` puts `IsEventSourced` behind the accounts, `Http.Views` the views.
-- * `Simple` is `src/simple/mod.rs`, a ledger apart from the others: `Account` has the operations
--   of an account, each of which holds its mutexes and is one step. `Store` is the trait, with what
--   the book relies on, `IsLog`. `Book` is `AccountBook`, its four calls over any store; `Calls`
--   lists them as data, and `Interleaving` has the steps of calls that run at once, as a relation.
--   `Postgres` is `PostgresStore`: the table, `bincode` and `hex::decode` are parameters, and
--   `IsTable` is what PostgreSQL documents of the statement; `Durable` puts it under the book, and
--   `Rearranged` reads the rows in any order.
--
-- Amounts and timestamps are natural numbers below 2 ^ 64, with overflow written out at each
-- operation. The loop of `ProcessedTransactions::insert` is a recursion on its queue. The loop of
-- the account book that persists a transaction runs on fuel, the number of attempts: one more than
-- the failures of the store is enough.
--
-- Not modelled: serialization, Postgres, the wiring of `src/config.rs` and the start of the server,
-- `src/services.rs`, which nothing calls, the logging queries, tasks that are cancelled half way,
-- and in `src/simple/mod.rs` `persist_all`, which is `todo!()`, and how the channel cuts its
-- requests into chunks, which are given.
pub mod Prelude
pub mod Outcome
pub mod BTreeMap
pub mod Types
pub mod TestPlatform
pub mod Account
pub mod Service
pub mod TestService
pub mod Transfer
pub mod Order
pub mod Http
pub mod Simple
