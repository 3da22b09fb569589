-- ===== src/Lib.antt =====
-- The time-off service of the repository: an employee submits a request, a manager approves or
-- rejects it, either may cancel it, and an external human resources system (HCM) is told. The service
-- keeps a balance per employee and location, and agrees with HCM through an outbox and batches.
--
-- Parts, and where they are modelled:
-- Entities: the rows and enums of src/entities and the shapes of src/hcm/contracts/hcm.types.ts.
-- Config: the getters of src/config/app-config.service.ts. Clock: src/common/clock.
-- Calendar: `countBusinessDays` of src/time-off-request/time-off-request.service.ts, with the
--   dates of JavaScript that it uses; the loop over the days is on fuel, one unit for each day of
--   the range, since a round moves on by a day; a loop that ran out of it would be `unended`.
-- Database: the five tables as lists of rows, methods as functions of the locks that the caller
--   holds and of the tables, and the calls of TypeORM. TypeORM, SQLite and the source of UUIDs are
--   not part of the repository: `Engine` is their interface, and a parameter; `Database` adds their
--   documented behaviour as named laws. The column `version` stays inside the engine: a save of a
--   balance goes through, meets another writer, or fails. Of the comparison
--   of a stored time with one that is bound as an ISO text the law says what the two texts do: the
--   later date is above.
-- Balances: src/balance/balance.service.ts (`findOrCreate` is find_or_create, `saveWithRetry` is
--   save_with_retry, `getBalance` is get_balance, and so on; `reconcileBalance` is in its child
--   Reconcile), with `balanceKey`, and `runExclusive` as its caller sees it: a section runs alone,
--   and who asks for a lock that it holds waits for ever, which is the outcome `deadlock`.
-- Requests: src/time-off-request/time-off-request.service.ts. `submit`, `approve`, `reject` and
--   `cancel` are a read before the lock, then the callback under the lock (`…_locked`), which
--   contains transactions (`…_tx`); a transaction that throws leaves no trace.
-- HcmClient: src/hcm/hcm-client.service.ts, with what axios gives for each attempt as a parameter;
--   the loops are recursions on the attempts that are left.
-- Dispatcher: src/hcm/outbox-dispatcher.service.ts, with both of its transactions.
-- Reconciliation: src/reconciliation/reconciliation.service.ts, with its three transactions.
-- Reaper: src/reservation-reaper/reservation-reaper.service.ts.
-- BalanceLock: the waiting calls of src/common/lock/balance-lock.service.ts. Defs has the chain of
--   promises of a key, an event at a time (a call comes, enters, is held by a latch, finishes); Fifo
--   is the queue that it stands for; Order, Finish and Moves keep the chain in order.
-- Http: the handlers of src/time-off-request/time-off-request.controller.ts,
--   src/balance/balance.controller.ts and src/reconciliation/batch.controller.ts, with the headers
--   that they check; the test of NestJS for a UUID is a parameter. Its child Dates has the constraints
--   of src/time-off-request/dto/submit-request.dto.ts, and Bodies those of
--   src/reconciliation/dto/batch-corpus.dto.ts and src/balance/dto; what class-validator decides of a
--   text (its length, a time of ISO 8601) is a parameter.
-- MockHcm: src/mock-hcm, the stand-in for HCM. Store has mock-hcm.store.ts, Routes has
--   hcm.controller.ts, Control has control.controller.ts and Bodies has its dto; a handler is a
--   function of the store that gives the answer, or the status of the exception, and the store
--   after it.
-- FakeHcm: src/testing/fake-hcm-client.ts, the client that the integration tests use.
-- Ledger: lemmas on the tables as a whole. Rows, Reserved, Value, Filed, Apart and Moves say what
--   the balances, requests and outbox have to do with each other; Reject, Cancel, Reads, Approve,
--   Created, Submit, Added, Sent, Dispatch and Reconcile go through the sections; Respects and
--   Methods compose them; Reached has the states that sections in any order lead to. Flights cuts a
--   dispatch in two and lets the sections of other keys run between its halves; Walk, Approving,
--   Endings, Entries and Sections follow every write of a section for a relation of one's choice,
--   Carried, Landed, Passing, Aloft and Halves do so for what a dispatch has in memory, Counted for
--   the attempts of a row, Tries and Trying for them while dispatches may end between their halves,
--   Progress and Sending for the states of a row, and Lifecycle and Living for
--   the states of a request.
-- Guarantees: what the service promises, for every database that keeps its own promises.
-- Tests: a database in memory, and the model run on it.
--
-- The services take the answers of the client of HCM as arguments: a value, or that HCM is
-- unavailable, or another error; they may differ from call to call. The time is an argument; a
-- method reads the clock once. A section, what one method does under one lock, is one step; only a
-- dispatch is two, with the call of HCM between them, where other sections run and where the process
-- may end. Days are natural numbers; `reserved` is one, so a subtraction stops at 0. Log lines, the
-- managers' ids, the columns that only the database writes and the unique indexes, at which a save
-- would throw, are left out.
--
-- Not modelled: the wiring of NestJS, the classes of bodies that no handler tests, the route of the
-- health check, and the factories and modules of the tests.
pub mod Prelude
pub mod Entities
pub mod Config
pub mod Clock
pub mod Calendar
pub mod Database
pub mod Balances
pub mod Requests
pub mod HcmClient
pub mod Dispatcher
pub mod Reconciliation
pub mod Reaper
pub mod BalanceLock
pub mod Http
pub mod MockHcm
pub mod FakeHcm
pub mod Ledger
pub mod Guarantees
pub mod Tests
