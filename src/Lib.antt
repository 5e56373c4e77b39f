-- ===== src/Lib.antt =====
-- Yatagarasu, a comms fabric for persistent agent sessions: the core that holds deliveries and
-- receipts, and the rules by which evidence moves a delivery.
--
-- The core is a store over SQLite (core/yatagarasu_core/store.py), a reducer that accepts, repeats
-- or rejects one receipt at a time (core/yatagarasu_core/receipts.py), and the check of signed
-- markers and chains of source events on which session receipts rest
-- (core/yatagarasu_core/proofs.py). A plugin submits a receipt, the reducer reads the store, checks
-- the receipt, and writes the receipt, the delivery and the audit log in one transaction.
--
-- A broadcast expands into one delivery for each seat of a room. The cmux plugin records each attempt
-- to inject a delivery into a session in a journal of its own, before it touches the session. Its
-- resident reads the event stream of cmux: each frame is projected to an event without content, the
-- receipt producer turns the event into receipts for the core, and only then is the event committed
-- to an outbox together with the cursor from which the stream is resumed.
--
-- Files:
--   Types                core/yatagarasu_core/types.py: enums and frozen records
--   Reasons              the texts that the receipt path returns as reasons, and checks that stop
--                        at the first of them
--   Environment          Python's fromisoformat, json.dumps and hmac, as parameters
--   Proofs/Timestamps, Proofs/Storage, Proofs/Markers, Proofs/Chain
--                        core/yatagarasu_core/proofs.py: parse_timestamp; source_chain_json and
--                        proof_storage_fields; MarkerAuthority; validate_session_proof
--   Proofs/Markers/Validity, Proofs/Chain/Spec
--                        valid markers and chains in plain terms
--   Store/Tables         the schema: one record for each table's row, and the store
--   Store/Exec           methods that change the store and may raise; transactions
--   Store/Deliveries, Store/Providers, Store/Bindings, Store/Rooms, Store/Receipts
--                        core/yatagarasu_core/store.py: the methods of CoreStore by table
--   Store/Rooms/Roster   a roster that is replaced and read
--   Receipts/Transition, Receipts/Participant, Receipts/Session, Receipts/Reducer
--                        core/yatagarasu_core/receipts.py: ReceiptReducer
--   Receipts/Permits     the table of transitions
--   Receipts/Verdicts, Receipts/Repeats, Receipts/Proven and the other children
--                        what the verdicts of submit mean
--   Broadcasts/Expansion, Broadcasts/Snapshot
--                        core/yatagarasu_core/broadcasts.py: `broadcast` up to its commit, `result`
--   Broadcasts/Expansion/Effects, Broadcasts/Expansion/Committed, Broadcasts/Expansion/Pending
--                        what a broadcast writes, and what it leaves when it raises
--   Broadcasts/Snapshot/Seats, Broadcasts/Snapshot/Outcomes, Broadcasts/Snapshot/Consistency
--                        what the answer of `result` says
--   Cmux/Journal         plugins/cmux/yatagarasu_cmux/journal.py: InjectionJournal
--   Cmux/Journal/Preparing, Cmux/Journal/Lifecycle, Cmux/Journal/History, Cmux/Journal/Crashes
--                        prepare, settle, any sequence of both, unsettled
--   Cmux/Outcome, Cmux/Injector
--                        plugins/cmux/yatagarasu_cmux/outcome.py and injector.py: `deliver` from the
--                        point on where the local effect may fire
--   Cmux/Harness, Cmux/Injector/Delivery
--                        plugins/cmux/yatagarasu_cmux/harness_profiles.py; `deliver` as a whole
--   Cmux/Translation     plugins/cmux/yatagarasu_cmux/receipt_translation.py
--   Cmux/Injector/Delivery/Proven
--                        what `deliver` had come through, and the receipt of its result
--   Cmux/Injector/Evidence, Cmux/Injector/Effects
--                        the verdicts, the order of the effects
--   Cmux/Calls, Cmux/Json
--                        calls that may raise, and transactions; JSON values, and the library calls
--                        for json and base64 as parameters
--   Cmux/Outbox          plugins/cmux/yatagarasu_cmux/event_outbox.py: EventOutbox
--   Cmux/Outbox/Commits, Cmux/Outbox/Repeats, Cmux/Outbox/Resnapshots, Cmux/Outbox/Steps and the
--   other children       one call by what it answers, and any sequence of calls
--   Cmux/Patterns        the patterns of plugins/cmux/yatagarasu_cmux/marker.py
--   Cmux/Marker          plugins/cmux/yatagarasu_cmux/marker.py, and encode and decode of
--                        core/yatagarasu_core/proofs.py
--   Cmux/Marker/Base64, Cmux/Marker/RoundTrip
--                        what base64 promises; markers that are read back
--   Cmux/Protocol        plugins/cmux/yatagarasu_cmux/stream_protocol.py
--   Cmux/Emitter, Cmux/Producer
--                        plugins/cmux/yatagarasu_cmux/receipt_emitter.py and receipt_producer.py
--   Cmux/Resident        plugins/cmux/yatagarasu_cmux/resident.py: EventStreamResident
--   Cmux/Resident/Trail, Cmux/Resident/Connection, Cmux/Resident/Plane
--                        the steps that a run may take on the outbox; one connection; a run
--   Cmux/Notifications, Cmux/Notifications/Publish, Cmux/Notifications/Hooks
--                        plugins/cmux/yatagarasu_cmux/notifications.py
--   Cmux/Notifications/Retired, Cmux/Notifications/Operations, Cmux/Notifications/Entry
--                        banners that were retired, and what retires them
--   Tests                examples at concrete inputs
--
-- State and operations. A table is the list of its rows in rowid order, and a statement of the
-- source is an operation on that list, guarded by the constraints that the schema declares for it.
-- A method returns its result, or the error that it raises, with the store. in_transaction is the
-- connection's: a statement that changes rows opens a transaction, commit closes it, and
-- `with connection:` commits or rolls back. Rollback restores the store at the block's entry, since
-- every method commits what it changes. A method that returns `str | None` is a check that refuses
-- with a reason. All loops are over lists, or run
-- a number of times that is given, so nothing needs fuel.
--
-- The factory of IDs is a parameter, its answer to the n-th call. The journal's transactions are
-- explicit and hold one statement each, so that a refused statement leaves its table as it was.
--
-- Bounds. Python's int is an integer of any size (Prelude/Int). An instant is a number of
-- microseconds; a difference of instants that is compared with a positive lifetime is truncated at
-- zero, which the comparison does not see. The journal's times are natural numbers, of which only
-- the order is read.
--
-- The injector's resolver, hook, transport and observer are parameters: what an identity resolves
-- to, the answer of the outside to an effect after those before it, and the names that the observer
-- yields. The delay between keys is in tenths of a second.
--
-- The plugin's outbox, emitter, producer and resident are states, and a call returns its result or
-- the exception it raises with the state. json and base64 are parameters (Wire), and so are the
-- core, the lookup of deliveries (Collaborators), the socket client (Client), and what the banners
-- need (Setup): the client's answers, a digest and the order of texts. Times of banners are integers.
--
-- Not modelled: opening and migrating the database files, fsync, the time of a baseline, the older
-- marker of marker.py with its random nonce, an observer that raises, the check of a lifecycle's
-- settings, the TypeError of hmac.compare_digest on a signature that is not ASCII (it is refused as
-- invalid here), the OverflowError of sqlite3 on an integer of 2^63 or more, sockets, processes and
-- the command line (socket_client.py, socket_transport.py, runtime.py, supervisor.py of the plugin),
-- and the isinstance tests that hold by typing. A column that holds an enum's text holds the member
-- here; the column evidence_classes, a text joined by commas, holds the list, and so does the
-- journal's source_events, a JSON text.
mod Prelude
pub mod Types
pub mod Reasons
pub mod Environment
pub mod Store
pub mod Proofs
pub mod Receipts
pub mod Broadcasts
pub mod Cmux
mod Tests
