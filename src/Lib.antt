-- ===== src/Lib.antt =====
-- A verification library for the server side of Hermes App: the Python plugin in compat/, which adds
-- durable stores beside the core's session database. Each store is one SQLite file. An operation of
-- a store is a function on the state of its tables, taken in the order of the source's statements;
-- an operation that raises inside its transaction leaves the tables as they were (`committed`). A
-- history of a store is a list of operations, in the order in which the store's lock admits them. The
-- registries of approvals, synthetic runs and tickets are dictionaries in memory: each is the list of
-- its items, and a history of operations is one too.
--
--   Base      What the components share: Boolean tests and the native numbers (Base/Tests), lists
--             (Base/Lists), Python's exceptions as values of a result (Base/Exceptions), and SQL
--             statements on lists of rows with the laws that the proofs use (Base/Table).
--   Steer     compat/steer_store.py, the durable inbox of steers to a run. Defs has the tables;
--             Runs: register_run, get_run, seal_run; Rows and Admit: admit; Handoff: handoff_gate,
--             record_handoff; Batches: claim_batch, confirm_batch, mark_outcome_unknown; Views: the
--             readers and receipt_of; Prune: prune_expired; History: sequences of the writes. The
--             proofs are in Effects (what an admission writes), Bounds, Once, Claim, Seal, Next,
--             Numbered, Sequence and Pages.
--   Notify    compat/notification_store.py, the ledger of notification events. Defs has the tables;
--             Events: record_event, events_after, head_seq, get_event, mark_read, is_read;
--             Deliveries: claim_delivery, new_delivery, queue_delivery, note_delivery and their
--             readers; History: sequences of the writes. Rightful says what a report of a delivery
--             must show. The proofs are in Untouched, Feed, Observed, Once, Claims, Rightful and
--             Reports.
--   Wake      compat/auto_wake_store.py, the ledger of the wakes that reports fire, with the limits of
--             compat/auto_wake.py. Defs has the tables and the record Core of what is read of the
--             core's database; Keys, Reports and Admit: admit with _quota, _session_busy and
--             _same_source_recent; Dispatch: gate_dispatch, dispatch_failed, report, release,
--             receipt, ledger_state_for; History: sequences of the writes. The proofs are in Grown,
--             Edges, Moves, Refused, Once, Limits and Release.
--   Artifact  compat/artifact_quota.py, the reservations of artifact bytes. Defs has the table and all
--             operations, Sums and Limits the proofs.
--   Cron      compat/cron_delivery_store.py, the spool of cron reports. Defs has the tables and
--             _receipt; Deliver: deliver, with the attempt on the core's database as a function of the
--             record World; Drain: drain_home and sequences of both. Each call is one step, although
--             the source releases _bridge_lock during the attempt: two calls that overlap there are
--             not modelled. The proofs are in Settled and Final.
--   Retention compat/ledger_retention.py, the sweeps of the notification, wake and cron databases. Defs
--             has the archive and the three kinds of _prune, Archived the proof.
--   Outbox    compat/crosssource.py, the spool of messages to sessions of other sources. Defs has the
--             table and the class Outbox; Bridge: _trigger, _attempt, _run, deliver and drain of the
--             class Bridge, with the core's answers in the record World, and sequences of both calls.
--             A call runs to its end before the next begins, and no write of the spool fails: the
--             crash between an accepted injection and its record, after which a drain would inject
--             the row again, is not modelled. The proofs are in Fold, Delivery, Accepted, Turns and
--             Once. A run makes MAX_ATTEMPTS attempts, which is the structural bound of its loop.
--   Synthetic compat/crosssource.py, the class SyntheticRuns, the run identifiers of the stream route.
--             Defs has the entries and all operations; what the core knows of a turn is a function of
--             its entry. The loop of issue runs on fuel, one round for each entry and one more. The
--             proofs are in Room, Grace, Popped and Evicted.
--   Approval  compat/approval_inbox.py, the registry of pending approvals. Defs has the entries; Inbox
--             the buckets of the runs with settle, snapshot, after_responded, settle_run and prune;
--             Capture: capture, and sequences of the operations; Answers: classify_answer. What an
--             operation does outside the registry is a list of effects. Evicting runs on fuel, a round
--             for each bucket. Contract says what an answer must get. The proofs are in Buckets (what
--             every bucket keeps), Decided, Final, Bounds, Runs, Settled, Choices and Checked.
--   Chain     compat/self_wake.py, the chain of a session's self-wakes. Defs has its table with
--             chain_gate, chain_note, chain_fail, fault_fuse, _chain_reset and chain_release; Human the
--             search for a human message, chain_human_checkpoint, whose loop over pages runs on fuel,
--             more than there are rows. In the gate the answer of that search is a function of the
--             fire's time. The proofs are in Rows, Fused, Limit, Order and Pages.
--   Tickets   compat/wsbridge.py, the tickets that open the bridge's websocket. Store has TicketStore;
--             Door: _authorization_of, bearer_ok, authorize and answer_ticket_request; Sniff: the bytes
--             of a connection before the websocket parser, data_received. Book has the book of
--             tickets that the door is compared with, Refine that proof; Passed that of the bytes.
--
-- A clock's reading is an argument, in whole seconds (the source keeps floating point numbers).
-- SHA-256 is a parameter, `hexdigest`, a function from texts to texts; no property needs more of it.
-- Text is the text that the source compares; JSON columns hold the value that the text encodes.
-- Loops are structural recursion on the rows that the source loops over, and a loop with a test runs on fuel, which is named with its part.
--
-- The history of a store has the operations of the store's own file: no retention sweep and no
-- reconciliation (compat/wake_reconcile.py) is among them.
-- Not modelled: opening, migrating and closing of the databases, HTTP handlers, the core's classes
-- that the plugin patches (they are not in the repository), the tools and probes, and the app in
-- Dart and Kotlin.
pub mod Base
pub mod Steer
pub mod Notify
pub mod Wake
pub mod Artifact
pub mod Cron
pub mod Retention
pub mod Outbox
pub mod Synthetic
pub mod Approval
pub mod Chain
pub mod Tickets
