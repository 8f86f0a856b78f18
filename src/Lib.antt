-- ===== src/Lib.antt =====
-- mail_router takes e-mail for the data sources of a hosting from Postfix, keeps it in a SQLite
-- queue and posts it to each data source's HTTP API. Postfix first asks the policy server about a
-- recipient (mail_router/policy.py), then hands the mail over LMTP (mail_router/receiver.py), which
-- takes each recipient's address apart (mail_router/address.py), looks the data source up
-- (mail_router/lookup.py) and writes one row per recipient into the queue (mail_router/queue.py)
-- before it answers 250. The worker (mail_router/worker.py) takes batches from the queue, parses the
-- mail (mail_router/parser.py), posts it (mail_router/client.py), and marks the row delivered, puts
-- it off, or buries it with an alert (mail_router/alerts.py). mail_router/cli.py starts the services
-- and holds the commands, among them the one that fetches the lookup file
-- (mail_router/lookup_sync.py).
--
-- Each file models the part that it is named for:
--   Queue: mail_router/queue.py. `Queue.Sqlite.World` is the connection with the table, the open
--     transaction and the clock; each method of the class `Queue` is the function of its name. Below
--     it, Schema has the rows and the WHERE clauses, Sqlite the statements, Table the table's
--     invariant, Enqueue, Items, Dequeue and Batch what the two main methods do on each branch,
--     Updates the three UPDATEs of a worker, Open the opening of the file, Reads the other queries
--     and the prune, Invariant and Durable what holds over all runs, Steady and Up that no method
--     changes the connection's surroundings and when a method returns, Counts, Marked and Requeued
--     how many rows are in each state when rows move, Interleave an `enqueue` that
--     is interrupted, Delivery and Retry which rows are handed out and when, and Sorting one order
--     of SQLite's.
--   Receiver: `LMTPHandler` and `_extract_message_id` of mail_router/receiver.py; `handle_rcpt`
--     and `handle_data` are its two commands. Accept: what "250 OK" stands for, and Reloads: also
--     while the lookup file changes; Offer and Session: the commands of a client, RCPT for one
--     address after the other and then DATA; Keeps: what a mail's handling leaves alone.
--   Policy: `_evaluate` and `_read_request` of mail_router/policy.py. Connection: `_handle_client`;
--     Request: a printed request; Session: whole connections; Verdict: the agreement with the LMTP
--     handler; Server: the start and the stop; Group: `_mask_owning_group`.
--   Address: mail_router/address.py, with its regular expressions (Pattern), the cut of the local
--     part (Split) and `parse_recipient` (Parse).
--   Lookup: `LookupTable` of mail_router/lookup.py over a file that changes between readings;
--     Reload: without reloading; Failure: a file that cannot be read; Valid: a file with a checked
--     document; Document: what a document says, entry by entry; Synced: a file that was fetched.
--   LookupSync: `validate_payload` of mail_router/lookup_sync.py. Disk: the files, the system calls
--     and `_write_atomic`; Run: `sync_once`; Atomic, Safety and Outcome: every moment and every end
--     of a sync; Update: a sync that nothing goes wrong in.
--   Parser: mail_router/parser.py over what the standard email package makes of the bytes. Keys: the
--     idempotency keys.
--   Client: mail_router/client.py; `request_of` is the request that `send` posts, `interpret` is
--     `_interpret`. Interpret: what becomes of an answer.
--   Worker: mail_router/worker.py; `process` is `_process`, and `run_forever` has the number of
--     rounds after which the loop is stopped. Process: what one item's processing writes; Attempts:
--     the bound on the attempts. Lifecycle: the life of a mail as a step relation; Ready, Advance,
--     Tick and Run: a batch, an item, a tick and a whole run against it; Keeps: what an item's
--     processing leaves alone; Progress: when it ends without an exception; Backoff: the delays;
--     Held: that a run keeps each mail. Deliver, Round, Drain, Calm, Emptied and Drained: an item, a
--     tick, a batch and a whole run in a world that does not fail.
--   System: the receiver and the worker on one queue, one after the other. Steps: both processes at
--     once, each with its own connection to the file, as a sequence of whole steps of either; while
--     the worker's transaction is open, every statement of the receiver raises. Lived: that the
--     worker's steps leave a valid table; Interleave: what all steps together keep.
--   Alerts: mail_router/alerts.py. Throttle: what is sent over several notifications.
--   Config: mail_router/config.py. Defaults: the defaults, which stand there twice; Required: what a
--     document must have.
--   Socket: how `LMTPReceiver` starts and stops its server; Lifecycle: what that leaves at the path.
--   Cli: mail_router/cli.py, the services from start to stop; Admin: the commands on the queue;
--     Launch: the entry points, which load the configuration first; Shutdown and Sync: what they
--     leave and return.
--   Logging: mail_router/logging_setup.py.
--   Clock, Json, Python, Exec, Result, Prelude: datetimes and their texts, dynamic values, strings,
--     exceptions, and helpers.
-- The data classes of mail_router/models.py stand with the component that uses them. Tests in a
-- folder run the code of that folder.
--
-- Texts are lists of code points, mail content included; numbers are natural. A method that changes
-- an object and may raise takes the state and returns the outcome beside the new state, so that what
-- was written before an exception stays written. What lies outside of the code is an argument: which
-- SQL statements raise, what the clock shows, in which order SQLite returns rows that were received
-- at the same time, the outcome of each POST, the email package, SHA-256, random ids, Unicode case
-- mapping, SMTP and the lookup file. A statement that raises has changed nothing. Each method is one
-- step: within a process the locks see to that, and `BEGIN IMMEDIATE` keeps other processes from
-- writing within a transaction. Queue.Interleave lets other processes call between the two
-- statements of `enqueue`, which has no transaction.
--
-- The decimal text of a number n is written with fuel n + 1, and a number has no more digits than
-- that. The loop over a policy connection has one round more than what comes in has lines, and each
-- round reads a line or is the last: what comes in is finite, and ends where the peer closes its side
-- or the stream breaks. `run_forever` is given its
-- number of rounds, because the code stops only from outside, and a service what its connections do
-- until then.
--
-- Not modelled: what goes over a socket below the lines of a policy request and the commands of
-- aiosmtpd, threads and the event loop, `argparse`, the signal handlers, and what the services log.
-- So a peer that stays connected to the policy server and sends nothing has no model, and neither has
-- the wait for open connections in `stop` (`wait_closed`). Files hold text that can be decoded; what
-- sqlite3 refuses to bind, as a text with a lone surrogate or an int of more than 64 bits, is a
-- statement that raises. Dates past year 9999, which Python refuses, are not refused here.
pub mod Prelude
pub mod Result
pub mod Exec
pub mod Clock
pub mod Json
pub mod Python
pub mod Client
pub mod Lookup
pub mod LookupSync
pub mod Alerts
pub mod Parser
pub mod Worker
pub mod Address
pub mod Policy
pub mod Receiver
pub mod Queue
pub mod Config
pub mod Cli
pub mod Logging
pub mod Socket
pub mod System
