-- ===== src/System.antt =====
-- The receiver and the worker on one queue file: mail_router/receiver.py hands over to
-- mail_router/worker.py.
pub mod Steps
pub mod Lived
pub mod Interleave
pub mod Tests
use mail_router.Prelude.{
  String, ◌⊎◌, inl, inr, ◌≤◌, ◌*◌, Bool, true, count, arith, All-map, ℕ, ◌≡◌, refl, sym, subst,
  false, Text, Option, none, some, List, [], ◌∷◌, All, find_first,
}
use mail_router.Exec.{ok}
use mail_router.Address.{ParsedAddress, parse_recipient}
use mail_router.Queue.Schema.{
  State, pending, in_flight, delivered, dead_letter, Row, has_key, has_state,
}
use mail_router.Queue.{requeue_in_flight}
use mail_router.Queue.Invariant.{IsValid}
use mail_router.Queue.Counts.{IsKeyed, IsOld}
use mail_router.Queue.Up.{IsUp}
use mail_router.Worker.Deliver.{AcceptsAll}
use mail_router.Worker.Drain.{AreSound}
use mail_router.Worker.Drained.{open_rows, run_forever-IsDrained}
use mail_router.Queue.Delivery.{IsOrderBy}
use mail_router.Queue.Durable.{IsHeld, entry_of}
use mail_router.Queue.Interleave.{has_key-find}
use mail_router.Receiver.{Envelope, Handler, extract_message_id, accepted_text, handle_data}
use mail_router.Receiver.Session.{converse, AreAnswered, AreAnswered-map, converse-AreAnswered}
use mail_router.Receiver.Reloads.{HasRow, StoodOrNew, AreServed, AreServed-map, handle_data-serves}
use mail_router.Receiver.Accept.{
  HasCopy, CameFrom, key_of, IsStored, IsStoredAs, handle_data-stores,
}
use mail_router.Worker.{Worker, run_forever}
use mail_router.Worker.Tick.{committed}
use mail_router.Worker.Held.{run_forever-IsHeld}

-- The row that has the key at first has the property, and is there with the same id and mail at last.
abbrev pub IsKept : (Text → Row → Type 0) → Text → List Row → List Row → Type 0
IsKept P k before after =
    (r : Row) × (find_first (has_key k) before ≡ some r) × P k r × IsHeld (entry_of r) after

-- The row that has the key at first has the property, and is there at last with the same id and mail,
-- delivered, unless it is a dead letter at first.
abbrev pub IsSent : (Text → Row → Type 0) → Text → List Row → List Row → Type 0
IsSent P k before after =
    IsKeyed dead_letter before k
    ⊎ (r : Row) × (q : Row) × (find_first (has_key k) before ≡ some r)
      × P k r
      × (find_first (has_key k) after ≡ some q)
      × (entry_of q ≡ entry_of r)
      × (q.state ≡ delivered)

kept :
    (P : Text → Row → Type 0) (n : ℕ) (v : Worker)
    → IsOrderBy v.queue.env
    → IsValid v.queue
    → v.queue.saved ≡ none
    → (k : Text) → (r : Row) × (find_first (has_key k) v.queue.rows ≡ some r) × P k r
    → IsKept P k v.queue.rows (committed (run_forever n v).1.queue)
kept P n v o valid closed k (r, found, has) =
    let key = has_key-find k v.queue.rows r found in
    (
      r,
      found,
      has,
      run_forever-IsHeld n v (entry_of r) o valid closed
          (r, subst (λ x. find_first (has_key x) v.queue.rows ≡ some r) (sym key) found, refl),
    )

-- A mail with a Message-ID that the receiver has answered "250 OK" is not lost by the worker, however
-- the lookup file changes and is reloaded meanwhile. For each recipient that is let through with the
-- hosts that `allowed_domains` returned when its turn came, the receiver has left a row under its key,
-- which was there before and is unchanged, or which holds the content and the sender of the mail, and
-- the address, the data source, the mailbox and the key of one of the recipients; and however many
-- rounds the worker makes on the rows that the receiver has left, whatever the server answers and
-- whatever raises, the committed table holds all that came in with that row, under the same id. No id
-- or key stands twice in the worker's table, no transaction is open in it at first, and SQLite's order
-- is one by reception.
pub accepted-IsSafe :
    (s : Handler) (envelope : Envelope) (c : ℕ) (mid : Text) (n : ℕ) (v : Worker)
    → extract_message_id s.email envelope.content ≡ some (c ∷ mid)
    → (handle_data envelope s).0 ≡ ok accepted_text
    → v.queue.rows ≡ (handle_data envelope s).1.queue.rows
    → IsOrderBy v.queue.env
    → IsValid v.queue
    → v.queue.saved ≡ none
    → AreServed c mid envelope s
        (λ k rows.
          IsKept
            (StoodOrNew c mid envelope s s.queue.rows envelope.rcpt_tos)
            k
            rows
            (committed (run_forever n v).1.queue))
        (handle_data envelope s).1.queue.rows
        envelope.rcpt_tos
        s.lookup
accepted-IsSafe s envelope c mid n v found answered rows o valid closed =
    let From = StoodOrNew c mid envelope s s.queue.rows envelope.rcpt_tos in
    AreServed-map c mid envelope s (HasRow c mid envelope s s.queue.rows envelope.rcpt_tos)
      (λ k l. IsKept From k l (committed (run_forever n v).1.queue))
      (handle_data envelope s).1.queue.rows
      (subst
        (λ l.
          (k : Text)
          → (r : Row) × (find_first (has_key k) l ≡ some r) × From k r
          → IsKept From k l (committed (run_forever n v).1.queue))
        rows (kept From n v o valid closed))
      envelope.rcpt_tos s.lookup (handle_data-serves s envelope c mid found answered)

count-find :
    (p test : Row → Bool) (rows : List Row) (q : Row)
    → find_first p rows ≡ some q
    → test q ≡ true
    → 1 ≤ count test rows
count-find p test [] q found yes_it_is = cc
count-find p test (r ∷ rows) q found yes_it_is = ground (arith, count-find p test rows q)

-- What is kept in a table with nothing left to send is sent.
sent :
    (P : Text → Row → Type 0) (k : Text) (before after : List Row)
    → open_rows after ≡ 0
    → IsOld dead_letter before after
    → IsKept P k before after
    → IsSent P k before after
sent P k before after none_left old (r, found, has, (q, held, same)) =
    let key = has_key-find k before r found in
    let there = subst (λ x. find_first (has_key x) after ≡ some q) key held in go q.state refl there
  where
    go : (x : State) → q.state ≡ x → find_first (has_key k) after ≡ some q → IsSent P k before after
    go delivered e there = inr (r, q, found, has, there, same, e)
    go dead_letter e there = inl (old k (q, there, e))
    go pending e there = absurd (
        omega
          (arith, none_left, count-find (has_key k) (has_state pending) after q there (rw e refl)))
    go in_flight e there = absurd (
        omega (
          arith,
          none_left,
          count-find (has_key k) (has_state in_flight) after q there (rw e refl),
        ))

-- A recipient whose RCPT was answered "250 OK", of a mail with a Message-ID whose DATA was answered so,
-- has its row delivered in a world that does not fail. The receiver has left a row under the recipient's key,
-- which was there before and is unchanged, or which holds the content and the sender of the mail, and
-- the address, the data source, the mailbox and the key of one of the addresses; and once a worker on
-- the rows that the receiver has left has made enough rounds for the mails to be sent, at `batch_size`
-- a round, that row is there with the same id and mail, and it is delivered, unless the row was a dead
-- letter when the worker began. That is where the connection is open and no statement raises, the server
-- accepts every POST, neither lookup file is reloaded, and every mail that waits or is in flight can
-- be parsed, has its data source in the worker's table and is not put off; where the envelope is empty
-- before the first RCPT, the receiver's table and its handler run on one interpreter, no id or key
-- stands twice in the worker's table, no transaction is open in it at first, and SQLite's order is one
-- by reception.
pub converse-IsSent :
    (addresses : List Text) (envelope : Envelope) (s : Handler) (c : ℕ) (mid : Text)
    (replies : List String) (n : ℕ) (v : Worker)
    → s.lookup.table.auto_reload ≡ false
    → s.lookup.python ≡ s.python
    → extract_message_id s.email envelope.content ≡ some (c ∷ mid)
    → envelope.rcpt_tos ≡ []
    → (converse addresses envelope s).0 ≡ ok (replies, accepted_text)
    → v.queue.rows ≡ (converse addresses envelope s).1.queue.rows
    → IsOrderBy v.queue.env
    → IsUp v.queue
    → IsValid v.queue
    → v.queue.saved ≡ none
    → v.lookup.table.auto_reload ≡ false
    → AreSound v.email v.lookup (requeue_in_flight v.queue).1.rows
    → AcceptsAll v.python v.post
    → open_rows v.queue.rows ≤ n * v.config.batch_size
    → AreAnswered c mid envelope s
        (λ k.
          IsSent
            (CameFrom c mid envelope s addresses)
            k
            v.queue.rows
            (committed (run_forever n v).1.queue))
        addresses
        replies
converse-IsSent addresses envelope s c mid replies n v static same found empty answered rows o up
      valid closed static' sound taking enough =
    let drained = run_forever-IsDrained n v o up valid closed static' sound taking enough in
    let From = CameFrom c mid envelope s addresses in
    let Copied = HasCopy c mid envelope s addresses in
    AreAnswered-map c mid envelope s (λ k. Copied k v.queue.rows) _
      (λ k has.
        sent From k v.queue.rows (committed (run_forever n v).1.queue) drained.none_left
          drained.no_new_dead (kept From n v o valid closed k has))
      addresses replies
      (subst (λ l. AreAnswered c mid envelope s (λ k. Copied k l) addresses replies) (sym rows)
        (converse-AreAnswered addresses envelope s c mid replies static same found empty answered))
