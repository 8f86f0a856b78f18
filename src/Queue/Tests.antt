-- ===== src/Queue/Tests.antt =====
-- Runs of mail_router/queue.py on a small table.
use mail_router.Prelude.{
  ◌≤◌, ◌≡◌, refl, true, false, none, some, List, [], ◌∷◌, codes, arith, length, All, member,
  find_first,
}
use mathlib.Core.List.{Mem, mem-cons_self}
use mail_router.Clock.{DateTime, isoformat, sub_days, to_aware, whole_second}
use mail_router.Clock.Print.{IsPrintable, datetime_le}
use mail_router.Queue.Schema.{in_flight, delivered, Row, QueueItem, can_take, has_id}
use mail_router.Queue.Sqlite.{Environment, World, ok, raise, type_error}
use mail_router.Queue.{
  Mail, enqueue, dequeue_batch, mark_retry, prune_delivered, new_row, item_of, sort_by,
}
use mail_router.Queue.Sorting.{received_le, sort_by-perm, sort_by-IsSorted}
use mail_router.Queue.Enqueue.{stamp, IsEnqueued, enqueue-IsEnqueued}
use mail_router.Queue.Batch.{IsBatch, dequeue_batch-IsBatch}
use mail_router.Queue.Invariant.{
  Call, enqueues, dequeues, delivers, prunes, restarts, run, after, created, next, IsValid,
  Reach-IsValid,
}
use mail_router.Queue.Durable.{IsDurable, enqueue-run-IsDurable}
use mail_router.Queue.Delivery.{
  IsOrderBy, IsDueIn, marked, item_ids, dequeue_batch-takes, dequeue_batch-disjoint,
  dequeue_batch-leaves_none,
}
use mail_router.Queue.Interleave.{enqueue_among, IsTaken, enqueue_among-IsTaken}
use mail_router.Queue.Retry.{mark_retry-can_take}

abbrev morning : DateTime
morning = record {
  year = 2026;
  month = 1;
  day = 2;
  hour = 3;
  minute = 4;
  second = 5;
  microsecond = 6;
  aware = true;
}

abbrev env : Environment
env = record {
  fails = λ _. false;
  clock = λ _. morning;
  lost_ids = 1;
  order_by_received = sort_by received_le;
  fromisoformat = λ _. some morning;
}

abbrev first_mail : Mail
first_mail = record {
  sender_email = codes "a@b.cz";
  recipient_email = codes "demo@shpd.cz";
  ds_id = codes "demo";
  mailbox = none;
  idempotency_key = codes "k1";
  raw_eml = codes "Subject: one";
}

abbrev second_mail : Mail
second_mail = record first_mail { idempotency_key = codes "k2"; raw_eml = codes "Subject: two" }

abbrev empty : World
empty = record { env = env; rows = []; sequence = 0; saved = none; closed = false; tick = 0 }

-- The second row came in first.
abbrev late_row : Row
late_row = new_row 1 (codes "2026-01-02 03:00:00+00:00") first_mail

abbrev early_row : Row
early_row = new_row 2 (codes "2026-01-01 03:00:00+00:00") second_mail

abbrev stored : World
stored = record empty { rows = late_row ∷ early_row ∷ []; sequence = 2 }

abbrev early_item : QueueItem
early_item = item_of stored early_row morning

abbrev late_item : QueueItem
late_item = item_of stored late_row morning

env-IsOrderBy : IsOrderBy env
env-IsOrderBy = record { perm = sort_by-perm; sorted = sort_by-IsSorted }

enqueue_created : (enqueue first_mail empty).0 ≡ ok (1, true)
unfolding enqueue
enqueue_created = refl

abbrev later_calls : List Call
later_calls = enqueues second_mail ∷ dequeues 10 ∷ delivers 1 none ∷ restarts env ∷ []

enqueue-run-IsDurable_example :
    IsDurable (1, first_mail) (run later_calls (enqueue first_mail empty).1)
enqueue-run-IsDurable_example =
    enqueue-run-IsDurable first_mail empty 1 later_calls refl enqueue_created refl

enqueue_among-IsTaken_example :
    IsTaken second_mail stored (enqueue_among later_calls second_mail stored)
enqueue_among-IsTaken_example = enqueue_among-IsTaken later_calls second_mail stored refl refl

-- A mail that was delivered long ago comes again, and another process prunes it in between.
pruned_between :
    (enqueue_among (prunes 7 ∷ []) first_mail (record stored {
      rows =
          record late_row {
            state = delivered;
            delivered_at = some (codes "2025-01-02 03:00:00+00:00");
          }
          ∷ [];
    })).0
    ≡ raise type_error
unfolding enqueue_among prune_delivered isoformat sub_days after
pruned_between = refl

Reach-IsValid_example : IsValid (after (dequeues 10) (after (enqueues first_mail) empty))
Reach-IsValid_example = Reach-IsValid (
    next (dequeues 10) (after (enqueues first_mail) empty)
      (next (enqueues first_mail) empty (created empty refl refl)))

enqueue-IsEnqueued_example : IsEnqueued first_mail stored (enqueue first_mail stored)
enqueue-IsEnqueued_example = enqueue-IsEnqueued first_mail stored

dequeue_batch-IsBatch_example : IsBatch 1 stored (dequeue_batch 1 stored)
dequeue_batch-IsBatch_example = dequeue_batch-IsBatch 1 stored

taken_one : (dequeue_batch 1 stored).0 ≡ ok (early_item ∷ [])
unfolding dequeue_batch
taken_one = refl

taken_next : (dequeue_batch 1 (dequeue_batch 1 stored).1).0 ≡ ok (late_item ∷ [])
unfolding dequeue_batch
taken_next = refl

taken_all : (dequeue_batch 3 stored).0 ≡ ok (early_item ∷ late_item ∷ [])
unfolding dequeue_batch
taken_all = refl

env_kept : IsOrderBy (dequeue_batch 1 stored).1.env
unfolding dequeue_batch
env_kept = env-IsOrderBy

dequeue_batch-takes_example :
    (length (early_item ∷ []) ≤ 1)
    × All (IsDueIn stored) (early_item ∷ [])
    × ((dequeue_batch 1 stored).1.rows ≡ marked (item_ids (early_item ∷ [])) stored.rows)
dequeue_batch-takes_example = dequeue_batch-takes 1 stored (early_item ∷ []) env-IsOrderBy taken_one

dequeue_batch-disjoint_example :
    All (λ item. member item.id (item_ids (early_item ∷ [])) ≡ false) (late_item ∷ [])
dequeue_batch-disjoint_example =
    dequeue_batch-disjoint 1 1 stored (early_item ∷ []) (late_item ∷ []) env-IsOrderBy env_kept
      taken_one taken_next

abbrev taken_row : Row
taken_row = record late_row { state = in_flight }

taken_row-mem : Mem taken_row (dequeue_batch 3 stored).1.rows
unfolding dequeue_batch
taken_row-mem = mem-cons_self

dequeue_batch-leaves_none_example : can_take (stamp stored) taken_row ≡ false
dequeue_batch-leaves_none_example =
    dequeue_batch-leaves_none 3 stored (early_item ∷ late_item ∷ []) env-IsOrderBy taken_all
      (omega arith) taken_row taken_row-mem

morning-IsPrintable : IsPrintable morning
morning-IsPrintable = record {
  year = omega arith;
  month = omega arith;
  day = omega arith;
  hour = omega arith;
  minute = omega arith;
  second = omega arith;
  microsecond = omega arith;
}

mark_retry-can_take_example :
    (r' : Row) × (find_first (has_id 1) (mark_retry 1 3 morning (codes "timeout") stored).1.rows
      ≡ some r')
    × (r'.attempt_count ≡ 3)
    × (r'.idempotency_key ≡ late_row.idempotency_key)
    × (can_take (isoformat (to_aware (whole_second morning))) r'
        ≡ datetime_le morning (whole_second morning))
mark_retry-can_take_example =
    mark_retry-can_take 1 3 morning morning (codes "timeout") stored late_row refl refl
      morning-IsPrintable morning-IsPrintable
