-- ===== src/Cli/Admin.antt =====
-- `run_admin` of mail_router/cli.py: the three commands on the queue. What is printed is returned
-- line by line beside the exit code; `--limit` and `--days` are not negative here.
use mathlib.Core.List.{Mem}
use mail_router.Prelude.{
  ℕ, zero, suc, ◌+◌, ◌≡◌, refl, ◌∙◌, sym, subst, ap, true, false, Text, Option, none, some, List,
  [], ◌∷◌, ◌++◌, map, codes, length,
}
use mail_router.Json.{Json, null, num, str, obj, end, field}
use mail_router.Clock.{DateTime, pad4, pad2, hour_text}
use mail_router.Python.{decimal}
use mail_router.Queue.{stats, list_dead_letters, prune_delivered}
use mail_router.Queue.Schema.{State, delivered, Row, QueueItem, state_eq}
use mail_router.Queue.Sqlite.{World, Error, Action, Result, ok, raise, pure, continue, ◌>>=◌, ◌>>◌}
use mail_router.Queue.Open.{open_file, open_file-same}
use mail_router.Queue.Updates.{stats-same}
use mail_router.Queue.Reads.{list_dead_letters-same, IsPruned, prune_delivered-IsPruned}

-- `args.cmd`, as `argparse` gives it
pub data Command : Type 0 where
  show_stats : Command
  list_dlq : ℕ → Command
  prune : ℕ → Command

-- `t.isoformat()`
abbrev iso_text : DateTime → Text
iso_text t = pad4 t.year ++ (b'-' ∷ pad2 t.month ++ (b'-' ∷ pad2 t.day ++ (b'T' ∷ hour_text t)))

abbrev reason_of : Option Text → Json
reason_of none = null
reason_of (some reason) = str reason

abbrev number : ℕ → Json
number zero = num (decimal zero) true
number (suc n) = num (decimal (suc n)) false

abbrev pub item_json : QueueItem → Json
item_json item = obj (
    field (codes "id") (number item.id) (
      field (codes "received_at") (str (iso_text item.received_at)) (
        field (codes "ds_id") (str item.ds_id) (
          field (codes "recipient") (str item.recipient_email) (
            field (codes "reason") (reason_of item.dead_letter_reason)
              (field (codes "attempts") (number item.attempt_count) end))))))

abbrev pub pruned_text : ℕ → ℕ → Text
pruned_text n days =
    codes "pruned "
    ++ (decimal n ++ (codes " delivered items older than " ++ (decimal days ++ codes " days")))

-- `json.dumps`, and the text of the counts, which depends on the order of the dict.
module _ (dumps : Json → Text) (counts_text : (State → Option ℕ) → Text) where
  abbrev pub on_command : Command → Action (List Text × ℕ)
  on_command show_stats = do counts ← stats; pure (counts_text counts ∷ [], 0)
  on_command (list_dlq limit) = do
    items ← list_dead_letters limit
    pure (map (λ item. dumps (item_json item)) items, 0)
  on_command (prune days) = do n ← prune_delivered days; pure (pruned_text n days ∷ [], 0)

  unfoldable pub run_admin : Result Unit → Command → Action (List Text × ℕ)
  unfolding decimal
  run_admin connected command = do open_file connected; on_command command

  -- Rows that are not delivered are kept.
  abbrev pub Keeps : World → World → Type 0
  Keeps w v = (r : Row) → Mem r w.rows → state_eq r.state delivered ≡ false → Mem r v.rows

  -- What a prune prints is the number of rows that are gone; other commands keep all.
  abbrev pub Reports : World → Command → Result (List Text × ℕ) × World → Type 0
  Reports w (prune days) (ok (lines, code), v) =
      (n : ℕ) × (lines ≡ pruned_text n days ∷ []) × (length w.rows ≡ n + length v.rows) × (code ≡ 0)
  Reports w _ (ok (lines, code), v) = (v.rows ≡ w.rows) × (code ≡ 0)
  Reports w _ (raise e, v) = v.rows ≡ w.rows

  abbrev pub IsAdmin : World → Command → Result (List Text × ℕ) × World → Type 0
  IsAdmin w command a = Keeps w a.1 × Reports w command a

  same-IsAdmin :
      (w : World) (command : Command) (e : Error) (v : World)
      → v.rows ≡ w.rows
      → IsAdmin w command (raise e, v)
  same-IsAdmin w show_stats e v same = (λ r m h. subst (Mem r) (sym same) m, same)
  same-IsAdmin w (list_dlq limit) e v same = (λ r m h. subst (Mem r) (sym same) m, same)
  same-IsAdmin w (prune days) e v same = (λ r m h. subst (Mem r) (sym same) m, same)

  stats-IsAdmin :
      (w : World) (a : Result (State → Option ℕ) × World)
      → a.1.rows ≡ w.rows
      → IsAdmin w show_stats (continue a.0 (λ counts. pure (counts_text counts ∷ [], 0)) a.1)
  stats-IsAdmin w (ok counts, v) same = (λ r m h. subst (Mem r) (sym same) m, (same, refl))
  stats-IsAdmin w (raise e, v) same = same-IsAdmin w show_stats e v same

  list_dlq-IsAdmin :
      (limit : ℕ) (w : World) (a : Result (List QueueItem) × World)
      → a.1.rows ≡ w.rows
      → IsAdmin w
          (list_dlq limit)
          (continue a.0 (λ items. pure (map (λ item. dumps (item_json item)) items, 0)) a.1)
  list_dlq-IsAdmin limit w (ok items, v) same = (λ r m h. subst (Mem r) (sym same) m, (same, refl))
  list_dlq-IsAdmin limit w (raise e, v) same = same-IsAdmin w (list_dlq limit) e v same

  prune-IsAdmin :
      (days : ℕ) (u w : World) (a : Result ℕ × World)
      → u.rows ≡ w.rows
      → IsPruned u a
      → IsAdmin w (prune days) (continue a.0 (λ n. pure (pruned_text n days ∷ [], 0)) a.1)
  prune-IsAdmin days u w (ok n, v) same (gone, kept) =
      (λ r m h. kept r (subst (Mem r) (sym same) m) h, (n, refl, ap length (sym same) ∙ gone, refl))
  prune-IsAdmin days u w (raise e, v) same kept = same-IsAdmin w (prune days) e v (kept ∙ same)

  on_command-IsAdmin :
      (command : Command) (u w : World) → u.rows ≡ w.rows → IsAdmin w command (on_command command u)
  on_command-IsAdmin show_stats u w same = stats-IsAdmin w (stats u) ((stats-same u).0 ∙ same)
  on_command-IsAdmin (list_dlq limit) u w same =
      list_dlq-IsAdmin limit w (list_dead_letters limit u) (list_dead_letters-same limit u ∙ same)
  on_command-IsAdmin (prune days) u w same =
      prune-IsAdmin days u w (prune_delivered days u) same (prune_delivered-IsPruned days u)

  opened-IsAdmin :
      (command : Command) (w : World) (a : Result Unit × World)
      → a.1.rows ≡ w.rows
      → IsAdmin w command (continue a.0 (λ _. on_command command) a.1)
  opened-IsAdmin command w (ok _, u) same = on_command-IsAdmin command u w same
  opened-IsAdmin command w (raise e, u) same = same-IsAdmin w command e u same

  -- Whatever the command and whatever raises, the rows that are not delivered are kept. A prune that
  -- returns prints how many rows are gone; the other commands change no row, and neither does a
  -- command that raises.
  pub run_admin-IsAdmin :
      (connected : Result Unit) (command : Command) (w : World)
      → IsAdmin w command (run_admin connected command w)
  unfolding run_admin
  run_admin-IsAdmin connected command w =
      opened-IsAdmin command w (open_file connected w) (open_file-same connected w)
