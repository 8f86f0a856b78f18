-- ===== src/Cli/Shutdown.antt =====
-- What a service leaves behind when it is stopped.
use mail_router.Prelude.{ℕ, ◌≡◌, refl, ap, ◌∙◌, Bool, true, false, none, some}
use mail_router.Exec.{Result, ok, raise, continue}
use mail_router.Lookup.{open_table}
use mail_router.Queue.{close}
use mail_router.Queue.Sqlite.{World}
use mail_router.Queue.Open.{open_file}
use mail_router.Socket.Lifecycle.{started, stopped}
use mail_router.Socket.{closed_server}
use mail_router.Worker.{Worker, run_forever}
use mail_router.Worker.Tick.{committed}
use mail_router.Cli.{Service, Work, run_receiver, run_worker}

-- The socket is gone, the connection closed and nothing of an open transaction left.
pub record IsShutDown (w : World) (p : Service) : Type 0 where
  pub free : p.site.entry ≡ none
  pub stopped : p.site.server ≡ some closed_server
  pub closed : p.queue.closed ≡ true
  pub kept : p.queue.rows ≡ committed w

-- The receiver, where its files open and no call on the socket fails, returns 0 and is shut down, with
-- the rows that its connections have committed, whatever stood at the socket's path before.
pub run_receiver-IsShutDown :
    (reload : Bool) (work : Work) (p : Service)
    → (open_table reload p.lookup).0 ≡ ok tt
    → (open_file p.connected p.queue).0 ≡ ok tt
    → ((n : ℕ) → p.site.fails n ≡ false)
    → ((run_receiver reload work p).0 ≡ ok 0)
      × IsShutDown (work.on_rows (open_file p.connected p.queue).1) (run_receiver reload work p).1
unfolding run_receiver close
run_receiver-IsShutDown reload work p table queue up =
    let (v, e, server, entry, same) = started p.site up in
    let (u, e', free, closed) =
      stopped v p.site.socket_mode (λ n. ap (λ (f : ℕ → Bool). f n) same ∙ up n) server entry in
    rw (table, queue, e, e')
      (refl, record { free = free; stopped = closed; closed = refl; kept = refl })

-- The worker once its files are open.
abbrev pub opened : Bool → Result Unit → Worker → Worker
opened reload connected s = record s {
  lookup = (open_table reload s.lookup).1;
  queue = (open_file connected s.queue).1;
}

-- 0, or the exception.
abbrev pub exit_of : Result Unit → Result ℕ
exit_of (ok _) = ok 0
exit_of (raise e) = raise e

exit_lem : (r : Result Unit) (s : Worker) → continue r (λ _ v. (ok 0, v)) s ≡ (exit_of r, s)
exit_lem (ok _) s = refl
exit_lem (raise e) s = refl

-- However the worker's loop ends, the client being closed without an exception, the connection is
-- closed and keeps the committed rows; the run comes to 0, or to the loop's exception.
run_worker-closes :
    (reload : Bool) (n : ℕ) (s : Worker) (connected : Result Unit)
    → (open_table reload s.lookup).0 ≡ ok tt
    → (open_file connected s.queue).0 ≡ ok tt
    → ((run_worker reload connected (ok tt) n s).1.queue.closed ≡ true)
      × ((run_worker reload connected (ok tt) n s).1.queue.rows
          ≡ committed (run_forever n (opened reload connected s)).1.queue)
      × ((run_worker reload connected (ok tt) n s).0
          ≡ exit_of (run_forever n (opened reload connected s)).0)
unfolding run_worker close
run_worker-closes reload n s connected table queue = rw (table, queue, exit_lem) (refl, refl, refl)
