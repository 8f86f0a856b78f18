-- ===== src/Cli/Tests.antt =====
-- The services and the commands.
use mail_router.Prelude.{◌≡◌, refl, true, false, Text, none, some, [], ◌∷◌, codes}
use mail_router.Exec.{ok, raise, value_error}
use mail_router.Json.{obj}
use mail_router.Clock.{DateTime}
use mail_router.Lookup.{open_table}
use mail_router.Queue.{Mail, new_row}
use mail_router.Queue.Schema.{delivered, Row}
use mail_router.Queue.Sqlite.{Environment, World}
use mail_router.Queue.Open.{open_file}
use mail_router.LookupSync.Disk.{Disk}
use mail_router.LookupSync.Run.{Services, crash}
use mail_router.Config.Tests.{reader, minimal, load-minimal}
use mail_router.Cli.{Service, Work, run_receiver}
use mail_router.Cli.Launch.{Process, outside, run_lookup_sync}
use mail_router.Logging.{configure}
use mail_router.Cli.Shutdown.{IsShutDown, run_receiver-IsShutDown}
use mail_router.Cli.Admin.{prune, IsAdmin, run_admin, run_admin-IsAdmin}

abbrev noon : DateTime
noon = record {
  year = 2026;
  month = 1;
  day = 20;
  hour = 12;
  minute = 0;
  second = 0;
  microsecond = 0;
  aware = true;
}

abbrev env : Environment
env = record {
  fails = λ _. false;
  clock = λ _. noon;
  lost_ids = 1;
  order_by_received = λ rows. rows;
  fromisoformat = λ _. some noon;
}

abbrev mail : Text → Mail
mail key = record {
  sender_email = codes "a@b.cz";
  recipient_email = codes "demo@shpd.cz";
  ds_id = codes "demo";
  mailbox = none;
  idempotency_key = key;
  raw_eml = codes "Subject: one";
}

-- One mail was delivered long ago, and one waits.
abbrev old_row : Row
old_row = record (new_row 1 (codes "2026-01-01 11:59:00+00:00") (mail (codes "k1"))) {
  state = delivered;
  delivered_at = some (codes "2026-01-01 12:00:00+00:00");
}

abbrev queue : World
queue = record {
  env = env;
  rows = old_row ∷ new_row 2 (codes "2026-01-20 11:59:00+00:00") (mail (codes "k2")) ∷ [];
  sequence = 2;
  saved = none;
  closed = false;
  tick = 0;
}

run_admin-IsAdmin_example :
    IsAdmin
      (λ _. [])
      (λ _. [])
      queue
      (prune 7)
      (run_admin (λ _. []) (λ _. []) (ok tt) (prune 7) queue)
run_admin-IsAdmin_example = run_admin-IsAdmin (λ _. []) (λ _. []) (ok tt) (prune 7) queue

-- No lookup file yet, and a socket left over by a process that crashed.
abbrev service : Service
service = record {
  site = record {
    fails = λ _. false;
    has_directory = true;
    entry = some 493;
    server = none;
    socket_mode = 432;
    new_mode = 493;
    tick = 0;
  };
  lookup = record {
    table = record { auto_reload = true; mtime = none; hosts = []; data_sources = [] };
    python = record { lower = λ s. s; str_of = λ _. [] };
    disk = λ _. none;
    tick = 0;
  };
  queue = queue;
  connected = ok tt;
}

abbrev idle : Work
idle = record { on_table = λ l. l; on_rows = λ w. w }

table_opened : (open_table true service.lookup).0 ≡ ok tt
unfolding open_table
table_opened = refl

queue_opened : (open_file (ok tt) queue).0 ≡ ok tt
unfolding open_file
queue_opened = refl

run_receiver-IsShutDown_example :
    ((run_receiver true idle service).0 ≡ ok 0)
    × IsShutDown (open_file (ok tt) queue).1 (run_receiver true idle service).1
run_receiver-IsShutDown_example =
    run_receiver-IsShutDown true idle service table_opened queue_opened (λ _. refl)

abbrev services : Services
services = record { get = λ _ _. crash; loads = λ _. none; dumps = λ _. []; repr = λ s. s }

abbrev disk : Disk
disk = record {
  env = record { fails = λ _. false; torn = λ n. n; is_encodable = λ _. true };
  files = record { lookup = none; etag = none; temps = [] };
  history = [];
  tick = 0;
}

abbrev shell : Process Disk
shell = record { root = record { handlers = 1 ∷ 2 ∷ []; level = codes "WARNING" }; world = disk }

-- Without a section for it, the sync touches no file.
unconfigured :
    run_lookup_sync reader (λ _. true) 3 services (ok (obj minimal)) shell
    ≡ (ok 2, record shell { root = record { handlers = 3 ∷ []; level = codes "INFO" } })
unfolding run_lookup_sync configure
unconfigured = rw load-minimal refl

-- A level that there is not ends the command before it has done anything.
no_level :
    outside (run_lookup_sync reader (λ _. false) 3 services (ok (obj minimal)) shell)
    ≡ (raise value_error, disk)
unfolding run_lookup_sync configure
no_level = rw load-minimal refl
