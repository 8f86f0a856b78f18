-- ===== src/LookupSync/Disk.antt =====
-- The files that mail_router/lookup_sync.py reads and writes, and the system calls on them. A call is
-- one tick, and raises OSError where the environment says so. Every state of the directory is
-- recorded: a crash leaves one of them.
use mail_router.Prelude.{
  ℕ, ◌+◌, Bool, true, false, Text, Option, some, List, [], ◌∷◌, take, drop, if◌then◌else◌,
}
use mail_router.Exec.{
  Exec, Error, Result, ok, raise, value_error, connection_error, os_error, raises, ◌>>◌,
}

pub record StoredFile : Type 0 where
  pub content : Text
  pub mode : ℕ

-- The lookup file and the file beside it with the ETag.
pub data Target : Type 0 where
  lookup_file etag_file : Target

-- Temporary files have names of their own; the one made last is at the head.
pub record Files : Type 0 where
  pub lookup : Option StoredFile
  pub etag : Option StoredFile
  pub temps : List StoredFile

abbrev pub put : Target → StoredFile → Files → Files
put lookup_file file f = record f { lookup = some file }
put etag_file file f = record f { etag = some file }

pub record Environment : Type 0 where
  pub fails : ℕ → Bool
  -- how much of a text is on the disk while it is written
  pub torn : ℕ → ℕ
  -- whether the encoding of text files can write the text
  pub is_encodable : Text → Bool

pub record Disk : Type 0 where
  pub env : Environment
  pub files : Files
  -- the states of the directory so far, the last one first
  pub history : List Files
  pub tick : ℕ

abbrev pub step_on : Files → Disk → Disk
step_on f w = record w { files = f; history = f ∷ w.history }

abbrev pub ticked : Disk → Disk
ticked w = record w { tick = w.tick + 1 }

abbrev pub done_or : Bool → Disk → Disk → Result Unit × Disk
done_or true broken done = (raise os_error, broken)
done_or false broken done = (ok tt, done)

-- A system call that happens or does not.
abbrev pub operate : (Files → Files) → Exec Disk Unit
operate change w = done_or (w.env.fails w.tick) (ticked w) (step_on (change w.files) (ticked w))

abbrev pub change_first : (StoredFile → StoredFile) → List StoredFile → List StoredFile
change_first change [] = []
change_first change (t ∷ ts) = change t ∷ ts

abbrev pub on_temp : (StoredFile → StoredFile) → Files → Files
on_temp change f = record f { temps = change_first change f.temps }

abbrev pub set_content : Text → Files → Files
set_content content = on_temp (λ t. record t { content = content })

-- `tempfile.mkstemp`, whose files are read and written by their owner only
abbrev pub owner_only : ℕ
owner_only = 384

abbrev pub mkstemp : Exec Disk Unit
mkstemp = operate (λ f. record f { temps = record { content = []; mode = owner_only } ∷ f.temps })

-- `with os.fdopen(fd, "w") as handle: handle.write(content)`: a text that cannot be encoded raises
-- UnicodeEncodeError, a ValueError
abbrev pub write_encoded : Text → Exec Disk Unit
write_encoded content w =
    let part = step_on (set_content (take (w.env.torn w.tick) content) w.files) (ticked w) in
    done_or (w.env.fails w.tick) part (step_on (set_content content part.files) part)

abbrev pub write_if : Bool → Text → Exec Disk Unit
write_if true content w = write_encoded content w
write_if false content w = (raise value_error, w)

abbrev pub write : Text → Exec Disk Unit
write content w = write_if (w.env.is_encodable content) content w

-- `os.chmod(tmp, mode)`
abbrev pub chmod : ℕ → Exec Disk Unit
chmod mode = operate (on_temp (λ t. record t { mode = mode }))

-- `os.replace(tmp, target)`
abbrev pub move : Target → List StoredFile → Files → Files
move target [] f = f
move target (t ∷ ts) f = put target t (record f { temps = ts })

abbrev pub replace : Target → Exec Disk Unit
replace target = operate (λ f. move target f.temps f)

-- `tmp.unlink(missing_ok=True)`
abbrev pub unlink : Exec Disk Unit
unlink = operate (λ f. record f { temps = drop 1 f.temps })

abbrev pub is_os : Error → Bool
is_os os_error = true
is_os connection_error = true
is_os _ = false

-- `try: m except OSError: handler`
abbrev pub handle_os : {A : Type 0} → Result A → (Error → Exec Disk A) → Exec Disk A
handle_os (ok a) handler w = (ok a, w)
handle_os (raise e) handler w = if is_os e then handler e w else (raise e, w)

abbrev pub catch_os : {A : Type 0} → Exec Disk A → (Error → Exec Disk A) → Exec Disk A
catch_os m handler w = let (r, w') = m w in handle_os r handler w'

-- `_write_atomic`
unfoldable pub write_atomic : Target → Text → ℕ → Exec Disk Unit
write_atomic target content mode = do
  mkstemp
  catch_os (do write content; chmod mode; replace target) (λ e. do unlink; raises e)
