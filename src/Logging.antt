-- ===== src/Logging.antt =====
-- mail_router/logging_setup.py: the JSON lines of the log, and the set-up of the root logger.
pub mod Tests
use mail_router.Prelude.{
  ℕ, ◌≡◌, refl, Bool, true, false, not, Text, Option, none, some, List, [], ◌∷◌, codes, text_eq,
  text_eq→eq, arith, ==_iff, ap, ◌∙◌, ◌==◌, if◌then◌else◌, Bool-cases, inl, inr,
}
use mail_router.Prelude.Dict
use mail_router.Prelude.Dict.{Dict, insert, get-insert}
use mail_router.Exec.{Result, ok, raise, value_error}
use mail_router.Lookup.{contains}

-- The attributes that are left out of a line
abbrev pub reserved : List Text
reserved =
    codes "args"
    ∷ codes "asctime"
    ∷ codes "created"
    ∷ codes "exc_info"
    ∷ codes "exc_text"
    ∷ codes "filename"
    ∷ codes "funcName"
    ∷ codes "levelname"
    ∷ codes "levelno"
    ∷ codes "lineno"
    ∷ codes "message"
    ∷ codes "module"
    ∷ codes "msecs"
    ∷ codes "msg"
    ∷ codes "name"
    ∷ codes "pathname"
    ∷ codes "process"
    ∷ codes "processName"
    ∷ codes "relativeCreated"
    ∷ codes "stack_info"
    ∷ codes "thread"
    ∷ codes "threadName"
    ∷ codes "taskName"
    ∷ []

-- A dict has each key once.
abbrev pub IsDict {ℓ} : {V : Type ℓ} → Dict V → Type ℓ
IsDict [] = Unit
IsDict ((k, v) ∷ d) = (Dict.get k d ≡ none) × IsDict d

module _ (Value : Type 0) (text : Text → Value) where
  -- A log record: the ISO time of `created`, `getMessage()`, `formatException(exc_info)` if there is
  -- one, and `__dict__`, which holds the `extra` values of the call too.
  pub record LogRecord : Type 0 where
    pub time : Text
    pub levelname : Text
    pub name : Text
    pub message : Text
    pub exception : Option Text
    pub attributes : Dict Value

  abbrev with_exception : Option Text → Dict Value → Dict Value
  with_exception none d = d
  with_exception (some exc) d = insert (codes "exc") (text exc) d

  abbrev pub base : LogRecord → Dict Value
  base r = with_exception r.exception (
      (codes "ts", text r.time)
      ∷ (codes "level", text r.levelname)
      ∷ (codes "logger", text r.name)
      ∷ (codes "msg", text r.message)
      ∷ [])

  -- The loop over `record.__dict__.items()`
  add_all : List Text → Dict Value → Dict Value → Dict Value
  add_all hidden [] payload = payload
  add_all hidden ((k, v) ∷ attributes) payload =
      add_all hidden attributes (if contains k hidden then payload else insert k v payload)

  -- `JsonFormatter.format`, up to `json.dumps`
  unfoldable pub format : LogRecord → Dict Value
  unfolding add_all
  format r = add_all reserved r.attributes (base r)

  abbrev pub or_else : Option Value → Option Value → Option Value
  or_else none b = b
  or_else (some a) b = some a

  -- What a line has at a key, said at once.
  abbrev pub value_for : List Text → Text → Dict Value → Dict Value → Option Value
  value_for hidden k attributes payload =
      if contains k hidden
      then Dict.get k payload
      else or_else (Dict.get k attributes) (Dict.get k payload)

  skipped :
      (hidden : List Text) (k j : Text) (v : Value) (attributes payload : Dict Value)
      → contains j hidden ≡ true
      → value_for hidden k attributes payload ≡ value_for hidden k ((j, v) ∷ attributes) payload
  skipped hidden k j v attributes payload e = elim (Bool-cases (text_eq k j)) [
    | inr f ↦ rw f refl
    | inl f ↦ rw (f, text_eq→eq k j f, e) refl
  ]

  added :
      (hidden : List Text) (k j : Text) (v : Value) (attributes payload : Dict Value)
      → Dict.get j attributes ≡ none
      → contains j hidden ≡ false
      → value_for hidden k attributes (insert j v payload)
        ≡ value_for hidden k ((j, v) ∷ attributes) payload
  added hidden k j v attributes payload fresh e = elim (Bool-cases (text_eq k j)) [
    | inr f ↦ rw (get-insert k j v payload, f) refl
    | inl f ↦ rw (get-insert k j v payload, f, text_eq→eq k j f, e, fresh) refl
  ]

  add_all-get :
      (hidden : List Text) (k : Text) (attributes payload : Dict Value)
      → IsDict attributes
      → Dict.get k (add_all hidden attributes payload) ≡ value_for hidden k attributes payload
  unfolding add_all
  add_all-get hidden k [] payload h = ground arith
  add_all-get hidden k ((j, v) ∷ attributes) payload (fresh, h) =
      elim (Bool-cases (contains j hidden)) [
        | inl e ↦
            rw e (
              add_all-get hidden k attributes payload h ∙ skipped hidden k j v attributes payload e)
        | inr e ↦ rw e (
            add_all-get hidden k attributes (insert j v payload) h
            ∙ added hidden k j v attributes payload fresh e)
      ]

  -- The line of a record has, at every key that is not reserved, the record's own value if there is
  -- one, and else one of the five that the formatter writes; at a reserved key, the formatter's alone.
  pub format-get :
      (r : LogRecord) (k : Text)
      → IsDict r.attributes
      → Dict.get k (format r) ≡ value_for reserved k r.attributes (base r)
  unfolding format
  format-get r k h = add_all-get reserved k r.attributes (base r) h

-- The root logger: its handlers, by identity, and its level.
pub record Root : Type 0 where
  pub handlers : List ℕ
  pub level : Text

abbrev remove : ℕ → List ℕ → List ℕ
remove h [] = []
remove h (x ∷ xs) = if h == x then xs else x ∷ remove h xs

abbrev remove_each : List ℕ → List ℕ → List ℕ
remove_each [] handlers = handlers
remove_each (h ∷ hs) handlers = remove_each hs (remove h handlers)

abbrev level_set : Bool → Text → Root → Result Unit × Root
level_set true level r = (ok tt, record r { level = level })
level_set false level r = (raise value_error, r)

-- `configure`: the new handler is given, and which level names there are
unfoldable pub configure : (Text → Bool) → (Text → Text) → ℕ → Text → Root → Result Unit × Root
configure is_level upper handler level r =
    level_set (is_level (upper level)) (upper level)
      (record r { handlers = handler ∷ remove_each r.handlers r.handlers })

remove_each-all : (hs : List ℕ) → remove_each hs hs ≡ []
remove_each-all [] = refl
remove_each-all (h ∷ hs) = rw ((==_iff h h).1 refl) (remove_each-all hs)

-- However often it is called, one handler is left, the one given last.
configure-handlers :
    (is_level : Text → Bool) (upper : Text → Text) (handler : ℕ) (level : Text) (r : Root)
    → (configure is_level upper handler level r).1.handlers ≡ handler ∷ []
unfolding configure
configure-handlers is_level upper handler level r =
    set-handlers (is_level (upper level)) (upper level) _
    ∙ ap (◌∷◌ handler) (remove_each-all r.handlers)
  where
    set-handlers :
        (b : Bool) (name : Text) (q : Root) → (level_set b name q).1.handlers ≡ q.handlers
    set-handlers true name q = refl
    set-handlers false name q = refl
