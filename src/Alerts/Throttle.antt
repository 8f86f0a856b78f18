-- ===== src/Alerts/Throttle.antt =====
-- An event that was alerted is quiet until the throttle time is over.
use mail_router.Prelude.{
  ℕ, ◌+◌, ◌*◌, ◌<◌, ◌≤◌, ◌≡◌, refl, ap, sym, ◌∙◌, Bool, true, false, Text, text_eq, text_eq_iff,
  text_eq_refl, some, List, [], ◌∷◌, ◌++◌, arith, select, Bool-cases, inl, inr, length, ltb, ◌==◌,
  if◌then◌else◌,
}
use mail_router.Prelude.Dict
use mail_router.Prelude.Dict.{get-insert, get-insert_self}
use mail_router.Exec.{ok}
use mail_router.Alerts.{
  Alerter, AlertsConfig, Message, notify, notify_at, last_of, is_throttled, nanoseconds,
}

-- `notify`, message after message
pub notify_all : List Message → Alerter → Alerter
unfolding notify
notify_all [] s = s
notify_all (m ∷ ms) s = notify_all ms (notify m s).1

abbrev pub of_event : Text → List Message → List Message
of_event event ms = select (λ m. text_eq m.event event) ms

select-append_one :
    (p : Message → Bool) (ms : List Message) (m : Message)
    → p m ≡ false
    → select p (ms ++ m ∷ []) ≡ select p ms
select-append_one p [] m h = ground arith
select-append_one p (q ∷ ms) m h = ground (arith, select-append_one p ms m h)

module _ (event : Text) (t throttle last_reading : ℕ) where
  -- What keeps the event quiet: its last time, and a clock whose next readings are early.
  pub record IsQuiet (s : Alerter) : Type 0 where
    pub started : (t == 0) ≡ false
    pub last : Dict.get event s.last_sent ≡ some t
    pub same : s.config.throttle ≡ throttle
    pub early : (n : ℕ) → n < last_reading → ltb (s.monotonic n) (t + throttle * nanoseconds) ≡ true

  -- One notification neither sends the event nor makes it less quiet.
  abbrev Stays : Alerter → Alerter → Type 0
  Stays s s' =
      IsQuiet s' × (of_event event s'.sent ≡ of_event event s.sent) × (s'.readings ≤ s.readings + 1)

  insert-IsQuiet :
      (event' : Text) (x : ℕ) (s : Alerter)
      → Dict.get event (Dict.insert event' x s.last_sent) ≡ some t
      → IsQuiet s
      → (tried : ℕ) (sent : List Message)
      → IsQuiet (record s {
        readings = s.readings + 1;
        last_sent = Dict.insert event' x s.last_sent;
        tried = tried;
        sent = sent;
      })
  insert-IsQuiet event' x s found q tried sent = record {
    started = q.started;
    last = found;
    same = q.same;
    early = q.early;
  }

  -- the same event, which is throttled
  same-Stays :
      (m : Message) (s : Alerter)
      → IsQuiet s
      → m.event ≡ event
      → (now last : ℕ) → is_throttled s.config.throttle last now ≡ true
      → last ≡ t
      → Stays s (notify_at last now m (record s { readings = s.readings + 1 })).1
  same-Stays m s q same now last hot e = rw hot (
    insert-IsQuiet m.event last s
        (get-insert event m.event last s.last_sent
          ∙ ap (λ b. if b then some last else Dict.get event s.last_sent)
              ((text_eq_iff event m.event).1 (sym same))
          ∙ ap some e)
        q s.tried s.sent,
    refl,
    omega arith,
  )

  -- another event
  other-Stays :
      (m : Message) (s : Alerter)
      → IsQuiet s
      → text_eq m.event event ≡ false
      → (now last : ℕ) → Stays s (notify_at last now m (record s { readings = s.readings + 1 })).1
  other-Stays m s q other now last = elim (Bool-cases (is_throttled s.config.throttle last now)) [
    | inl g ↦ rw g (insert-IsQuiet m.event last s (kept last) q s.tried s.sent, refl, omega arith)
    | inr g ↦ elim (Bool-cases (s.takes s.tried)) [
      | inl k ↦
          rw (g, k)
            (
              insert-IsQuiet m.event now s (kept now) q (s.tried + 1) (s.sent ++ m ∷ []),
              select-append_one (λ n. text_eq n.event event) s.sent m other,
              omega arith,
            )
      | inr k ↦
          rw (g, k)
            (insert-IsQuiet m.event now s (kept now) q (s.tried + 1) s.sent, refl, omega arith)
    ]
  ]
    where
      differs : text_eq event m.event ≡ false
      differs = ground (arith, other, text_eq_iff event m.event, text_eq_iff m.event event)

      kept : (x : ℕ) → Dict.get event (Dict.insert m.event x s.last_sent) ≡ some t
      kept x =
          get-insert event m.event x s.last_sent
          ∙ ap (λ b. if b then some x else Dict.get event s.last_sent) differs
          ∙ q.last

  notify_at-Stays :
      (m : Message) (s : Alerter)
      → IsQuiet s
      → s.readings < last_reading
      → Stays s
          (notify_at
            (last_of (Dict.get m.event s.last_sent))
            (s.monotonic s.readings)
            m
            (record s { readings = s.readings + 1 })).1
  notify_at-Stays m s q le = elim (Bool-cases (text_eq m.event event)) [
    | inl f ↦
        let same : m.event ≡ event = (text_eq_iff m.event event).0 f in
        let e : last_of (Dict.get m.event s.last_sent) ≡ t =
          ap (λ k. last_of (Dict.get k s.last_sent)) same ∙ ap last_of q.last in
        same-Stays m s q same (s.monotonic s.readings) _
          (ap (λ l. is_throttled s.config.throttle l (s.monotonic s.readings)) e ∙ hot s q le) e
    | inr f ↦ other-Stays m s q f (s.monotonic s.readings) _
  ]
    where
      hot :
          (s : Alerter)
          → IsQuiet s
          → s.readings < last_reading
          → is_throttled s.config.throttle t (s.monotonic s.readings) ≡ true
      hot s q le = rw (q.started, q.same, q.early s.readings le) refl

  notify-Stays :
      (m : Message) (s : Alerter) → IsQuiet s → s.readings < last_reading → Stays s (notify m s).1
  unfolding notify
  notify-Stays m s q le = ground (arith, notify_at-Stays m s q le)

  notify_all-sent :
      (ms : List Message) (s : Alerter)
      → IsQuiet s
      → s.readings + length ms ≤ last_reading
      → of_event event (notify_all ms s).sent ≡ of_event event s.sent
  unfolding notify_all
  notify_all-sent [] s q le = refl
  notify_all-sent (m ∷ ms) s q le =
      let (q', same, more) = notify-Stays m s q (omega arith) in
      notify_all-sent ms (notify m s).1 q' (omega arith) ∙ same

select-append_this :
    (p : Message → Bool) (ms : List Message) (m : Message)
    → p m ≡ true
    → select p (ms ++ m ∷ []) ≡ select p ms ++ m ∷ []
select-append_this p [] m h = ground arith
select-append_this p (q ∷ ms) m h = ground (arith, select-append_this p ms m h)

-- What `notify` leaves behind when it returns True.
record IsSent (m : Message) (s s' : Alerter) : Type 0 where
  last : Dict.get m.event s'.last_sent ≡ some (s.monotonic s.readings)
  config : s'.config ≡ s.config
  monotonic : s'.monotonic ≡ s.monotonic
  readings : s'.readings ≡ s.readings + 1
  sent : s'.sent ≡ s.sent ++ m ∷ []

notify_at-IsSent :
    (m : Message) (s : Alerter) (last : ℕ)
    → let a = notify_at last (s.monotonic s.readings) m (record s { readings = s.readings + 1 }) in
      a.0 ≡ ok true → IsSent m s a.1
notify_at-IsSent m s last =
    elim (Bool-cases (is_throttled s.config.throttle last (s.monotonic s.readings))) [
      | inl g ↦ rw g (λ h. cc)
      | inr g ↦ elim (Bool-cases (s.takes s.tried)) [
        | inl k ↦
            rw (g, k)
              (λ h. record {
                last = get-insert_self m.event (s.monotonic s.readings) s.last_sent;
                config = refl;
                monotonic = refl;
                readings = refl;
                sent = refl;
              })
        | inr k ↦ rw (g, k) (λ h. cc)
      ]
    ]

notify-IsSent : (m : Message) (s : Alerter) → (notify m s).0 ≡ ok true → IsSent m s (notify m s).1
unfolding notify
notify-IsSent m s = ground (arith, notify_at-IsSent m s (last_of (Dict.get m.event s.last_sent)))

-- If `notify` returns True, then of the messages of its event no other is sent after it as long as
-- the clock reads less than the throttle time past it; the clock did not read 0 then.
pub notify-throttled :
    (m : Message) (s : Alerter) (ms : List Message)
    → (notify m s).0 ≡ ok true
    → (s.monotonic s.readings == 0) ≡ false
    → ((n : ℕ)
        → n < s.readings + 1 + length ms
        → ltb (s.monotonic n) (s.monotonic s.readings + s.config.throttle * nanoseconds) ≡ true)
    → of_event m.event (notify_all ms (notify m s).1).sent ≡ of_event m.event s.sent ++ m ∷ []
notify-throttled m s ms returned started early =
    let i = notify-IsSent m s returned in
    notify_all-sent m.event (s.monotonic s.readings) s.config.throttle (s.readings + 1 + length ms)
      ms (notify m s).1
      (record {
        started = started;
        last = i.last;
        same = ap (λ (c : AlertsConfig). c.throttle) i.config;
        early = rw i.monotonic early;
      })
      (omega (arith, i.readings))
    ∙ ap (of_event m.event) i.sent
    ∙ select-append_this (λ n. text_eq n.event m.event) s.sent m (text_eq_refl m.event)
