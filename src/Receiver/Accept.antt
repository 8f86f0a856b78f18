-- ===== src/Receiver/Accept.antt =====
-- What "250 OK" to a mail stands for.
use text.Mathlib.TextEquality.{eq_iff}
use mathlib.Core.List.{Mem, mem-cons_self, mem-cons_of_mem}
use mail_router.Prelude.{
  ℕ, ◌≡◌, ◌≢◌, refl, ap, sym, subst, ◌∙◌, Bool, true, false, Text, Option, none, some, List, [],
  ◌∷◌, arith, All, All-map, find_first, String, text_eq_refl, ◌⊎◌, inl, inr,
}
use mail_router.Exec.{Result, ok, raise, pure, continue, handle}
use mail_router.Lookup.{Lookup}
use mail_router.Lookup.Reload.{allowed_domains-static}
use mail_router.Address.{ParsedAddress, parse_recipient}
use mail_router.Parser.{idempotency_key}
use mail_router.Queue.{Mail, enqueue, new_row}
use mail_router.Queue.Schema.{Row, has_key}
use mail_router.Queue.Sqlite.{World}
use mail_router.Queue.Enqueue.{stamp, IsEnqueued, enqueue-IsEnqueued}
use mail_router.Queue.Table.{find-append, find-append_new, find-append_inv}
use mail_router.Queue.Durable.{mail_of}
use mail_router.Receiver.{
  Envelope, Handler, extract_message_id, accepted_text, malformed, unknown, try_again, before_at,
  mail_for, store_parsed, store_for, store_all, handle_data,
}

-- Some row has the key.
abbrev pub HasKey : Text → List Row → Type 0
HasKey k rows = (r : Row) × (find_first (has_key k) rows ≡ some r)

abbrev pub IsQueued : Mail → World → Result (ℕ × Bool) × World → Type 0
IsQueued m w (ok _, w') =
    HasKey m.idempotency_key w'.rows
    × ((k : Text) → HasKey k w.rows → HasKey k w'.rows)
    × ((k : Text) (r : Row)
        → find_first (has_key k) w'.rows ≡ some r
        → (find_first (has_key k) w.rows ≡ some r) ⊎ (mail_of r ≡ m))
IsQueued m w (raise _, w') = Unit

pub queued :
    (m : Mail) (w : World) (a : Result (ℕ × Bool) × World) → IsEnqueued m w a → IsQueued m w a
queued m w (raise e, w') h = tt
queued m w (ok (id, false), w') (r, found, _, rows, _, _) = (
  (r, subst (λ l. find_first (has_key m.idempotency_key) l ≡ some r) (sym rows) found),
  λ k h. subst (HasKey k) (sym rows) h,
  λ k q held. inl (ap (find_first (has_key k)) (sym rows) ∙ held),
)
queued m w (ok (id, true), w') (fresh, _, _, rows, _) = (
  subst (HasKey m.idempotency_key) (sym rows) (
    new_row id (stamp w) m,
    find-append_new (has_key m.idempotency_key) w.rows (new_row id (stamp w) m) fresh
        (text_eq_refl m.idempotency_key),
  ),
  λ k h. subst (HasKey k) (sym rows) (h.0, find-append (has_key k) w.rows _ h.0 h.1),
  λ k q held.
      elim (find-append_inv (has_key k) w.rows (new_row id (stamp w) m) q
        (ap (find_first (has_key k)) (sym rows) ∙ held)) [
          | inl old ↦ inl old
          | inr new ↦ inr (ap mail_of new)
        ],
)

module _ (c : ℕ) (mid : Text) (envelope : Envelope) where
  -- The key under which a recipient's copy is queued
  abbrev pub key_of : Handler → Text → ParsedAddress → Text
  key_of s rcpt parsed = idempotency_key s.sha256 s.python parsed.domain (before_at rcpt) (c ∷ mid)

  -- The row holds the mail as it came, and where it is to go.
  pub record IsCopy (rcpt : Text) (parsed : ParsedAddress) (k : Text) (r : Row) : Type 0 where
    pub content : r.raw_eml ≡ envelope.content
    pub sender : r.sender_email ≡ envelope.mail_from
    pub recipient : r.recipient_email ≡ rcpt
    pub data_source : r.ds_id ≡ parsed.ds_id
    pub box : r.mailbox ≡ parsed.mailbox
    pub key : r.idempotency_key ≡ k

  -- The row is a copy for one of the recipients.
  abbrev pub IsCopyFor : Handler → Row → Text → Type 0
  IsCopyFor s r rcpt =
      (parsed : ParsedAddress) × (parse_recipient s.python rcpt s.lookup.table.hosts ≡ some parsed)
      × IsCopy rcpt parsed (key_of s rcpt parsed) r

  abbrev pub IsNew : Handler → List Text → Row → Type 0
  IsNew s rcpts r = (rcpt : Text) × Mem rcpt rcpts × IsCopyFor s r rcpt

  -- A row has the key, and it had it before, unchanged, or is a copy for one of the recipients.
  abbrev pub CameFrom : Handler → List Text → Text → Row → Type 0
  CameFrom s rcpts k r = (find_first (has_key k) s.queue.rows ≡ some r) ⊎ IsNew s rcpts r

  abbrev pub HasCopy : Handler → List Text → Text → List Row → Type 0
  HasCopy s rcpts k rows = (r : Row) × (find_first (has_key k) rows ≡ some r) × CameFrom s rcpts k r

  abbrev pub IsStoredAs :
      (Text → List Row → Type 0) → Handler → Text → Option ParsedAddress → List Row → Type 0
  IsStoredAs P s rcpt none rows = Unit
  IsStoredAs P s rcpt (some parsed) rows = P (key_of s rcpt parsed) rows

  -- The recipient is not one of the router's, or its key has the property.
  abbrev pub IsStored : (Text → List Row → Type 0) → Handler → List Row → Text → Type 0
  IsStored P s rows rcpt =
      IsStoredAs P s rcpt (parse_recipient s.python rcpt s.lookup.table.hosts) rows

  pub map-IsStored :
      (P Q : Text → List Row → Type 0) (s : Handler) (rows rows' : List Row)
      → ((k : Text) → P k rows → Q k rows')
      → (rcpt : Text) → IsStored P s rows rcpt
      → IsStored Q s rows' rcpt
  map-IsStored P Q s rows rows' f rcpt = go (parse_recipient s.python rcpt s.lookup.table.hosts)
    where
      go : (p : Option ParsedAddress) → IsStoredAs P s rcpt p rows → IsStoredAs Q s rcpt p rows'
      go none h = tt
      go (some p) h = f _ h

  abbrev IsStoring : Handler → List Text → Result Unit × Handler → Type 0
  IsStoring s rcpts (ok _, s') =
      All (IsStored HasKey s s'.queue.rows) rcpts
      × ((k : Text) → HasKey k s.queue.rows → HasKey k s'.queue.rows)
      × ((k : Text) (r : Row)
          → find_first (has_key k) s'.queue.rows ≡ some r
          → CameFrom s rcpts k r)
  IsStoring s rcpts (raise _, s') = Unit

  store_for-static :
      (rcpt : Text) (s : Handler)
      → s.lookup.table.auto_reload ≡ false
      → store_for (some (c ∷ mid)) envelope rcpt s
        ≡ store_parsed
            (some (c ∷ mid))
            envelope
            rcpt
            (parse_recipient s.python rcpt s.lookup.table.hosts)
            s
  store_for-static rcpt s h =
      ap
        (λ (x : Result (List Text) × Lookup).
          continue x.0
            (λ domains v.
              store_parsed (some (c ∷ mid)) envelope rcpt (parse_recipient v.python rcpt domains) v)
            (record s { lookup = x.1 }))
        (allowed_domains-static s.lookup h)

  -- One recipient is done, and the others follow.
  add :
      (s : Handler) (w : World) (rcpt : Text) (rcpts : List Text) (p : Option ParsedAddress)
      → parse_recipient s.python rcpt s.lookup.table.hosts ≡ p
      → IsStoredAs HasKey s rcpt p w.rows
      → ((k : Text) → HasKey k s.queue.rows → HasKey k w.rows)
      → ((k : Text) (r : Row)
          → find_first (has_key k) w.rows ≡ some r
          → (find_first (has_key k) s.queue.rows ≡ some r) ⊎ IsCopyFor s r rcpt)
      → (a : Result Unit × Handler) → IsStoring (record s { queue = w }) rcpts a
      → IsStoring s (rcpt ∷ rcpts) a
  add s w rcpt rcpts p e one keep from (raise x, s') h = tt
  add s w rcpt rcpts p e one keep from (ok u, s') (others, keep', from') = (
    (subst (λ q. IsStoredAs HasKey s rcpt q s'.queue.rows) (sym e) (later p one), others),
    λ k h. keep' k (keep k h),
    λ k r held. earlier k r (from' k r held),
  )
    where
      earlier :
          (k : Text) (r : Row)
          → (find_first (has_key k) w.rows ≡ some r) ⊎ IsNew s rcpts r
          → CameFrom s (rcpt ∷ rcpts) k r
      earlier k r (inr (x, m, new)) = inr (x, mem-cons_of_mem rcpt m, new)
      earlier k r (inl old) = elim (from k r old) [
        | inl older ↦ inl older
        | inr new ↦ inr (rcpt, mem-cons_self, new)
      ]

      later :
          (q : Option ParsedAddress)
          → IsStoredAs HasKey s rcpt q w.rows
          → IsStoredAs HasKey s rcpt q s'.queue.rows
      later none h = tt
      later (some q) h = keep' _ h

  abbrev rest : List Text → Result Unit × Handler → Result Unit × Handler
  rest rcpts a = continue a.0 (λ _. store_all (some (c ∷ mid)) envelope rcpts) a.1

  store_one :
      (s : Handler) (rcpt : Text) (rcpts : List Text)
      → ((v : World)
          → IsStoring
              (record s { queue = v })
              rcpts
              (store_all (some (c ∷ mid)) envelope rcpts (record s { queue = v })))
      → (p : Option ParsedAddress) → parse_recipient s.python rcpt s.lookup.table.hosts ≡ p
      → IsStoring s (rcpt ∷ rcpts) (rest rcpts (store_parsed (some (c ∷ mid)) envelope rcpt p s))
  store_one s rcpt rcpts ih none e =
      add s s.queue rcpt rcpts none e tt (λ k h. h) (λ k r held. inl held)
        (store_all (some (c ∷ mid)) envelope rcpts s) (ih s.queue)
  store_one s rcpt rcpts ih (some p) e =
      go (enqueue m s.queue) (queued m s.queue (enqueue m s.queue) (enqueue-IsEnqueued m s.queue))
    where
      m : Mail
      m = mail_for envelope rcpt p (key_of s rcpt p)

      new : {A : Type 0} (q : Row) → A ⊎ (mail_of q ≡ m) → A ⊎ IsCopyFor s q rcpt
      new q (inl old) = inl old
      new q (inr same) = inr (
        p,
        e,
        record {
          content = ap (λ (n : Mail). n.raw_eml) same;
          sender = ap (λ (n : Mail). n.sender_email) same;
          recipient = ap (λ (n : Mail). n.recipient_email) same;
          data_source = ap (λ (n : Mail). n.ds_id) same;
          box = ap (λ (n : Mail). n.mailbox) same;
          key = ap (λ (n : Mail). n.idempotency_key) same;
        },
      )

      go :
          (a : Result (ℕ × Bool) × World)
          → IsQueued m s.queue a
          → IsStoring s
              (rcpt ∷ rcpts)
              (rest rcpts (continue a.0 (λ _. pure tt) (record s { queue = a.1 })))
      go (raise x, w) h = tt
      go (ok r, w) (has, keep, grown) =
          add s w rcpt rcpts (some p) e has keep (λ k q held. new q (grown k q held))
            (store_all (some (c ∷ mid)) envelope rcpts (record s { queue = w })) (ih w)

  store_all-IsStoring :
      (rcpts : List Text) (s : Handler)
      → s.lookup.table.auto_reload ≡ false
      → IsStoring s rcpts (store_all (some (c ∷ mid)) envelope rcpts s)
  unfolding store_all
  store_all-IsStoring [] s h = (tt, λ k x. x, λ k r held. inl held)
  store_all-IsStoring (rcpt ∷ rcpts) s h =
      subst (λ a. IsStoring s (rcpt ∷ rcpts) (rest rcpts a)) (sym (store_for-static rcpt s h))
        (store_one s rcpt rcpts (λ v. store_all-IsStoring rcpts (record s { queue = v }) h)
          (parse_recipient s.python rcpt s.lookup.table.hosts) refl)

pub malformed_ne : ◌≢◌ {A = String} malformed accepted_text
malformed_ne = ground (arith, eq_iff malformed accepted_text)

pub unknown_ne : ◌≢◌ {A = String} unknown accepted_text
unknown_ne = ground (arith, eq_iff unknown accepted_text)

pub not_again : ◌≢◌ {A = String} try_again accepted_text
not_again = ground (arith, eq_iff try_again accepted_text)

abbrev pub answer : Result Unit × Handler → Result String × Handler
answer a =
    let b = continue a.0 (λ _. pure {A = String} accepted_text) a.1 in
    handle b.0 (λ _. pure try_again) b.1

answered :
    (c : ℕ) (mid : Text) (envelope : Envelope) (s : Handler) (rcpts : List Text)
    (a : Result Unit × Handler)
    → IsStoring c mid envelope s rcpts a
    → (answer a).0 ≡ ok accepted_text
    → All (IsStored c mid envelope (HasCopy c mid envelope s rcpts) s (answer a).1.queue.rows) rcpts
answered c mid envelope s rcpts (ok u, s') (stored, _, from) e =
    All-map rcpts
      (map-IsStored c mid envelope HasKey (HasCopy c mid envelope s rcpts) s s'.queue.rows
        s'.queue.rows (λ k (r, held). (r, held, from k r held)))
      stored
answered c mid envelope s rcpts (raise x, s') h e = absurd (not_again (cc))

pub handle_data-stores :
    (s : Handler) (envelope : Envelope) (c : ℕ) (mid : Text)
    → s.lookup.table.auto_reload ≡ false
    → extract_message_id s.email envelope.content ≡ some (c ∷ mid)
    → (handle_data envelope s).0 ≡ ok accepted_text
    → All
        (IsStored c mid envelope
          (HasCopy c mid envelope s envelope.rcpt_tos)
          s
          (handle_data envelope s).1.queue.rows)
        envelope.rcpt_tos
unfolding handle_data
handle_data-stores s envelope c mid static found =
    subst
      (λ m.
        (answer (store_all m envelope envelope.rcpt_tos s)).0 ≡ ok accepted_text
        → All
            (IsStored c mid envelope (HasCopy c mid envelope s envelope.rcpt_tos) s
              (answer (store_all m envelope envelope.rcpt_tos s)).1.queue.rows)
            envelope.rcpt_tos)
      (sym found)
      (answered c mid envelope s envelope.rcpt_tos
        (store_all (some (c ∷ mid)) envelope envelope.rcpt_tos s)
        (store_all-IsStoring c mid envelope envelope.rcpt_tos s static))
