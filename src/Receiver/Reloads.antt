-- ===== src/Receiver/Reloads.antt =====
-- What "250 OK" to a mail stands for when the lookup file changes while the mail is received.
use mathlib.Core.List.{Mem, mem-cons_self, mem-cons_of_mem}
use mail_router.Prelude.{
  ℕ, Bool, ◌≡◌, refl, ap, sym, subst, Text, Option, none, some, List, [], ◌∷◌, find_first, ◌⊎◌, inl,
  inr,
}
use mail_router.Exec.{Result, ok, raise, pure, continue}
use mail_router.Lookup.{Lookup, allowed_domains}
use mail_router.Address.{ParsedAddress, parse_recipient}
use mail_router.Queue.{Mail, enqueue}
use mail_router.Queue.Schema.{Row, has_key}
use mail_router.Queue.Sqlite.{World}
use mail_router.Queue.Durable.{mail_of}
use mail_router.Queue.Enqueue.{enqueue-IsEnqueued}
use mail_router.Receiver.{
  Envelope, Handler, extract_message_id, accepted_text, mail_for, store_parsed, store_all,
  handle_data,
}
use mail_router.Receiver.Accept.{
  HasKey, IsQueued, queued, key_of, IsCopy, IsStoredAs, answer, not_again,
}

module _ (c : ℕ) (mid : Text) (envelope : Envelope) (s : Handler) where
  -- The row is a copy for the recipient, taken apart with some hosts.
  abbrev pub IsFor : Row → Text → Type 0
  IsFor r rcpt =
      (hosts : List Text) × (parsed : ParsedAddress) × (parse_recipient s.python rcpt hosts
        ≡ some parsed)
      × IsCopy c mid envelope rcpt parsed (key_of c mid envelope s rcpt parsed) r

  -- The row had the key in the table, unchanged, or is a copy for one of the recipients.
  abbrev pub StoodOrNew : List Row → List Text → Text → Row → Type 0
  StoodOrNew before rcpts k r =
      (find_first (has_key k) before ≡ some r) ⊎ (rcpt : Text) × Mem rcpt rcpts × IsFor r rcpt

  abbrev pub HasRow : List Row → List Text → Text → List Row → Type 0
  HasRow before rcpts k rows =
      (r : Row) × (find_first (has_key k) rows ≡ some r) × StoodOrNew before rcpts k r

  -- One after the other, the recipients are taken apart with the hosts that `allowed_domains` returns
  -- when their turn comes; those that are not refused have a key with the property.
  abbrev pub AreServed : (Text → List Row → Type 0) → List Row → List Text → Lookup → Type 0
  AreServed P rows [] l = Unit
  AreServed P rows (rcpt ∷ rcpts) l =
      ((hosts : List Text) × ((allowed_domains l).0 ≡ ok hosts)
        × IsStoredAs c mid envelope P s rcpt (parse_recipient s.python rcpt hosts) rows)
      × AreServed P rows rcpts (allowed_domains l).1

  pub AreServed-map :
      (P Q : Text → List Row → Type 0) (rows : List Row)
      → ((k : Text) → P k rows → Q k rows)
      → (rcpts : List Text) (l : Lookup) → AreServed P rows rcpts l
      → AreServed Q rows rcpts l
  AreServed-map P Q rows f [] l h = tt
  AreServed-map P Q rows f (rcpt ∷ rcpts) l ((hosts, e, one), others) = (
    (hosts, e, go (parse_recipient s.python rcpt hosts) one),
    AreServed-map P Q rows f rcpts (allowed_domains l).1 others,
  )
    where
      go :
          (p : Option ParsedAddress)
          → IsStoredAs c mid envelope P s rcpt p rows
          → IsStoredAs c mid envelope Q s rcpt p rows
      go none h = tt
      go (some p) h = f _ h

  abbrev IsServing : Lookup → World → List Text → Result Unit × Handler → Type 0
  IsServing l w rcpts (ok _, s') =
      AreServed HasKey s'.queue.rows rcpts l
      × ((k : Text) → HasKey k w.rows → HasKey k s'.queue.rows)
      × ((k : Text) (r : Row)
          → find_first (has_key k) s'.queue.rows ≡ some r
          → StoodOrNew w.rows rcpts k r)
  IsServing l w rcpts (raise _, s') = Unit

  -- One recipient is done, and the others follow.
  add :
      (l : Lookup) (w v : World) (rcpt : Text) (rcpts : List Text) (hosts : List Text)
      (p : Option ParsedAddress)
      → (allowed_domains l).0 ≡ ok hosts
      → parse_recipient s.python rcpt hosts ≡ p
      → IsStoredAs c mid envelope HasKey s rcpt p v.rows
      → ((k : Text) → HasKey k w.rows → HasKey k v.rows)
      → ((k : Text) (r : Row)
          → find_first (has_key k) v.rows ≡ some r
          → (find_first (has_key k) w.rows ≡ some r) ⊎ IsFor r rcpt)
      → (a : Result Unit × Handler) → IsServing (allowed_domains l).1 v rcpts a
      → IsServing l w (rcpt ∷ rcpts) a
  add l w v rcpt rcpts hosts p given e one keep from (raise x, s') h = tt
  add l w v rcpt rcpts hosts p given e one keep from (ok u, s') (others, keep', from') = (
    (
      (
        hosts,
        given,
        subst (λ q. IsStoredAs c mid envelope HasKey s rcpt q s'.queue.rows) (sym e) (later p one),
      ),
      others,
    ),
    λ k h. keep' k (keep k h),
    λ k r held. earlier k r (from' k r held),
  )
    where
      earlier :
          (k : Text) (r : Row) → StoodOrNew v.rows rcpts k r → StoodOrNew w.rows (rcpt ∷ rcpts) k r
      earlier k r (inr (x, m, new)) = inr (x, mem-cons_of_mem rcpt m, new)
      earlier k r (inl old) = elim (from k r old) [
        | inl older ↦ inl older
        | inr new ↦ inr (rcpt, mem-cons_self, new)
      ]

      later :
          (q : Option ParsedAddress)
          → IsStoredAs c mid envelope HasKey s rcpt q v.rows
          → IsStoredAs c mid envelope HasKey s rcpt q s'.queue.rows
      later none h = tt
      later (some q) h = keep' _ h

  abbrev at : Lookup → World → Handler
  at l w = record s { lookup = l; queue = w }

  abbrev rest : List Text → Result Unit × Handler → Result Unit × Handler
  rest rcpts a = continue a.0 (λ _. store_all (some (c ∷ mid)) envelope rcpts) a.1

  serve_one :
      (l : Lookup) (w : World) (rcpt : Text) (rcpts : List Text) (hosts : List Text)
      → (allowed_domains l).0 ≡ ok hosts
      → ((v : World)
          → IsServing
              (allowed_domains l).1
              v
              rcpts
              (store_all (some (c ∷ mid)) envelope rcpts (at (allowed_domains l).1 v)))
      → (p : Option ParsedAddress) → parse_recipient s.python rcpt hosts ≡ p
      → IsServing l w
          (rcpt ∷ rcpts)
          (rest rcpts (store_parsed (some (c ∷ mid)) envelope rcpt p (at (allowed_domains l).1 w)))
  serve_one l w rcpt rcpts hosts given ih none e =
      add l w w rcpt rcpts hosts none given e tt (λ k h. h) (λ k r held. inl held)
        (store_all (some (c ∷ mid)) envelope rcpts (at (allowed_domains l).1 w)) (ih w)
  serve_one l w rcpt rcpts hosts given ih (some p) e =
      go (enqueue m w) (queued m w (enqueue m w) (enqueue-IsEnqueued m w))
    where
      m : Mail
      m = mail_for envelope rcpt p (key_of c mid envelope s rcpt p)

      new : {A : Type 0} (q : Row) → A ⊎ (mail_of q ≡ m) → A ⊎ IsFor q rcpt
      new q (inl old) = inl old
      new q (inr same) = inr (
        hosts,
        p,
        e,
        record {
          content = ap (λ (n : Mail). n.raw_eml) same;
          sender = ap (λ (n : Mail). n.sender_email) same;
          recipient = ap (λ (n : Mail). n.recipient_email) same;
          data_source = ap (λ (n : Mail). n.ds_id) same;
          box = ap (λ (n : Mail). n.mailbox) same;
          key = ap (λ (n : Mail). n.idempotency_key) same;
        },
      )

      go :
          (a : Result (ℕ × Bool) × World)
          → IsQueued m w a
          → IsServing l w
              (rcpt ∷ rcpts)
              (rest rcpts (continue a.0 (λ _. pure tt) (at (allowed_domains l).1 a.1)))
      go (raise x, v) h = tt
      go (ok r, v) (has, keep, grown) =
          add l w v rcpt rcpts hosts (some p) given e has keep (λ k q held. new q (grown k q held))
            (store_all (some (c ∷ mid)) envelope rcpts (at (allowed_domains l).1 v)) (ih v)

  store_all-IsServing :
      (rcpts : List Text) (l : Lookup) (w : World)
      → IsServing l w rcpts (store_all (some (c ∷ mid)) envelope rcpts (at l w))
  unfolding store_all
  store_all-IsServing [] l w = (tt, λ k h. h, λ k r held. inl held)
  store_all-IsServing (rcpt ∷ rcpts) l w =
      go (allowed_domains l).0 refl (λ v. store_all-IsServing rcpts (allowed_domains l).1 v)
    where
      go :
          (a : Result (List Text))
          → (allowed_domains l).0 ≡ a
          → ((v : World)
              → IsServing
                  (allowed_domains l).1
                  v
                  rcpts
                  (store_all (some (c ∷ mid)) envelope rcpts (at (allowed_domains l).1 v)))
          → IsServing l w (rcpt ∷ rcpts) (
              rest rcpts (
                continue a
                  (λ domains v.
                    store_parsed
                      (some (c ∷ mid))
                      envelope
                      rcpt
                      (parse_recipient v.python rcpt domains)
                      v)
                  (at (allowed_domains l).1 w)))
      go (raise x) given ih = tt
      go (ok hosts) given ih =
          serve_one l w rcpt rcpts hosts given ih (parse_recipient s.python rcpt hosts) refl

  answered :
      (a : Result Unit × Handler)
      → IsServing s.lookup s.queue envelope.rcpt_tos a
      → (answer a).0 ≡ ok accepted_text
      → AreServed
          (HasRow s.queue.rows envelope.rcpt_tos)
          (answer a).1.queue.rows
          envelope.rcpt_tos
          s.lookup
  answered (ok u, s') (served, _, from) e =
      AreServed-map HasKey (HasRow s.queue.rows envelope.rcpt_tos) s'.queue.rows
        (λ k (r, held). (r, held, from k r held)) envelope.rcpt_tos s.lookup served
  answered (raise x, s') h e = absurd (not_again (cc))

-- If a mail with a Message-ID is answered "250 OK", with the lookup file changing in any way and
-- reloaded or not, then for each recipient `allowed_domains` has returned hosts when its turn came;
-- and if the recipient is let through with these, the queue has a row under its key; either that row
-- was there before, and is unchanged, or it holds the content and the sender of the mail, and the
-- address, the data source, the mailbox and the key of one of the recipients.
pub handle_data-serves :
    (s : Handler) (envelope : Envelope) (c : ℕ) (mid : Text)
    → extract_message_id s.email envelope.content ≡ some (c ∷ mid)
    → (handle_data envelope s).0 ≡ ok accepted_text
    → AreServed c mid envelope s
        (HasRow c mid envelope s s.queue.rows envelope.rcpt_tos)
        (handle_data envelope s).1.queue.rows
        envelope.rcpt_tos
        s.lookup
unfolding handle_data
handle_data-serves s envelope c mid found =
    subst
      (λ m.
        (answer (store_all m envelope envelope.rcpt_tos s)).0 ≡ ok accepted_text
        → AreServed c mid envelope s (HasRow c mid envelope s s.queue.rows envelope.rcpt_tos)
            (answer (store_all m envelope envelope.rcpt_tos s)).1.queue.rows envelope.rcpt_tos
            s.lookup)
      (sym found)
      (answered c mid envelope s (store_all (some (c ∷ mid)) envelope envelope.rcpt_tos s)
        (store_all-IsServing c mid envelope s envelope.rcpt_tos s.lookup s.queue))
