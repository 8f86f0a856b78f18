-- ===== src/Receiver/Session.antt =====
-- A whole transaction: RCPT for each address, then DATA.
use mail_router.Prelude.{
  ℕ, ◌≡◌, ◌≢◌, refl, ap, sym, subst, ◌∙◌, ◌⊎◌, inl, inr, Bool, true, false, Text, Option, none,
  some, List, [], ◌∷◌, ◌++◌, All, All-map, select, mem-select, map, String, Bool-cases,
}
use mathlib.Core.List.{Mem}
use mail_router.Prelude.Dict
use mail_router.Exec.{Exec, Result, ok, raise, pure, continue, ◌>>=◌}
use mail_router.Client.{DsConfig}
use mail_router.Lookup.{Lookup}
use mail_router.Address.{ParsedAddress, parse_recipient}
use mail_router.Queue.Schema.{Row}
use mail_router.Receiver.{
  Envelope, Handler, extract_message_id, accepted_text, unknown, on_lookup, handle_data,
}
use mail_router.Receiver.Offer.{offered, offered-Enlists, reply_as, served_as, reply_to, is_served}
use mail_router.Receiver.Accept.{
  malformed_ne, unknown_ne, HasCopy, CameFrom, key_of, IsStored, map-IsStored, handle_data-stores,
}

-- The replies to RCPT and the reply to DATA
unfoldable pub converse : List Text → Envelope → Exec Handler (List String × String)
unfolding offered
converse addresses envelope = do
  offer ← on_lookup (offered addresses envelope)
  last ← handle_data offer.1
  pure (offer.0, last)

not_served :
    (l : Lookup) (p : Option ParsedAddress) → served_as l p ≡ false → reply_as l p ≢ accepted_text
not_served l none h = malformed_ne
not_served l (some p) h = go (Dict.get (l.python.lower p.ds_id) l.table.data_sources) h
  where
    go :
        (o : Option DsConfig)
        → (elim o as (λ _. Bool) [ none ↦ false | some ds ↦ true ]) ≡ false
        → ◌≢◌ {A = String} (elim o [ none ↦ unknown | some ds ↦ accepted_text ]) accepted_text
    go none e = unknown_ne
    go (some ds) e = cc

module _ (c : ℕ) (mid : Text) (envelope : Envelope) (s : Handler) where
  -- The reply to RCPT is not "250 OK", or the recipient is one of the router's, and its key has the
  -- property.
  abbrev pub IsAnswered : (Text → Type 0) → Text → String → Type 0
  IsAnswered P address reply =
      (reply ≢ accepted_text)
      ⊎ (p : ParsedAddress) × (parse_recipient s.python address s.lookup.table.hosts ≡ some p)
        × P (key_of c mid envelope s address p)

  abbrev pub AreAnswered : (Text → Type 0) → List Text → List String → Type 0
  AreAnswered P [] [] = Unit
  AreAnswered P (address ∷ addresses) (reply ∷ replies) =
      IsAnswered P address reply × AreAnswered P addresses replies
  AreAnswered P _ _ = ⊥

  -- One property follows from another.
  pub AreAnswered-map :
      (P Q : Text → Type 0)
      → ((k : Text) → P k → Q k)
      → (addresses : List Text) (replies : List String) → AreAnswered P addresses replies
      → AreAnswered Q addresses replies
  AreAnswered-map P Q f [] [] h = tt
  AreAnswered-map P Q f [] (r ∷ rs) h = absurd h
  AreAnswered-map P Q f (a ∷ as') [] h = absurd h
  AreAnswered-map P Q f (a ∷ as') (r ∷ rs) (inl other, rest) =
      (inl other, AreAnswered-map P Q f as' rs rest)
  AreAnswered-map P Q f (a ∷ as') (r ∷ rs) (inr (p, e, h), rest) =
      (inr (p, e, f _ h), AreAnswered-map P Q f as' rs rest)

  served-IsAnswered :
      (P : Text → List Row → Type 0) (rows : List Row) (address : Text) (p : Option ParsedAddress)
      → parse_recipient s.python address s.lookup.table.hosts ≡ p
      → served_as s.lookup p ≡ true
      → IsStored c mid envelope P s rows address
      → (q : ParsedAddress) × (parse_recipient s.python address s.lookup.table.hosts ≡ some q)
        × P (key_of c mid envelope s address q) rows
  served-IsAnswered P rows address none e served stored = cc
  served-IsAnswered P rows address (some q) e served stored = (q, e, rw e at stored)

  all-AreAnswered :
      (P : Text → List Row → Type 0) (rows : List Row) (addresses : List Text)
      → s.lookup.python ≡ s.python
      → All (IsStored c mid envelope P s rows) (select (is_served s.lookup) addresses)
      → AreAnswered (λ k. P k rows) addresses (map (reply_to s.lookup) addresses)
  all-AreAnswered P rows [] same h = tt
  all-AreAnswered P rows (address ∷ addresses) same h =
      elim (Bool-cases (is_served s.lookup address)) [
        | inl e ↦
            let (stored, rest) : IsStored c mid envelope P s rows address
                × All (IsStored c mid envelope P s rows) (select (is_served s.lookup) addresses) =
              rw e at h in
            (
              inr (
                  served-IsAnswered P rows address
                    (parse_recipient s.python address s.lookup.table.hosts) refl
                    (subst
                      (λ py.
                        served_as s.lookup (parse_recipient py address s.lookup.table.hosts) ≡ true)
                      same e)
                    stored),
              all-AreAnswered P rows addresses same rest,
            )
        | inr e ↦ (
          inl (
              not_served s.lookup (parse_recipient s.lookup.python address s.lookup.table.hosts) e),
          all-AreAnswered P rows addresses same (rw e at h),
        )
      ]

-- The last reply of a transaction
last_of :
    {A : Type 0} (replies : A) (a : Result String × Handler) (replies' : A) (last : String)
    → (continue a.0 (λ (l : String). pure {A = A × String} (replies, l)) a.1).0
      ≡ ok (replies', last)
    → (replies ≡ replies') × (a.0 ≡ ok last)
last_of {A = A} replies (ok l, v) replies' last h =
    let both : ◌≡◌ {A = A × String} (replies, l) (replies', last) = cc in
    (ap (λ (x : A × String). x.0) both, ap ok (ap (λ (x : A × String). x.1) both))
last_of replies (raise e, v) replies' last h = cc

left_of :
    {A : Type 0} (replies : A) (a : Result String × Handler)
    → (continue a.0 (λ (l : String). pure {A = A × String} (replies, l)) a.1).1 ≡ a.1
left_of replies (ok l, v) = refl
left_of replies (raise e, v) = refl

-- A copy of the mail that the envelope has after RCPT
offered-HasCopy :
    (c : ℕ) (mid : Text) (envelope after : Envelope) (s : Handler) (addresses : List Text)
    → after.content ≡ envelope.content
    → after.mail_from ≡ envelope.mail_from
    → after.rcpt_tos ≡ select (is_served s.lookup) addresses
    → (k : Text) (rows : List Row) → HasCopy c mid after s after.rcpt_tos k rows
    → HasCopy c mid envelope s addresses k rows
offered-HasCopy c mid envelope after s addresses content sender rcpts k rows (r, found, from) =
    (r, found, go from)
  where
    go : CameFrom c mid after s after.rcpt_tos k r → CameFrom c mid envelope s addresses k r
    go (inl old) = inl old
    go (inr (x, m, (q, e, copy))) = inr (
      x,
      (mem-select (is_served s.lookup) addresses (subst (Mem x) rcpts m)).0,
      (
        q,
        e,
        record {
          content = copy.content ∙ content;
          sender = copy.sender ∙ sender;
          recipient = copy.recipient;
          data_source = copy.data_source;
          box = copy.box;
          key = copy.key;
        },
      ),
    )

-- If the reply to DATA is "250 OK", then each address whose RCPT was answered so has been taken apart
-- as one of the router's, and the queue has a row under its key; either that row was there before,
-- and is unchanged, or it holds the content and the sender of the mail, and the address, the data
-- source, the mailbox and the key of one of the addresses. The mail has a Message-ID, the envelope is
-- empty at first, the lookup file is not reloaded, and the table and the handler run on one
-- interpreter.
pub converse-AreAnswered :
    (addresses : List Text) (envelope : Envelope) (s : Handler) (c : ℕ) (mid : Text)
    (replies : List String)
    → s.lookup.table.auto_reload ≡ false
    → s.lookup.python ≡ s.python
    → extract_message_id s.email envelope.content ≡ some (c ∷ mid)
    → envelope.rcpt_tos ≡ []
    → (converse addresses envelope s).0 ≡ ok (replies, accepted_text)
    → AreAnswered c mid envelope s
        (λ k. HasCopy c mid envelope s addresses k (converse addresses envelope s).1.queue.rows)
        addresses
        replies
unfolding converse
converse-AreAnswered addresses envelope s c mid replies static same found empty answered =
    let offer = offered-Enlists addresses envelope s.lookup static in
    let (first, last) =
      last_of (map (reply_to s.lookup) addresses) (handle_data offer.after s) replies accepted_text
        (rw (offer.runs) at answered) in
    let rows = (handle_data offer.after s).1.queue.rows in
    let rcpts = offer.rcpts ∙ ap (λ l. l ++ select (is_served s.lookup) addresses) empty in
    let Copied = HasCopy c mid envelope s addresses in
    let stored =
      All-map offer.after.rcpt_tos
        (map-IsStored c mid envelope (HasCopy c mid offer.after s offer.after.rcpt_tos) Copied s
          rows rows
          (λ k.
            offered-HasCopy c mid envelope offer.after s addresses offer.content offer.sender rcpts
              k rows))
        (handle_data-stores s offer.after c mid static
          (ap (extract_message_id s.email) offer.content ∙ found) last) in
    rw (offer.runs) (
      subst
        (λ (v : Handler).
          AreAnswered c mid envelope s (λ k. Copied k v.queue.rows) addresses replies)
        (sym (left_of (map (reply_to s.lookup) addresses) (handle_data offer.after s)))
        (subst (AreAnswered c mid envelope s (λ k. Copied k rows) addresses) first (
          all-AreAnswered c mid envelope s Copied rows addresses same
            (subst (All (IsStored c mid envelope Copied s rows)) rcpts stored))))
