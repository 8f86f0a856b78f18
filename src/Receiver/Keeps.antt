-- ===== src/Receiver/Keeps.antt =====
-- What the handling of a mail keeps in the queue.
use mail_router.Prelude.{Bool-cases, inl, inr, Text, Option, none, some, List, [], ◌∷◌}
use mail_router.Exec.{Exec, Result, ok, raise, continue, handle, ◌>>=◌}
use mail_router.Lookup.{allowed_domains}
use mail_router.Python.{has_text}
use mail_router.Address.{ParsedAddress, parse_recipient}
use mail_router.Queue.{Mail, enqueue}
use mail_router.Queue.Sqlite.{World}
use mail_router.Receiver.{
  on_queue, on_lookup, extract_message_id, accepted_text, try_again, Envelope, Handler, key_for,
  mail_for, store_parsed, store_for, store_all, handle_data,
}

-- Whatever holds of the connection and is kept by every `enqueue` is kept by a mail.
module _ (P : World → Type 0) (step : (m : Mail) (w : World) → P w → P (enqueue m w).1) where
  abbrev Kept : {A : Type 0} → Exec Handler A → Type 0
  Kept f = (s : Handler) → P s.queue → P (f s).1.queue

  bind-Kept :
      {A B : Type 0} (f : Exec Handler A) (g : A → Exec Handler B)
      → Kept f
      → ((a : A) → Kept (g a))
      → Kept (f >>= g)
  bind-Kept {A = A} f g hf hg s h = go (f s) (hf s h)
    where
      go : (a : Result A × Handler) → P a.1.queue → P (continue a.0 g a.1).1.queue
      go (ok a, v) k = hg a v k
      go (raise e, v) k = k

  key_for-Kept : (mid : Option Text) (rcpt : Text) (p : ParsedAddress) → Kept (key_for mid rcpt p)
  key_for-Kept mid rcpt p s h = elim (Bool-cases (has_text mid)) [ inl e ↦ rw e h | inr e ↦ rw e h ]

  store_parsed-Kept :
      (mid : Option Text) (envelope : Envelope) (rcpt : Text) (p : Option ParsedAddress)
      → Kept (store_parsed mid envelope rcpt p)
  store_parsed-Kept mid envelope rcpt none s h = h
  store_parsed-Kept mid envelope rcpt (some parsed) s h =
      bind-Kept (key_for mid rcpt parsed) _ (key_for-Kept mid rcpt parsed)
        (λ key.
          bind-Kept (on_queue (enqueue (mail_for envelope rcpt parsed key))) _
            (λ s. step (mail_for envelope rcpt parsed key) s.queue) (λ _ s h. h))
        s h

  store_all-Kept :
      (mid : Option Text) (envelope : Envelope) (rcpts : List Text)
      → Kept (store_all mid envelope rcpts)
  unfolding store_all
  store_all-Kept mid envelope [] s h = h
  store_all-Kept mid envelope (rcpt ∷ rcpts) s h =
      bind-Kept (store_for mid envelope rcpt) _
        (bind-Kept (on_lookup allowed_domains) _ (λ s h. h)
          (λ domains s.
            store_parsed-Kept mid envelope rcpt (parse_recipient s.python rcpt domains) s))
        (λ _. store_all-Kept mid envelope rcpts) s h

  pub handle_data-Kept : (envelope : Envelope) → Kept (handle_data envelope)
  unfolding handle_data
  handle_data-Kept envelope s h =
      go (store_all (extract_message_id s.email envelope.content) envelope envelope.rcpt_tos s) (
        store_all-Kept (extract_message_id s.email envelope.content) envelope envelope.rcpt_tos s h)
    where
      go :
          (a : Result Unit × Handler)
          → P a.1.queue
          → P
              (handle
                (continue a.0 (λ _ v. (ok accepted_text, v)) a.1).0
                (λ _ v. (ok try_again, v))
                (continue a.0 (λ _ v. (ok accepted_text, v)) a.1).1).1.queue
      go (ok u, v) k = k
      go (raise e, v) k = k
