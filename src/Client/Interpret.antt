-- ===== src/Client/Interpret.antt =====
-- What `ShpdClient.send` makes of the outcome of a POST.
use mail_router.Prelude.{
  ℕ, ◌≡◌, ◌≢◌, ◌↔◌, refl, Bool, true, false, Text, none, arith, inl, inr, Bool-cases, leb, ◌==◌,
  codes, if◌then◌else◌, ◌&&◌,
}
use mail_router.Result.{ok, raise, attribute_error, >>=-eq-ok}
use mail_router.Json.{
  Json, null, bool, num, arr, obj, str, is_true, is_dict, get, either, end, field, field_of,
  or_else,
}
use mail_router.Python.{Python}
use mail_router.Client.{
  DeliveryResult, Response, success, is_accepted, is_retried, accepted, refused, error_message,
  interpret, body_of,
}

is_retried_lem : (status : ℕ) → is_retried status ≡ leb 500 status
is_retried_lem status = ground arith

accepted-eq-ok :
    (body : Json) (d : DeliveryResult)
    → accepted body ≡ ok d
    → (d.status_code ≡ 201) × (d.retry ≡ false) × (d.error ≡ none)
accepted-eq-ok body d h =
    let (found, _, h') = >>=-eq-ok (get body (codes "data") null) _ h in
    let (mid, _, h'') = >>=-eq-ok (get (either found (obj end)) (codes "message_id") null) _ h' in
    let (replay, _, e) =
      >>=-eq-ok (get (either found (obj end)) (codes "idempotent_replay") null) _ h'' in
    ground arith

refused-eq-ok :
    (py : Python) (r : Response) (body : Json) (d : DeliveryResult)
    → refused py r body ≡ ok d
    → (d.status_code ≡ r.status_code) × (d.retry ≡ leb 500 r.status_code) × (d.error ≢ none)
refused-eq-ok py r body d h =
    let (message, _, e) = >>=-eq-ok (error_message py r body) _ h in
    ground (arith, is_retried_lem r.status_code)

-- The body says that the mail was taken.
pub record IsTaken (r : Response) : Type 0 where
  pub status : r.status_code ≡ 201
  pub flag : (v : Json) × (get (body_of r.json) (codes "success") null ≡ ok v) × (is_true v ≡ true)

is_accepted-eq-true :
    (status : ℕ) (body : Json)
    → is_accepted status body ≡ ok true
    → (status ≡ 201) × ((v : Json) × (get body (codes "success") null ≡ ok v) × (is_true v ≡ true))
is_accepted-eq-true status body h = elim (Bool-cases (status == 201 && is_true body)) [
  | inl e ↦
      let (v, found, e') =
        >>=-eq-ok (get body (codes "success") null) (λ x. ok (is_true x)) (rw e at h) in
      (ground arith, (v, found, ground arith))
  | inr e ↦ cc (rw e at h)
]

success-no_error : (d : DeliveryResult) → success d ≡ true → d.error ≡ none
success-no_error d h = ground arith

-- Only a dict that is not empty has a true value under a key.
true_of_get :
    (k : Text) (body v : Json) → get body k null ≡ ok v → is_true v ≡ true → is_true body ≡ true
true_of_get k (obj end) v h t = ground arith
true_of_get k (obj (field j w fs)) v h t = refl
true_of_get k null v h t = cc
true_of_get k (bool b) v h t = cc
true_of_get k (num n z) v h t = cc
true_of_get k (str s) v h t = cc
true_of_get k (arr xs) v h t = cc

is_accepted_of_taken :
    (r : Response) → IsTaken r → is_accepted r.status_code (body_of r.json) ≡ ok true
is_accepted_of_taken r t =
    let (v, found, e) = t.flag in
    rw (t.status, true_of_get (codes "success") (body_of r.json) v found e, found, e)

-- Where a response is understood, the delivery succeeds exactly if the status is 201 and the body a
-- dict whose "success" is true, and it is to be tried again exactly if the status is 500 or more.
pub interpret-classifies :
    (py : Python) (r : Response) (d : DeliveryResult)
    → interpret py r ≡ ok d
    → ((success d ≡ true) ↔ IsTaken r) × (d.retry ≡ leb 500 r.status_code)
unfolding interpret
interpret-classifies py r d h =
    let (b, e, h') =
      >>=-eq-ok (is_accepted r.status_code (body_of r.json))
        (λ b. if b then accepted (body_of r.json) else refused py r (body_of r.json)) h in
    go b e h'
  where
    go :
        (b : Bool)
        → is_accepted r.status_code (body_of r.json) ≡ ok b
        → (if b then accepted (body_of r.json) else refused py r (body_of r.json)) ≡ ok d
        → ((success d ≡ true) ↔ IsTaken r) × (d.retry ≡ leb 500 r.status_code)
    go true e h' =
        let (status, flag) = is_accepted-eq-true r.status_code (body_of r.json) e in
        let (code, retry, no_error) = accepted-eq-ok (body_of r.json) d h' in
        (((λ _. record { status = status; flag = flag }), (λ _. ground arith)), ground arith)
    go false e h' =
        let (code, retry, an_error) = refused-eq-ok py r (body_of r.json) d h' in
        (
          ((λ s. absurd (an_error (success-no_error d s))), (λ t. cc (is_accepted_of_taken r t))),
          retry,
        )

get_not_dict :
    (k : Text) (d body : Json) → is_dict body ≡ false → get body k d ≡ raise attribute_error
get_not_dict k d (obj fs) h = cc
get_not_dict k d null h = refl
get_not_dict k d (bool b) h = refl
get_not_dict k d (num n z) h = refl
get_not_dict k d (str s) h = refl
get_not_dict k d (arr xs) h = refl

-- A body that is true and no dict, such as a list that is not empty, makes `_interpret` raise
-- AttributeError, whatever the status.
pub interpret-not_dict :
    (py : Python) (r : Response)
    → is_true (body_of r.json) ≡ true
    → is_dict (body_of r.json) ≡ false
    → interpret py r ≡ raise attribute_error
unfolding interpret
interpret-not_dict py r t n = elim (Bool-cases (r.status_code == 201 && is_true (body_of r.json))) [
  | inl e ↦ rw (e, get_not_dict (codes "success") null (body_of r.json) n)
  | inr e ↦ rw (e, t, get_not_dict (codes "error") null (body_of r.json) n)
]

get_dict : (k : Text) (body : Json) → is_dict body ≡ true → (v : Json) × (get body k null ≡ ok v)
get_dict k (obj fs) h = (or_else (field_of k fs) null, refl)
get_dict k null h = cc
get_dict k (bool b) h = cc
get_dict k (num n z) h = cc
get_dict k (str s) h = cc
get_dict k (arr xs) h = cc
