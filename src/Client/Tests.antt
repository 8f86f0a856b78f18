-- ===== src/Client/Tests.antt =====
-- Answers of the HTTP API, interpreted.
use mail_router.Prelude.{◌≡◌, ◌↔◌, refl, true, false, none, some, [], codes, leb}
use mail_router.Result.{ok, raise, attribute_error}
use mail_router.Json.{null, bool, str, arr, obj, nil, cons, end, field}
use mail_router.Python.{Python}
use mail_router.Client.{Response, DeliveryResult, success, interpret}
use mail_router.Client.Interpret.{IsTaken, interpret-classifies, interpret-not_dict}

abbrev py : Python
py = record { lower = λ s. s; str_of = λ _. [] }

abbrev created : Response
created = record {
  status_code = 201;
  text = [];
  json = some (
      obj (
        field (codes "success") (bool true)
          (field (codes "data") (obj (field (codes "message_id") (str (codes "m1")) end)) end)));
}

abbrev created_result : DeliveryResult
created_result = record {
  status_code = 201;
  retry = false;
  message_id = str (codes "m1");
  error = none;
  idempotent_replay = false;
}

created_interpreted : interpret py created ≡ ok created_result
unfolding interpret
created_interpreted = refl

interpret-classifies_example :
    ((success created_result ≡ true) ↔ IsTaken created)
    × (created_result.retry ≡ leb 500 created.status_code)
interpret-classifies_example = interpret-classifies py created created_result created_interpreted

-- An answer whose body is a list.
abbrev listed : Response
listed = record { status_code = 502; text = []; json = some (arr (cons null nil)) }

interpret-not_dict_example : interpret py listed ≡ raise attribute_error
interpret-not_dict_example = interpret-not_dict py listed refl refl
