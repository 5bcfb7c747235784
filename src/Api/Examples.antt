-- ===== src/Api/Examples.antt =====
-- The theorems on the client at single responses.
use secure_vote.Base.{◌≡◌, refl, ◌↔◌, ◌≤◌, true, false, some, none, String, [], ◌∷◌, ◌<>◌}
use secure_vote.Api.Json.{
  str, obj, arr, null, nil, cons, field, end, join_with, join_rest, get_field,
}
use secure_vote.Api.FormatError.{api_error, format_api_error}
use secure_vote.Api.Client.{Response, returned, threw, receive}
use secure_vote.Api.Replies.{outcome, receive-returned_iff}
use secure_vote.Api.Errors.{
  ValidationItem, HasMessage, validation_items, text_items, objects_rest, receive-validation,
}

abbrev reply : Response
reply = record { status = 200; json = some null }

receive-returned_iff_example :
    outcome (receive true (some "T") reply) ≡ returned null
    ↔ (200 ≤ reply.status) × (reply.status ≤ 299) × reply.json ≡ some null
receive-returned_iff_example = receive-returned_iff true (some "T") reply null

-- What FastAPI says of a field of the body: its place, the message and the kind of the error.
abbrev item_of : String → String → ValidationItem
item_of name message = record {
  fields =
      field "loc" (arr (cons (str "body") (cons (str name) nil)))
        (field "msg" (str message) (field "type" (str "value_error") end));
  message = message;
}

abbrev of_dob : ValidationItem
of_dob = item_of "dob" "Date of birth required"

abbrev of_name : ValidationItem
of_name = item_of "name" "Name too short"

of_dob-HasMessage : HasMessage of_dob
unfolding get_field
of_dob-HasMessage = record { at_msg = refl; nonempty = refl }

of_name-HasMessage : HasMessage of_name
unfolding get_field
of_name-HasMessage = record { at_msg = refl; nonempty = refl }

receive-validation_example :
    let body = obj (field "detail" (arr (validation_items (of_dob ∷ of_name ∷ []))) end) in
    let e = api_error 422 ("[object Object]" <> objects_rest (of_name ∷ [])) body in
    (receive true none (record { status = 422; json = some body }) ≡ (false, threw e))
    × (format_api_error e ≡ str (join_with ". " (text_items (of_dob ∷ of_name ∷ []))))
receive-validation_example =
    receive-validation true none 422 of_dob (of_name ∷ []) refl refl
      (of_dob-HasMessage, (of_name-HasMessage, tt))

-- The message of the test of `formatApiError`.
shown_test :
    join_with ". " (text_items (of_dob ∷ of_name ∷ [])) ≡ "Date of birth required. Name too short"
unfolding join_with join_rest text_items
shown_test = refl
