-- ===== src/Api/FormatError.antt =====
-- dashboard/lib/format-error.ts: `formatApiError`, the text that a page shows for a thrown value.
use secure_vote.Base.{
  ◌===◌, String, Bool, true, false, Option, none, some, ◌&&◌, ◌||◌, if◌then◌else◌, ℕ,
}
use secure_vote.Api.Json.{
  Value, undefined, str, arr, obj, Items, nil, cons, Fields, truthy_value, or_value, get_field,
  has_field, property?, to_text, join_with,
}
use secure_vote.Api.Stringify.{stringify}

-- What `throw` may throw: an error of either class `ApiError`, another error, or any value.
pub data Thrown : Type 0 where
  api_error : (status : ℕ) (message : String) (content : Value) → Thrown
  error : (name message : String) → Thrown
  thrown : Value → Thrown

abbrev pub text_or_undefined : Option String → Value
text_or_undefined none = undefined
text_or_undefined (some s) = str s

-- The callback of `detail.map`.
abbrev object_item : Value → Value
object_item e =
    or_value (property? "msg" e)
      (or_value (property? "message" e) (text_or_undefined (stringify e)))

abbrev pub detail_item : Value → Value
detail_item (str s) = str s
detail_item (obj fs) = object_item (obj fs)
detail_item (arr xs) = object_item (arr xs)
detail_item v = str (to_text v)

unfoldable pub detail_items : Items → Items
detail_items nil = nil
detail_items (cons v vs) = cons (detail_item v) (detail_items vs)

abbrev pub is_text : Value → Bool
is_text (str s) = true
is_text _ = false

-- `detail` is an object that is no array.
abbrev pub object_detail : Fields → Value
object_detail fs =
    if is_text (get_field "msg" fs)
    then get_field "msg" fs
    else if is_text (get_field "message" fs)
    then get_field "message" fs
    else text_or_undefined (stringify (obj fs))

-- `detail` is a number or a Boolean.
abbrev plain_detail : Value → Value → Value
plain_detail detail message =
    if to_text detail === "[object Object]"
    then or_value message (str "An unexpected error occurred.")
    else str (to_text detail)

abbrev pub show_detail : Value → Value → Value
show_detail (str s) message = str s
show_detail (arr xs) message = str (join_with ". " (detail_items xs))
show_detail (obj fs) message = object_detail fs
show_detail detail message = plain_detail detail message

-- The first branch, for `apiErr.data` and `apiErr.message`.
unfoldable pub format_data : (content message : Value) → Value
unfolding to_text detail_items get_field stringify
format_data content message =
    if truthy_value (property? "detail" content)
    then show_detail (property? "detail" content) message
    else if truthy_value (property? "message" content) && is_text (property? "message" content)
    then property? "message" content
    else or_value message (str "An unexpected API error occurred.")

abbrev is_api_error : Fields → Bool
is_api_error fs = has_field "data" fs || to_text (get_field "name" fs) === "ApiError"

abbrev serialized : Value → Value
serialized v = elim (stringify v) [
  | none ↦ undefined
  | some s ↦ if s === "{}" then str "An unexpected error occurred." else str s
]

abbrev format_value : Value → Value
format_value (str s) = str s
format_value (arr xs) = serialized (arr xs)
format_value (obj fs) =
    if is_api_error fs
    then format_data (get_field "data" fs) (get_field "message" fs)
    else serialized (obj fs)
format_value _ = str "An unexpected error occurred. Please try again."

unfoldable pub format_api_error : Thrown → Value
unfolding format_data has_field
format_api_error (api_error status message content) = format_data content (str message)
format_api_error (error name message) =
    if name === "ApiError" then format_data undefined (str message) else str message
format_api_error (thrown v) = format_value v
