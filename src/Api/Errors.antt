-- ===== src/Api/Errors.antt =====
-- What a page shows of a failed request: `formatApiError` on the errors that the client throws.
use secure_vote.Base.{
  ◌≡◌, refl, Bool, true, false, Option, some, String, truthy, ◌<>◌, if◌then◌else◌, ℕ, not, ◌==◌,
  ◌&&◌, List, [], ◌∷◌, All, ap,
}
use secure_vote.Api.Json.{
  Value, undefined, null, bool, num, str, arr, obj, Items, nil, cons, Fields, end, field, to_text,
  join_with, join_rest, get_field, truthy_value, property?, property, or_value,
}
use secure_vote.Api.Stringify.{stringify}
use secure_vote.Api.FormatError.{
  api_error, error, format_api_error, format_data, show_detail, detail_items, is_text,
  object_detail,
}
use secure_vote.Api.Client.{threw, is_ok, receive}

-- The value is a text.
abbrev pub IsText : Value → Type 0
IsText v = (s : String) × (v ≡ str s)

if-IsText : (b : Bool) (v w : Value) → IsText v → IsText w → IsText (if b then v else w)
if-IsText true v w p q = p
if-IsText false v w p q = q

is_text_lem : (v w : Value) → IsText w → IsText (if is_text v then v else w)
is_text_lem (str s) w p = (s, refl)
is_text_lem undefined w p = p
is_text_lem null w p = p
is_text_lem (bool b) w p = p
is_text_lem (num n) w p = p
is_text_lem (arr xs) w p = p
is_text_lem (obj fs) w p = p

or_value-IsText : (a b : Value) → IsText a → IsText b → IsText (or_value a b)
or_value-IsText a b p q = if-IsText (truthy_value a) a b p q

object_detail-IsText : (fs : Fields) → IsText (object_detail fs)
unfolding stringify
object_detail-IsText fs =
    is_text_lem (get_field "msg" fs) _ (is_text_lem (get_field "message" fs) (str _) (_, refl))

show_detail-IsText : (v : Value) (m : String) → IsText (show_detail v (str m))
show_detail-IsText (str s) m = (s, refl)
show_detail-IsText (arr xs) m = (_, refl)
show_detail-IsText (obj fs) m = object_detail-IsText fs
show_detail-IsText undefined m =
    if-IsText _ _ _ (or_value-IsText (str m) _ (m, refl) (_, refl)) (_, refl)
show_detail-IsText null m =
    if-IsText _ _ _ (or_value-IsText (str m) _ (m, refl) (_, refl)) (_, refl)
show_detail-IsText (bool b) m =
    if-IsText _ _ _ (or_value-IsText (str m) _ (m, refl) (_, refl)) (_, refl)
show_detail-IsText (num n) m =
    if-IsText _ _ _ (or_value-IsText (str m) _ (m, refl) (_, refl)) (_, refl)

never-IsText : (b : Bool) (v w : Value) → IsText w → IsText (if b && false then v else w)
never-IsText true v w p = p
never-IsText false v w p = p

format_data-IsText : (v : Value) (m : String) → IsText (format_data v (str m))
unfolding format_data
format_data-IsText v m =
    if-IsText _ _ _ (show_detail-IsText (property? "detail" v) m) (go (property? "message" v))
  where
    go :
        (w : Value)
        → IsText (
            if truthy_value w && is_text w
            then w
            else or_value (str m) (str "An unexpected API error occurred."))
    go (str s) = if-IsText _ _ _ (s, refl) (or_value-IsText _ _ (_, refl) (_, refl))
    go undefined = or_value-IsText _ _ (_, refl) (_, refl)
    go null = or_value-IsText _ _ (_, refl) (_, refl)
    go (bool b) = never-IsText b _ _ (or_value-IsText _ _ (_, refl) (_, refl))
    go (num n) = never-IsText (not (n == 0)) _ _ (or_value-IsText _ _ (_, refl) (_, refl))
    go (arr xs) = or_value-IsText _ _ (_, refl) (_, refl)
    go (obj fs) = or_value-IsText _ _ (_, refl) (_, refl)

-- For every error of class ApiError, and for every other Error: `formatApiError` returns a text.
format_api_error-IsText :
    (status : ℕ) (name message : String) (content : Value)
    → IsText (format_api_error (api_error status message content))
      × IsText (format_api_error (error name message))
unfolding format_api_error
format_api_error-IsText status name message content = (
  format_data-IsText content message,
  if-IsText _ _ _ (format_data-IsText undefined message) (message, refl),
)

-- A response that is neither 401 nor 200 to 299, and whose JSON body is an object with a text that is
-- not empty as its detail, is thrown as an ApiError with that text as its message, the callback for
-- lost sessions is not called, and `formatApiError` shows that text.
receive-detail :
    (callback : Bool) (token : Option String) (status : ℕ) (fs : Fields) (s : String)
    → (status == 401) ≡ false
    → is_ok status ≡ false
    → get_field "detail" fs ≡ str s
    → truthy s ≡ true
    → (receive callback token (record { status = status; json = some (obj fs) })
        ≡ (false, threw (api_error status s (obj fs))))
      × (format_api_error (api_error status s (obj fs)) ≡ str s)
unfolding receive format_api_error property property? to_text
receive-detail callback token status fs s other bad at_detail nonempty =
    (rw (other, bad, at_detail, nonempty), rw (at_detail, nonempty))

-- An item of a validation error: the fields of its object, in their order, and the text of its message.
pub record ValidationItem : Type 0 where
  pub fields : Fields
  pub message : String

-- The object has the message, which is not empty, as its field `msg`, whatever else it has.
pub record HasMessage (v : ValidationItem) : Type 0 where
  pub at_msg : get_field "msg" v.fields ≡ str v.message
  pub nonempty : truthy v.message ≡ true

-- The detail of a validation error: the list of its items.
unfoldable pub validation_items : List ValidationItem → Items
validation_items [] = nil
validation_items (v ∷ vs) = cons (obj v.fields) (validation_items vs)

unfoldable pub text_items : List ValidationItem → Items
text_items [] = nil
text_items (v ∷ vs) = cons (str v.message) (text_items vs)

detail_items-validation :
    (vs : List ValidationItem)
    → All HasMessage vs
    → detail_items (validation_items vs) ≡ text_items vs
unfolding detail_items validation_items text_items property?
detail_items-validation [] hs = refl
detail_items-validation (v ∷ vs) (h, hs) = rw (h.at_msg, h.nonempty, detail_items-validation vs hs)

-- "[object Object]" for every item.
unfoldable pub objects_rest : List ValidationItem → String
objects_rest [] = ""
objects_rest (v ∷ vs) = "," <> "[object Object]" <> objects_rest vs

join_rest-objects :
    (vs : List ValidationItem) → join_rest "," (validation_items vs) ≡ objects_rest vs
unfolding to_text validation_items objects_rest
join_rest-objects [] = refl
join_rest-objects (v ∷ vs) = ap (λ t. "," <> "[object Object]" <> t) (join_rest-objects vs)

-- A response with the body of a validation error, a list of objects each of which has a text that is not
-- empty as its `msg`, whatever other fields it has and in whatever order: `formatApiError` shows the
-- messages, joined by a full stop, where there is one; the message of the error itself is
-- "[object Object]" for each of the items, joined by commas.
pub receive-validation :
    (callback : Bool) (token : Option String) (status : ℕ) (v : ValidationItem)
    (vs : List ValidationItem)
    → (status == 401) ≡ false
    → is_ok status ≡ false
    → All HasMessage (v ∷ vs)
    → let body = obj (field "detail" (arr (validation_items (v ∷ vs))) end) in
      let e = api_error status ("[object Object]" <> objects_rest vs) body in
      (receive callback token (record { status = status; json = some body }) ≡ (false, threw e))
      × (format_api_error e ≡ str (join_with ". " (text_items (v ∷ vs))))
unfolding receive format_api_error property property? to_text validation_items
receive-validation callback token status v vs other bad messages = (
  rw (other, bad, join_rest-objects vs),
  ap (λ xs. str (join_with ". " xs)) (detail_items-validation (v ∷ vs) messages),
)
