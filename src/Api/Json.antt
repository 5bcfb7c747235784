-- ===== src/Api/Json.antt =====
-- JavaScript values as the client sees them: trees of the kinds that JSON has, and `undefined`. Numbers
-- are natural. Without cycles and BigInt, `JSON.stringify` does not fail.
use secure_vote.Base.{
  ℕ, String, Bool, true, false, not, Option, none, some, ◌==◌, if◌then◌else◌, ◌<>◌, truthy, decimal,
  ◌===◌,
}

mutual
  pub data Fields : Type 0 where
    end : Fields
    field : String → Value → Fields → Fields

  pub data Value : Type 0 where
    undefined null : Value
    bool : Bool → Value
    num : ℕ → Value
    str : String → Value
    obj : Fields → Value
    arr : Items → Value

  pub data Items : Type 0 where
    nil : Items
    cons : Value → Items → Items

-- `!!v`
abbrev pub truthy_value : Value → Bool
truthy_value undefined = false
truthy_value null = false
truthy_value (bool b) = b
truthy_value (num n) = not (n == 0)
truthy_value (str s) = truthy s
truthy_value (arr xs) = true
truthy_value (obj fs) = true

-- `a || b`
abbrev pub or_value : Value → Value → Value
or_value a b = if truthy_value a then a else b

unfoldable pub get_field : String → Fields → Value
get_field k end = undefined
get_field k (field j v fs) = if j === k then v else get_field k fs

unfoldable pub has_field : String → Fields → Bool
has_field k end = false
has_field k (field j v fs) = if j === k then true else has_field k fs

-- `v.k`; `none` is the TypeError on null and undefined.
unfoldable pub property : String → Value → Option Value
unfolding get_field
property k undefined = none
property k null = none
property k (obj fs) = some (get_field k fs)
property k _ = some undefined

-- `v?.k`
unfoldable pub property? : String → Value → Value
unfolding get_field
property? k (obj fs) = get_field k fs
property? k _ = undefined

-- Null and undefined are empty between the commas.
abbrev item_text : Value → String → String
item_text undefined s = ""
item_text null s = ""
item_text v s = s

-- `String(v)`; an array is its items joined by commas.
unfoldable mutual
  pub to_text : Value → String
  to_text undefined = "undefined"
  to_text null = "null"
  to_text (bool true) = "true"
  to_text (bool false) = "false"
  to_text (num n) = decimal n
  to_text (str s) = s
  to_text (arr xs) = join_with "," xs
  to_text (obj fs) = "[object Object]"

  -- `xs.join(sep)`
  pub join_with : String → Items → String
  join_with sep nil = ""
  join_with sep (cons v vs) = item_text v (to_text v) <> join_rest sep vs

  pub join_rest : String → Items → String
  join_rest sep nil = ""
  join_rest sep (cons v vs) = sep <> item_text v (to_text v) <> join_rest sep vs
