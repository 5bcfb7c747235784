-- ===== src/Api/Stringify.antt =====
-- `JSON.stringify` on the client's values: what request bodies and error texts are made with.
use Prim.Native.Char.{code}
use secure_vote.Base.{
  ℕ, ◌/◌, ◌%◌, String, Bool, true, false, Option, none, some, ◌≡◌, refl, ltb, ◌==◌, if◌then◌else◌,
  ◌<>◌, decimal,
}
use secure_vote.Api.Json.{
  Value, undefined, null, bool, num, str, arr, obj, Items, nil, cons, Fields, end, field,
}

abbrev hex : ℕ → String
hex n =
    if ltb n 10
    then decimal n
    else if n == 10
    then "a"
    else if n == 11
    then "b"
    else if n == 12
    then "c"
    else if n == 13
    then "d"
    else if n == 14
    then "e"
    else "f"

abbrev escape : ℕ → String → String
escape c s =
    if c == 34
    then "\\\"" <> s
    else if c == 92
    then "\\\\" <> s
    else if c == 8
    then "\\b" <> s
    else if c == 9
    then "\\t" <> s
    else if c == 10
    then "\\n" <> s
    else if c == 12
    then "\\f" <> s
    else "\\r" <> s

abbrev is_escaped : ℕ → Bool
is_escaped c =
    if c == 34
    then true
    else if c == 92
    then true
    else if c == 8
    then true
    else if c == 9
    then true
    else if c == 10
    then true
    else if c == 12
    then true
    else c == 13

quote_from : String → String
quote_from String.[] = "\""
quote_from (String.◌∷◌ c s) =
    let rest = quote_from s in
    if is_escaped (code c)
    then escape (code c) rest
    else if ltb (code c) 32
    then "\\u00" <> hex (code c / 16) <> hex (code c % 16) <> rest
    else String.◌∷◌ c rest

quote : String → String
unfolding quote_from
quote s = "\"" <> quote_from s

abbrev comma : Bool → String
comma true = ""
comma false = ","

abbrev item_json : Option String → String
item_json none = "null"
item_json (some s) = s

abbrev add_field : Bool → String → Option String → String → String → String
add_field first key none skipped rest = skipped
add_field first key (some s) skipped rest = comma first <> key <> ":" <> s <> rest

-- `none` is `undefined`: the text of no value. Among the items of an array it is `null`, and a field
-- that has it is left out.
unfoldable mutual
  unfolding quote

  pub stringify : Value → Option String
  stringify undefined = none
  stringify null = some "null"
  stringify (bool true) = some "true"
  stringify (bool false) = some "false"
  stringify (num n) = some (decimal n)
  stringify (str s) = some (quote s)
  stringify (arr xs) = some ("[" <> stringify_items true xs)
  stringify (obj fs) = some ("{" <> stringify_fields true fs)

  pub stringify_items : Bool → Items → String
  stringify_items first nil = "]"
  stringify_items first (cons v vs) =
      comma first <> item_json (stringify v) <> stringify_items false vs

  pub stringify_fields : Bool → Fields → String
  stringify_fields first end = "}"
  stringify_fields first (field k v fs) =
      add_field first (quote k) (stringify v) (stringify_fields first fs)
        (stringify_fields false fs)

stringify_tests :
    stringify (
      obj (
        field "a"
          (arr (cons (num 12) (cons undefined nil)))
          (field "b" undefined (field "c" (str "x\"y") end))))
    ≡ some "{\"a\":[12,null],\"c\":\"x\\\"y\"}"
unfolding stringify decimal
stringify_tests = refl
