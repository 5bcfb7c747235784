-- ===== src/Api/Uri.antt =====
-- `encodeURIComponent`: a text as the bytes of UTF-8, of which only the unreserved ones stand for
-- themselves.
use Prim.Native.Char.{code}
use secure_vote.Base.{
  ℕ, ◌+◌, ◌/◌, ◌%◌, String, Bool, ◌||◌, ◌&&◌, ◌≡◌, refl, ltb, leb, ◌<>◌, digit, ◌==◌, if◌then◌else◌,
}

-- The codes of A-Z a-z 0-9 - _ . ! ~ * ' ( )
abbrev pub is_unreserved : ℕ → Bool
is_unreserved c =
    (leb 65 c && leb c 90)
    || (leb 97 c && leb c 122)
    || (leb 48 c && leb c 57)
    || (c == 45)
    || (c == 95)
    || (c == 46)
    || (c == 33)
    || (c == 126)
    || (c == 42)
    || (c == 39)
    || (c == 40)
    || (c == 41)

abbrev pub upper_hex : ℕ → String
upper_hex n =
    if ltb n 10
    then digit n
    else if n == 10
    then "A"
    else if n == 11
    then "B"
    else if n == 12
    then "C"
    else if n == 13
    then "D"
    else if n == 14
    then "E"
    else "F"

-- `%XY` for the byte `b`
abbrev pub percent : ℕ → String
percent b = "%" <> upper_hex (b / 16) <> upper_hex (b % 16)

abbrev pub encode_bytes : ℕ → String
encode_bytes c =
    if ltb c 128
    then percent c
    else if ltb c 2048
    then percent (192 + c / 64) <> percent (128 + c % 64)
    else if ltb c 65536
    then percent (224 + c / 4096) <> percent (128 + c / 64 % 64) <> percent (128 + c % 64)
    else percent (240 + c / 262144)
      <> percent (128 + c / 4096 % 64)
      <> percent (128 + c / 64 % 64)
      <> percent (128 + c % 64)

unfoldable pub encode_uri_component : String → String
encode_uri_component String.[] = ""
encode_uri_component (String.◌∷◌ c s) =
    let rest = encode_uri_component s in
    if is_unreserved (code c) then String.◌∷◌ c rest else encode_bytes (code c) <> rest

encode_tests : encode_uri_component "a/é" ≡ "a%2F%C3%A9"
unfolding encode_uri_component
encode_tests = refl
