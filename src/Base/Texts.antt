-- ===== src/Base/Texts.antt =====
-- Texts: JavaScript's string methods that the program calls, over code points. `length` and
-- `substring` of JavaScript count UTF-16 units, which is the same for the hashes and identifiers
-- they are applied to; upper and lower case are taken for ASCII letters.
use Prim.Native.Nat.{ℕ, zero, suc, ◌+◌, ◌-◌, ◌/◌, ◌%◌}
use Prim.Native.Char.{code}
use Prim.Native.String.{String, count}
use Prim.Native.String
use mathlib.Core.Path.{◌≡◌, refl}
use mathlib.Core.Bool.{Bool, true, false, not, ◌&&◌, ◌||◌}
use mathlib.Core.Option.{Option, none, some}
use mathlib.Core.List.{List, [], ◌∷◌, map}
use text.Mathlib.Text.{find?}
use text.Mathlib.TextLemmas.{nil-append, cons-append}
use native.Mathlib.Omega.{arith}
use secure_vote.Base.Lists.{all}
use secure_vote.Base.Tests.{if◌then◌else◌, leb, ◌==◌}
pub use Prim.Native.String.{◌++◌ as ◌<>◌, count as text_length}
pub use text.Mathlib.Text.{◌==◌ as ◌===◌, starts_with}
pub use text.Mathlib.TextEquality.{eq_iff}
pub use text.Mathlib.TextPositions.{eq_refl}

-- `!!s` for a text: only the empty one is falsy.
abbrev pub truthy : String → Bool
truthy String.[] = false
truthy (String.◌∷◌ c s) = true

-- `!!s` for a text that may be missing or null.
abbrev pub truthy? : Option String → Bool
truthy? none = false
truthy? (some s) = truthy s

-- `s || d` for a text that may be missing or null.
abbrev pub or_text : Option String → String → String
or_text none d = d
or_text (some s) d = if truthy s then s else d

-- `s.includes(t)`
abbrev pub includes : String → String → Bool
includes s t = elim (find? s t) [ none ↦ false | some _ ↦ true ]

-- `s.substring(0, n)`, and `s.slice(0, n)`
unfoldable pub take_text : ℕ → String → String
take_text zero s = ""
take_text (suc n) String.[] = ""
take_text (suc n) (String.◌∷◌ c s) = String.◌∷◌ c (take_text n s)

-- `s.slice(n)`
unfoldable pub drop_text : ℕ → String → String
drop_text zero s = s
drop_text (suc n) String.[] = ""
drop_text (suc n) (String.◌∷◌ c s) = drop_text n s

abbrev pub codes : String → List ℕ
codes String.[] = []
codes (String.◌∷◌ c s) = code c ∷ codes s

abbrev upper : ℕ → ℕ
upper c = if leb b'a' c && leb c b'z' then c - 32 else c

begins_with : List ℕ → List ℕ → Bool
begins_with s [] = true
begins_with [] (d ∷ t) = false
begins_with (c ∷ s) (d ∷ t) = c == d && begins_with s t

contains : List ℕ → List ℕ → Bool
unfolding begins_with
contains [] t = begins_with [] t
contains (c ∷ s) t = begins_with (c ∷ s) t || contains s t

-- `s.toUpperCase().includes(t)`
unfoldable pub upper_includes : String → String → Bool
unfolding contains
upper_includes s t = contains (map upper (codes s)) (codes t)

-- `s.toUpperCase() === t`
unfoldable pub upper_is : String → String → Bool
unfolding begins_with
upper_is s t = begins_with (map upper (codes s)) (codes t) && count s == count t

abbrev lower : ℕ → ℕ
lower c = if leb b'A' c && leb c b'Z' then c + 32 else c

-- `s.toLowerCase().includes(t.toLowerCase())`
unfoldable pub lower_includes : String → String → Bool
unfolding contains
lower_includes s t = contains (map lower (codes s)) (map lower (codes t))

-- Blanks, of ASCII.
abbrev is_blank : ℕ → Bool
is_blank c = c == 32 || leb 9 c && leb c 13

trim_start : String → String
trim_start String.[] = ""
trim_start (String.◌∷◌ c s) =
    let rest = trim_start s in if is_blank (code c) then rest else String.◌∷◌ c s

trim_end : String → String
trim_end String.[] = ""
trim_end (String.◌∷◌ c s) =
    let rest = trim_end s in
    if is_blank (code c) && not (truthy rest) then "" else String.◌∷◌ c rest

-- `s.trim()`
unfoldable pub trim : String → String
unfolding trim_start trim_end
trim s = trim_end (trim_start s)

trim_tests : (trim " VTR 1 \t" ≡ "VTR 1") × (trim "   " ≡ "")
unfolding trim
trim_tests = (refl, refl)

abbrev pub digit : ℕ → String
digit n =
    if n == 0
    then "0"
    else if n == 1
    then "1"
    else if n == 2
    then "2"
    else if n == 3
    then "3"
    else if n == 4
    then "4"
    else if n == 5
    then "5"
    else if n == 6
    then "6"
    else if n == 7
    then "7"
    else if n == 8
    then "8"
    else "9"

-- The digits of `n` before those of `rest`; `n + 1` rounds are enough.
decimal_from : ℕ → ℕ → String → String
decimal_from zero n rest = rest
decimal_from (suc fuel) n rest =
    let more = decimal_from fuel (n / 10) (String.◌++◌ (digit (n % 10)) rest) in
    if leb 10 n then more else String.◌++◌ (digit n) rest

-- `String(n)`
unfoldable pub decimal : ℕ → String
unfolding decimal_from
decimal n = decimal_from (suc n) n ""

pub all-codes-append :
    (p : ℕ → Bool) (s t : String)
    → all p (codes s) ≡ true
    → all p (codes t) ≡ true
    → all p (codes (s <> t)) ≡ true
all-codes-append p String.[] t h k = rw (nil-append t) k
all-codes-append p (String.◌∷◌ c s) t h k =
    let later = all-codes-append p s t (ground (arith, h)) k in
    rw (cons-append c s t) (ground (arith, h, later))

all-codes-if :
    (p : ℕ → Bool) (b : Bool) (s t : String)
    → all p (codes s) ≡ true
    → all p (codes t) ≡ true
    → all p (codes (if b then s else t)) ≡ true
all-codes-if p true s t h k = h
all-codes-if p false s t h k = k

-- What holds of all ten holds of each.
pub digit-all :
    (p : ℕ → Bool) (n : ℕ) → all p (codes "0123456789") ≡ true → all p (codes (digit n)) ≡ true
digit-all p n h = all-codes-if p (n == 0) "0" _ (ground (arith, h)) (
    all-codes-if p (n == 1) "1" _ (ground (arith, h)) (
      all-codes-if p (n == 2) "2" _ (ground (arith, h)) (
        all-codes-if p (n == 3) "3" _ (ground (arith, h)) (
          all-codes-if p (n == 4) "4" _ (ground (arith, h)) (
            all-codes-if p (n == 5) "5" _ (ground (arith, h)) (
              all-codes-if p (n == 6) "6" _ (ground (arith, h)) (
                all-codes-if p (n == 7) "7" _ (ground (arith, h))
                  (all-codes-if p (n == 8) "8" _ (ground (arith, h)) (ground (arith, h))))))))))

decimal_from-all :
    (p : ℕ → Bool) (fuel n : ℕ) (rest : String)
    → all p (codes "0123456789") ≡ true
    → all p (codes rest) ≡ true
    → all p (codes (decimal_from fuel n rest)) ≡ true
unfolding decimal_from
decimal_from-all p zero n rest h k = k
decimal_from-all p (suc fuel) n rest h k =
    let more =
      decimal_from-all p fuel (n / 10) (digit (n % 10) <> rest) h
        (all-codes-append p (digit (n % 10)) rest (digit-all p (n % 10) h) k) in
    let here = all-codes-append p (digit n) rest (digit-all p n h) k in ground (arith, more, here)

-- What holds of all digits holds of the characters of a number.
pub decimal-all :
    (p : ℕ → Bool) (n : ℕ) → all p (codes "0123456789") ≡ true → all p (codes (decimal n)) ≡ true
unfolding decimal
decimal-all p n h = decimal_from-all p (suc n) n "" h refl

decimal_tests : (decimal 0 ≡ "0") × (decimal 401 ≡ "401") × (decimal 90210 ≡ "90210")
unfolding decimal
decimal_tests = (refl, refl, refl)

upper_includes_tests :
    (upper_includes "none of the above (nota)" "NOTA" ≡ true)
    × (upper_includes "NOT A" "NOTA" ≡ false)
unfolding upper_includes
upper_includes_tests = (refl, refl)

lower_includes_tests :
    (lower_includes "VOTE_CAST" "Cast" ≡ true) × (lower_includes "VOTE" "cast" ≡ false)
unfolding lower_includes
lower_includes_tests = (refl, refl)
