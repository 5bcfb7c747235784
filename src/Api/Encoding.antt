-- ===== src/Api/Encoding.antt =====
-- `encodeURIComponent`, as the client uses it for identifiers in paths and queries.
use Prim.Native.Char.{code}
use secure_vote.Base.{
  ℕ, ◌/◌, ◌%◌, ◌+◌, ◌≡◌, refl, String, Bool, true, false, ◌||◌, ◌==◌, codes, all, ◌<>◌, arith,
  Bool-cases, inl, inr, ltb, if◌then◌else◌, digit, digit-all, all-codes-append,
}
use secure_vote.Api.Uri.{is_unreserved, upper_hex, percent, encode_bytes, encode_uri_component}

-- An unreserved character, or the percent sign.
abbrev pub is_plain : ℕ → Bool
is_plain c = is_unreserved c || c == 37

-- A text of such characters.
pub record IsPlain (s : String) : Type 0 where
  pub plain : all is_plain (codes s) ≡ true

IsPlain-append : (s t : String) → IsPlain s → IsPlain t → IsPlain (s <> t)
IsPlain-append s t p q = record { plain = all-codes-append is_plain s t p.plain q.plain }

IsPlain-if : (b : Bool) (s t : String) → IsPlain s → IsPlain t → IsPlain (if b then s else t)
IsPlain-if true s t p q = p
IsPlain-if false s t p q = q

-- The texts of single characters are tested as they stand.
either :
    (b : Bool) (s t : String)
    → all is_plain (codes s) ≡ true
    → IsPlain t
    → IsPlain (if b then s else t)
either b s t p q = IsPlain-if b s t (record { plain = p }) q

digit-IsPlain : (n : ℕ) → IsPlain (digit n)
digit-IsPlain n = record { plain = digit-all is_plain n refl }

upper_hex-IsPlain : (n : ℕ) → IsPlain (upper_hex n)
upper_hex-IsPlain n =
    let last : IsPlain "F" = record { plain = refl } in
    IsPlain-if (ltb n 10) (digit n) _ (digit-IsPlain n) (
      either (n == 10) "A" _ refl (
        either (n == 11) "B" _ refl (
          either (n == 12) "C" _ refl
            (either (n == 13) "D" _ refl (either (n == 14) "E" _ refl last)))))

percent-IsPlain : (b : ℕ) → IsPlain (percent b)
percent-IsPlain b =
    let sign : IsPlain "%" = record { plain = refl } in
    let high = upper_hex-IsPlain (b / 16) in
    let low = upper_hex-IsPlain (b % 16) in
    IsPlain-append "%" _ sign (IsPlain-append (upper_hex (b / 16)) (upper_hex (b % 16)) high low)

-- A byte before a plain text.
percents-IsPlain : (a : ℕ) (s : String) → IsPlain s → IsPlain (percent a <> s)
percents-IsPlain a s p = IsPlain-append (percent a) s (percent-IsPlain a) p

encode_bytes-IsPlain : (c : ℕ) → IsPlain (encode_bytes c)
encode_bytes-IsPlain c =
    let last = percent-IsPlain (128 + c % 64) in
    let two = percents-IsPlain (192 + c / 64) (percent (128 + c % 64)) last in
    let tail = percents-IsPlain (128 + c / 64 % 64) (percent (128 + c % 64)) last in
    let three = percents-IsPlain (224 + c / 4096) _ tail in
    let four =
      percents-IsPlain (240 + c / 262144) _ (percents-IsPlain (128 + c / 4096 % 64) _ tail) in
    IsPlain-if (ltb c 128) (percent c) _ (percent-IsPlain c) (
      IsPlain-if (ltb c 2048) (percent (192 + c / 64) <> percent (128 + c % 64)) _ two (
        IsPlain-if (ltb c 65536)
          (percent (224 + c / 4096) <> percent (128 + c / 64 % 64) <> percent (128 + c % 64)) _
          three four))

-- For every text: its encoding has unreserved characters and percent signs only, so none that ends a
-- path's segment or a query's value.
encode_uri_component-IsPlain : (s : String) → IsPlain (encode_uri_component s)
unfolding encode_uri_component
encode_uri_component-IsPlain String.[] = record { plain = refl }
encode_uri_component-IsPlain (String.◌∷◌ c s) =
    let rest = encode_uri_component-IsPlain s in
    elim (Bool-cases (is_unreserved (code c))) [
      | inl p ↦ rw p (record { plain = ground (arith, p, rest.plain) })
      | inr q ↦ rw q (IsPlain-append _ _ (encode_bytes-IsPlain (code c)) rest)
    ]
