-- ===== src/Counting/Csv.antt =====
-- What a reader of comma-separated values makes of the exported result sheet.
use Prim.Native.Char.{Char, code}
use text.Mathlib.TextLemmas.{nil-append, cons-append, append_assoc, append-nil}
use secure_vote.Base.{
  ℕ, ◌≡◌, ◌≢◌, refl, ◌∙◌, ap, sym, ◌⊎◌, inl, inr, String, true, not, ◌||◌, List, [], ◌∷◌, codes,
  all, ◌<>◌, ◌==◌, if◌then◌else◌, arith,
}
use secure_vote.Counting.Form20.{quoted}

-- The reader of RFC 4180, one character after the other: at the start of a field, in a bare field, in
-- a quoted field, or behind a quotation mark in a quoted field.
pub data Mode : Type 0 where
  start bare inside closing : Mode

pub data Kind : Type 0 where
  quote comma newline other : Kind

kind_of : ℕ → Kind
kind_of c = if c == 34 then quote else if c == 44 then comma else if c == 10 then newline else other

next_mode : Mode → Kind → Mode
next_mode start quote = inside
next_mode start other = bare
next_mode start _ = start
next_mode bare quote = bare
next_mode bare other = bare
next_mode bare _ = start
next_mode inside quote = closing
next_mode inside _ = inside
next_mode closing quote = inside
next_mode closing other = bare
next_mode closing _ = start

-- One more character of the first field.
grow : Char → List (List String) → List (List String)
grow c ((f ∷ fs) ∷ rows) = ((String.◌∷◌ c f) ∷ fs) ∷ rows
grow c _ = []

-- A field before those of the first row.
abbrev pub push : String → List (List String) → List (List String)
push f (row ∷ rows) = (f ∷ row) ∷ rows
push f [] = []

put : Mode → Kind → Char → List (List String) → List (List String)
unfolding grow
put inside quote c rest = rest
put inside _ c rest = grow c rest
put start quote c rest = rest
put _ comma c rest = push "" rest
put _ newline c rest = ("" ∷ []) ∷ rest
put _ _ c rest = grow c rest

pub read : Mode → String → List (List String)
unfolding kind_of next_mode put
read m String.[] = ("" ∷ []) ∷ []
read m (String.◌∷◌ c s) =
    let k = kind_of (code c) in let rest = read (next_mode m k) s in put m k c rest

unfoldable pub read_csv : String → List (List String)
unfolding read
read_csv s = read start s

read_csv_tests :
    (read_csv "a,\"b,\"\"c\"\n1," ≡ ("a" ∷ "b,\"c" ∷ []) ∷ ("1" ∷ "" ∷ []) ∷ [])
    × (read_csv "x" ≡ ("x" ∷ []) ∷ [])
unfolding read_csv
read_csv_tests = (refl, refl)

prepend : String → List (List String) → List (List String)
prepend String.[] rows = rows
prepend (String.◌∷◌ c f) rows = grow c (prepend f rows)

-- No quotation mark.
pub record IsQuoteless (s : String) : Type 0 where
  pub quoteless : all (λ c. not (c == 34)) (codes s) ≡ true

-- No quotation mark, comma or line break.
pub record IsBare (s : String) : Type 0 where
  pub plain : all (λ c. not (c == 34 || c == 44 || c == 10)) (codes s) ≡ true

prepend-cons :
    (f g : String) (row : List String) (rows : List (List String))
    → prepend f ((g ∷ row) ∷ rows) ≡ ((f <> g) ∷ row) ∷ rows
unfolding prepend grow
prepend-cons String.[] g row rows = rw (nil-append g) refl
prepend-cons (String.◌∷◌ c f) g row rows = rw (prepend-cons f g row rows, cons-append c f g) refl

prepend-nil : (f : String) → prepend f [] ≡ []
unfolding prepend grow
prepend-nil String.[] = refl
prepend-nil (String.◌∷◌ c f) = rw (prepend-nil f) refl

prepend-push : (f : String) (rows : List (List String)) → prepend f (push "" rows) ≡ push f rows
prepend-push f [] = prepend-nil f
prepend-push f (row ∷ rows) = rw (prepend-cons f "" row rows, append-nil f) refl

one-append : (c : Char) (t : String) → (String.◌∷◌ c "") <> t ≡ String.◌∷◌ c t
one-append c t = cons-append c "" t ∙ rw (nil-append t) refl

-- How one character is read.
read-step :
    (m : Mode) (k : Kind) (c : Char) (s : String)
    → kind_of (code c) ≡ k
    → read m (String.◌∷◌ c s) ≡ put m k c (read (next_mode m k) s)
unfolding read
read-step m k c s h = rw h refl

put_inside :
    (k : Kind) (c : Char) (s : String)
    → k ≢ quote
    → put inside k c (read (next_mode inside k) s) ≡ grow c (read inside s)
unfolding put next_mode
put_inside quote c s h = absurd (h refl)
put_inside comma c s h = refl
put_inside newline c s h = refl
put_inside other c s h = refl

kind_of-quoteless : (c : ℕ) → not (c == 34) ≡ true → kind_of c ≢ quote
unfolding kind_of
kind_of-quoteless c h = ground arith

kind_of-bare : (c : ℕ) → not (c == 34 || c == 44 || c == 10) ≡ true → kind_of c ≡ other
unfolding kind_of
kind_of-bare c h = ground arith

read-mark : (t : String) → read inside (String.◌∷◌ "\"" t) ≡ read closing t
unfolding kind_of next_mode put
read-mark t = read-step inside quote "\"" t refl

read_inside-append :
    (f t : String) → IsQuoteless f → read inside (f <> ("\"" <> t)) ≡ prepend f (read closing t)
unfolding prepend
read_inside-append String.[] t h = rw (nil-append ("\"" <> t), one-append "\"" t) (read-mark t)
read_inside-append (String.◌∷◌ c f) t h =
    let k = kind_of-quoteless (code c) (ground (arith, h.quoteless)) in
    let later : IsQuoteless f = record { quoteless = ground (arith, h.quoteless) } in
    rw (cons-append c f ("\"" <> t), read-step inside _ c (f <> ("\"" <> t)) refl)
      (put_inside _ c _ k ∙ ap (grow c) (read_inside-append f t later))

-- Where a bare field goes on.
read_bare-cons :
    (m : Mode) (c : Char) (s : String)
    → (m ≡ start) ⊎ (m ≡ bare)
    → not (code c == 34 || code c == 44 || code c == 10) ≡ true
    → read m (String.◌∷◌ c s) ≡ grow c (read bare s)
unfolding next_mode put
read_bare-cons m c s (inl e) h = rw e (read-step start other c s (kind_of-bare (code c) h))
read_bare-cons m c s (inr e) h = rw e (read-step bare other c s (kind_of-bare (code c) h))

-- A bare field is read up to what follows it, if that is read alike at the start and in the middle of
-- a field.
read_bare-append :
    (m : Mode) (f t : String)
    → (m ≡ start) ⊎ (m ≡ bare)
    → IsBare f
    → read start t ≡ read bare t
    → read m (f <> t) ≡ prepend f (read bare t)
unfolding prepend
read_bare-append m String.[] t (inl e) h same = rw (nil-append t, e) same
read_bare-append m String.[] t (inr e) h same = rw (nil-append t, e) refl
read_bare-append m (String.◌∷◌ c f) t e h same =
    let head = read_bare-cons m c (f <> t) e (ground (arith, h.plain)) in
    let later : IsBare f = record { plain = ground (arith, h.plain) } in
    rw (cons-append c f t) (head ∙ ap (grow c) (read_bare-append bare f t (inr refl) later same))

-- The marks between fields and rows.
read-comma : (m : Mode) (t : String) → m ≢ inside → read m ("," <> t) ≡ push "" (read start t)
unfolding kind_of next_mode put
read-comma start t h = rw (one-append "," t) (read-step start comma "," t refl)
read-comma bare t h = rw (one-append "," t) (read-step bare comma "," t refl)
read-comma inside t h = absurd (h refl)
read-comma closing t h = rw (one-append "," t) (read-step closing comma "," t refl)

read-newline : (m : Mode) (t : String) → m ≢ inside → read m ("\n" <> t) ≡ ("" ∷ []) ∷ read start t
unfolding kind_of next_mode put
read-newline start t h = rw (one-append "\n" t) (read-step start newline "\n" t refl)
read-newline bare t h = rw (one-append "\n" t) (read-step bare newline "\n" t refl)
read-newline inside t h = absurd (h refl)
read-newline closing t h = rw (one-append "\n" t) (read-step closing newline "\n" t refl)

read-opening : (t : String) → read start (String.◌∷◌ "\"" t) ≡ read inside t
unfolding kind_of next_mode put
read-opening t = read-step start quote "\"" t refl

-- A quoted field and the comma behind it.
pub read-quoted :
    (f t : String) → IsQuoteless f → read start (quoted f <> ("," <> t)) ≡ push f (read start t)
read-quoted f t h =
    rw
      (
        append_assoc "\"" (f <> "\"") ("," <> t),
        append_assoc f "\"" ("," <> t),
        one-append "\"" (f <> ("\"" <> ("," <> t))),
      )
      (read-opening (f <> ("\"" <> ("," <> t)))
        ∙ read_inside-append f ("," <> t) h
        ∙ ap (prepend f) (read-comma closing t (λ e. cc e))
        ∙ prepend-push f (read start t))

-- A bare field and the comma behind it.
pub read-plain : (f t : String) → IsBare f → read start (f <> ("," <> t)) ≡ push f (read start t)
read-plain f t h =
    read_bare-append start f ("," <> t) (inl refl) h
      (read-comma start t (λ e. cc e) ∙ sym (read-comma bare t (λ e. cc e)))
    ∙ ap (prepend f) (read-comma bare t (λ e. cc e))
    ∙ prepend-push f (read start t)

-- What ends a row: what is left is read as `rows`.
pub record IsEnd (t : String) (rows : List (List String)) : Type 0 where
  at_start : read start t ≡ ("" ∷ []) ∷ rows
  in_field : read bare t ≡ ("" ∷ []) ∷ rows

pub IsEnd-nil : IsEnd "" []
unfolding read
IsEnd-nil = record { at_start = refl; in_field = refl }

pub newline-IsEnd : (t : String) → IsEnd ("\n" <> t) (read start t)
newline-IsEnd t = record {
  at_start = read-newline start t (λ e. cc e);
  in_field = read-newline bare t (λ e. cc e);
}

-- The last field of a row, a bare one.
pub read-last :
    (f t : String) (rows : List (List String))
    → IsBare f
    → IsEnd t rows
    → read start (f <> t) ≡ (f ∷ []) ∷ rows
read-last f t rows h e =
    read_bare-append start f t (inl refl) h (e.at_start ∙ sym e.in_field)
    ∙ ap (prepend f) e.in_field
    ∙ prepend-cons f "" [] rows
    ∙ rw (append-nil f) refl
