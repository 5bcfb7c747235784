-- ===== src/Counting/Sheet.antt =====
-- dashboard/app/(officer)/election/counting/page.tsx: the exported result sheet reads back.
use text.Mathlib.TextLemmas.{append_assoc, append-nil}
use secure_vote.Base.{
  ℕ, ◌≡◌, refl, ◌∙◌, ap, sym, String, Bool, some, List, [], ◌∷◌, map, not, ◌||◌, ◌==◌, ◌<>◌,
  or_text, decimal, decimal-all, get_or, all-codes-append, All,
}
use secure_vote.Counting.Form20.{
  SheetResult, header, quoted, join_lines, name_of, votes_in, share_of, csv_row, handle_export_csv,
}
use secure_vote.Counting.Csv.{
  IsQuoteless, IsBare, read, read_csv, start, IsEnd, IsEnd-nil, newline-IsEnd, read-quoted,
  read-plain, read-last,
}

abbrev pub is_bare : ℕ → Bool
is_bare c = not (c == 34 || c == 44 || c == 10)

pub decimal-IsBare : (n : ℕ) → IsBare (decimal n)
decimal-IsBare n = record { plain = decimal-all is_bare n refl }

-- Texts one behind the other, and what follows them.
append_assoc9 :
    (a b c d e f g h i t : String)
    → (a <> (b <> (c <> (d <> (e <> (f <> (g <> (h <> i)))))))) <> t
      ≡ a <> (b <> (c <> (d <> (e <> (f <> (g <> (h <> (i <> t))))))))
append_assoc9 a b c d e f g h i t = simp append_assoc

append_assoc10 :
    (a b c d e f g h i j t : String)
    → (a <> (b <> (c <> (d <> (e <> (f <> (g <> (h <> (i <> j))))))))) <> t
      ≡ a <> (b <> (c <> (d <> (e <> (f <> (g <> (h <> (i <> (j <> t)))))))))
append_assoc10 a b c d e f g h i j t = simp append_assoc

abbrev pub header_fields : List String
header_fields = "Candidate ID" ∷ "Candidate Name" ∷ "Party" ∷ "Votes" ∷ "Percentage" ∷ []

header-split :
    (t : String)
    → header <> t
      ≡ "Candidate ID"
        <> (","
            <> ("Candidate Name"
                <> (","
                    <> ("Party" <> ("," <> ("Votes" <> ("," <> ("Percentage" <> ("\n" <> t)))))))))
header-split t =
    append_assoc10 "Candidate ID" "," "Candidate Name" "," "Party" "," "Votes" "," "Percentage" "\n"
      t

read-header : (t : String) → read start (header <> t) ≡ header_fields ∷ read start t
read-header t =
    rw
      (
        header-split t,
        read-plain "Candidate ID" _ (record { plain = refl }),
        read-plain "Candidate Name" _ (record { plain = refl }),
        read-plain "Party" _ (record { plain = refl }),
        read-plain "Votes" _ (record { plain = refl }),
        read-last "Percentage" _ _ (record { plain = refl }) (newline-IsEnd t),
      )
      refl

-- No quotation mark in the texts of a result.
pub record IsClean {Number : Type 0} (c : SheetResult Number) : Type 0 where
  pub clean_id : IsQuoteless c.candidate_id
  pub clean_name : IsQuoteless (name_of c)
  pub clean_party : IsQuoteless (or_text c.party "IND")

module _ {Number : Type 0} (zero_share : Number) (to_fixed : Number → String) where
  -- The five fields of a row.
  abbrev pub fields_of : SheetResult Number → List String
  fields_of c =
      c.candidate_id
      ∷ name_of c
      ∷ or_text c.party "IND"
      ∷ decimal (votes_in c)
      ∷ share_of zero_share to_fixed c
      ∷ []

  module _ (to_fixed-IsBare : (x : Number) → IsBare (to_fixed x)) where
    share_of-IsBare : (c : SheetResult Number) → IsBare (share_of zero_share to_fixed c)
    share_of-IsBare c =
        let share = to_fixed-IsBare (get_or c.percentage zero_share) in
        record {
          plain =
              all-codes-append is_bare (to_fixed (get_or c.percentage zero_share)) "%" share.plain
                refl;
        }

    read-csv_row :
        (c : SheetResult Number) (t : String) (rows : List (List String))
        → IsClean c
        → IsEnd t rows
        → read start (csv_row zero_share to_fixed c <> t) ≡ fields_of c ∷ rows
    unfolding csv_row
    read-csv_row c t rows h e =
        let share = share_of zero_share to_fixed c in
        rw
          (
            append_assoc9 (quoted c.candidate_id) "," (quoted (name_of c)) ","
                (quoted (or_text c.party "IND")) "," (decimal (votes_in c)) "," share t,
            read-quoted c.candidate_id _ h.clean_id,
            read-quoted (name_of c) _ h.clean_name,
            read-quoted (or_text c.party "IND") _ h.clean_party,
            read-plain (decimal (votes_in c)) _ (decimal-IsBare (votes_in c)),
            read-last share t rows (share_of-IsBare c) e,
          )
          refl

    read-rows :
        (c : SheetResult Number) (cs : List (SheetResult Number))
        → All IsClean (c ∷ cs)
        → read start (join_lines (map (csv_row zero_share to_fixed) (c ∷ cs)))
          ≡ map fields_of (c ∷ cs)
    read-rows c [] (h, hs) =
        ap (read start) (sym (append-nil (csv_row zero_share to_fixed c)))
        ∙ read-csv_row c "" [] h IsEnd-nil
    read-rows c (d ∷ ds) (h, hs) =
        let rest = join_lines (map (csv_row zero_share to_fixed) (d ∷ ds)) in
        read-csv_row c ("\n" <> rest) (read start rest) h (newline-IsEnd rest)
        ∙ ap (λ rows. fields_of c ∷ rows) (read-rows d ds hs)

    -- Where shares are written without quotation mark, comma or line break, and the identifiers, the
    -- names and the parties of the results have no quotation mark: a reader of comma-separated values
    -- gets from the exported text of at least one result exactly the header's fields and, in order,
    -- those of each result, whatever commas and line breaks are in them.
    pub read_csv-export :
        (election_id : String) (c : SheetResult Number) (cs : List (SheetResult Number))
        → All IsClean (c ∷ cs)
        → (file : String) × (text : String) × (handle_export_csv zero_share to_fixed election_id
              (some (c ∷ cs))
            ≡ some (file, text))
          × (read_csv text ≡ header_fields ∷ map fields_of (c ∷ cs))
    unfolding handle_export_csv read_csv
    read_csv-export election_id c cs h =
        let rows = join_lines (map (csv_row zero_share to_fixed) (c ∷ cs)) in
        (
          "Form20-ResultSheet-" <> (election_id <> ".csv"),
          header <> rows,
          refl,
          read-header rows ∙ ap (λ table. header_fields ∷ table) (read-rows c cs h),
        )
