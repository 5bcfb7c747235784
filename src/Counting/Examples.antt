-- ===== src/Counting/Examples.antt =====
-- The theorems on the counting center at two candidates and at single rounds.
use secure_vote.Base.{
  ℕ, ◌+◌, ◌*◌, ◌≤◌, ◌≡◌, refl, true, false, none, some, String, [], ◌∷◌, All, sum_by, ◌/◌, ◌%◌,
  ◌<>◌, digit, decimal, map, digit-all, all-codes-append,
}
use secure_vote.Counting.{
  CandidateResult, Results, total_candidate_votes, votes_of, sorted_candidates, margin,
  cumulative_votes, round_increment,
}
use secure_vote.Counting.Rounds.{Rounds, run, timeouts}
use secure_vote.Counting.Form20.{SheetResult, csv_row, handle_export_csv}
use secure_vote.Counting.Stations.{form20_rows}
use secure_vote.Counting.Csv.{IsBare, read_csv}
use secure_vote.Counting.Sheet.{is_bare, decimal-IsBare, header_fields, fields_of, read_csv-export}
use secure_vote.Counting.Margin.{margin_lem}
use secure_vote.Counting.Progress.{run-timeouts, cumulative_votes_lem}

abbrev result : String → ℕ → CandidateResult
result id n = record { candidate_id = id; vote_count = some n; votes = none }

sorted_example :
    sorted_candidates (result "C001" 3 ∷ result "C002" 8 ∷ [])
    ≡ result "C002" 8 ∷ result "C001" 3 ∷ []
unfolding sorted_candidates
sorted_example = refl

margin_lem_example :
    All (λ x. votes_of x ≤ 8) (result "C001" 3 ∷ [])
    × All (λ x. votes_of x ≤ 3) []
    × (margin (sorted_candidates (result "C001" 3 ∷ result "C002" 8 ∷ [])) + 3 ≡ 8)
    × (8 + (3 + 0) ≡ sum_by votes_of (result "C001" 3 ∷ result "C002" 8 ∷ []))
margin_lem_example =
    margin_lem (result "C001" 3 ∷ result "C002" 8 ∷ []) (result "C002" 8) (result "C001" 3) []
      sorted_example

abbrev playing : Rounds
playing = record { current_round = 3; is_auto_playing = true; timer = true }

run-timeouts_example :
    ((run playing (timeouts 2)).current_round ≡ 5)
    × ((run playing (timeouts 2)).is_auto_playing ≡ false)
run-timeouts_example = run-timeouts 1 playing refl refl refl

cumulative_votes_lem_example :
    (cumulative_votes 13 2 ≤ cumulative_votes 13 (2 + 1))
    × (cumulative_votes 13 5 ≡ 13)
    × (5 * round_increment 13 ≤ 13 + 2)
    × (13 ≤ 5 * round_increment 13 + 2)
cumulative_votes_lem_example = cumulative_votes_lem 13 2

-- Shares of a hundredth of a percent, with two digits behind the point.
abbrev two_digits : ℕ → String
two_digits n = decimal (n / 100) <> ("." <> (digit (n / 10 % 10) <> digit (n % 10)))

abbrev sheet_result : String → ℕ → SheetResult ℕ
sheet_result name votes = record {
  candidate_id = "C001";
  candidate_name = some name;
  name = none;
  party = none;
  vote_count = some votes;
  votes = none;
  percentage = some 6250;
}

handle_export_csv_test :
    handle_export_csv 0 two_digits "E1" (some (sheet_result "A, B" 5 ∷ []))
    ≡ some (
      "Form20-ResultSheet-E1.csv",
      "Candidate ID,Candidate Name,Party,Votes,Percentage\n\"C001\",\"A, B\",\"IND\",5,62.50%",
    )
unfolding handle_export_csv decimal
handle_export_csv_test = refl

-- A quotation mark in a name is not doubled, so the name does not read back.
misread_test :
    read_csv (csv_row 0 two_digits (sheet_result "A \"B\"" 5))
    ≡ ("C001" ∷ "A B\"\"" ∷ "IND" ∷ "5" ∷ "62.50%" ∷ []) ∷ []
unfolding csv_row read_csv decimal
misread_test = refl

two_digits-IsBare : (n : ℕ) → IsBare (two_digits n)
two_digits-IsBare n =
    let tenths = digit (n / 10 % 10) in
    let hundredths = digit (n % 10) in
    let low =
      all-codes-append is_bare tenths hundredths (digit-all is_bare (n / 10 % 10) refl)
        (digit-all is_bare (n % 10) refl) in
    let point = all-codes-append is_bare "." (tenths <> hundredths) refl low in
    let whole = (decimal-IsBare (n / 100)).plain in
    record { plain = all-codes-append is_bare (decimal (n / 100)) _ whole point }

read_csv-export_example :
    (file : String) × (text : String) × (handle_export_csv 0 two_digits "E1"
        (some (sheet_result "A, B" 5 ∷ []))
      ≡ some (file, text))
    × (read_csv text ≡ header_fields ∷ map (fields_of 0 two_digits) (sheet_result "A, B" 5 ∷ []))
read_csv-export_example =
    read_csv-export 0 two_digits two_digits-IsBare "E1" (sheet_result "A, B" 5) [] (
      record {
        clean_id = record { quoteless = refl };
        clean_name = record { quoteless = refl };
        clean_party = record { quoteless = refl };
      },
      tt,
    )

abbrev two_results : Results
two_results = record {
  candidate_results = some (result "C001" 3 ∷ result "C002" 8 ∷ []);
  device_results = none;
}

-- Eleven votes are shown as three in each of the four rows, where the candidates have two and one.
form20_rows_test :
    (map (λ row. row.valid) (form20_rows (some two_results)) ≡ 3 ∷ 3 ∷ 3 ∷ 3 ∷ [])
    × (map (λ row. row.candidate_votes) (form20_rows (some two_results))
        ≡ (2 ∷ 1 ∷ []) ∷ (2 ∷ 1 ∷ []) ∷ (2 ∷ 1 ∷ []) ∷ (2 ∷ 1 ∷ []) ∷ [])
unfolding form20_rows total_candidate_votes sorted_candidates
form20_rows_test = (refl, refl)
