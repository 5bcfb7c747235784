-- ===== src/Counting/Columns.antt =====
-- dashboard/app/(officer)/election/counting/page.tsx: how far the sheet of the polling stations is from
-- its totals.
use secure_vote.Base.{ℕ, ◌+◌, ◌*◌, ◌≤◌, Option, List, [], ◌∷◌, map, length, sum_by, arith, All}
use secure_vote.Counting.{
  CandidateResult, Results, votes_of, candidates_in, total_candidate_votes, sorted_candidates,
}
use secure_vote.Counting.Margin.{sorted_candidates-sum}
use secure_vote.Counting.Stations.{
  StationRow, PollingStation, station_share, station_row, polling_stations, rows_from, form20_rows,
}

-- The sum of a list.
abbrev pub sum : List ℕ → ℕ
sum ns = sum_by (λ n. n) ns

station_share-bounds : (n : ℕ) → (4 * station_share n ≤ n + 2) × (n ≤ 4 * station_share n + 1)
unfolding station_share
station_share-bounds n = (omega arith, omega arith)

sum-shares :
    (cs : List CandidateResult)
    → let shares = sum (map (λ c. station_share (votes_of c)) cs) in
      (4 * shares ≤ sum_by votes_of cs + 2 * length cs)
      × (sum_by votes_of cs ≤ 4 * shares + length cs)
sum-shares [] = (omega arith, omega arith)
sum-shares (c ∷ cs) =
    let (above, below) = station_share-bounds (votes_of c) in
    let (more, less) = sum-shares cs in (omega (arith, above, more), omega (arith, below, less))

-- How far the votes of `k` candidates in a row are from its total.
abbrev pub IsClose : ℕ → StationRow → Type 0
IsClose k row =
    (4 * sum row.candidate_votes ≤ 4 * row.valid + (2 * k + 1))
    × (4 * row.valid ≤ 4 * sum row.candidate_votes + (k + 2))

station_row-IsClose :
    (r : Option Results) (idx : ℕ) (ps : PollingStation)
    → let cs = sorted_candidates (candidates_in r) in IsClose (length cs) (station_row r cs idx ps)
unfolding station_row total_candidate_votes
station_row-IsClose r idx ps =
    let cs = sorted_candidates (candidates_in r) in
    let (above, below) = station_share-bounds (sum_by votes_of (candidates_in r)) in
    let (more, less) = sum-shares cs in
    let whole = sorted_candidates-sum (candidates_in r) in
    (omega (arith, more, whole, below), omega (arith, less, whole, above))

rows_from-All :
    (r : Option Results) (idx : ℕ) (pss : List PollingStation)
    → let cs = sorted_candidates (candidates_in r) in
      All (IsClose (length cs)) (rows_from r cs idx pss)
rows_from-All r idx [] = tt
rows_from-All r idx (ps ∷ pss) = (station_row-IsClose r idx ps, rows_from-All r (idx + 1) pss)

-- Each row's votes of the candidates miss its total by at most half a vote for each candidate and a
-- quarter, or fall short of it by at most a quarter for each and a half; and the totals of the four
-- rows exceed the whole sum of votes by two at most, or fall short of it by one at most.
form20_rows_lem :
    (r : Option Results)
    → let k = length (sorted_candidates (candidates_in r)) in
      let rows = form20_rows r in
      All (IsClose k) rows
      × (sum_by (λ row. row.valid) rows ≤ total_candidate_votes r + 2)
      × (total_candidate_votes r ≤ sum_by (λ row. row.valid) rows + 1)
unfolding form20_rows station_row
form20_rows_lem r =
    let (above, below) = station_share-bounds (total_candidate_votes r) in
    (rows_from-All r 0 polling_stations, omega (arith, above), omega (arith, below))
