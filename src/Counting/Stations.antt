-- ===== src/Counting/Stations.antt =====
-- dashboard/app/(officer)/election/counting/page.tsx: the sheet of the polling stations, in which every
-- station has the same share of the votes. `Math.round` of a quarter is written as a division: half a
-- vote is rounded up.
use secure_vote.Base.{ℕ, ◌+◌, ◌*◌, ◌/◌, String, Option, List, [], ◌∷◌, map, length}
use secure_vote.Counting.{
  CandidateResult, Results, votes_of, candidates_in, total_candidate_votes, sorted_candidates,
}

pub record PollingStation : Type 0 where
  pub id : String
  pub name : String
  pub tables : ℕ
  pub eevm : String

abbrev pub polling_station : String → String → ℕ → String → PollingStation
polling_station id name tables eevm = record { id = id; name = name; tables = tables; eevm = eevm }

abbrev pub polling_stations : List PollingStation
polling_stations =
    polling_station "PS-001" "Government High School, Room 1" 4 "EVM-001"
    ∷ polling_station "PS-002" "Government High School, Room 2" 4 "EVM-002"
    ∷ polling_station "PS-003" "Community Welfare Centre, North Hall" 3 "EVM-003"
    ∷ polling_station "PS-004" "Model Primary School, Main Block" 3 "EVM-004"
    ∷ []

-- `Math.round(votes * (1 / pollingStations.length))`
unfoldable pub station_share : ℕ → ℕ
station_share votes = (2 * votes + length polling_stations) / (2 * length polling_stations)

pub record StationRow : Type 0 where
  pub serial : ℕ
  pub station : PollingStation
  pub candidate_votes : List ℕ
  pub valid : ℕ
  pub rejected : ℕ
  pub tendered : ℕ

unfoldable pub station_row : Option Results → List CandidateResult → ℕ → PollingStation → StationRow
unfolding station_share
station_row r sorted idx ps = record {
  serial = idx + 1;
  station = ps;
  candidate_votes = map (λ c. station_share (votes_of c)) sorted;
  valid = station_share (total_candidate_votes r);
  rejected = 0;
  tendered = 0;
}

abbrev pub rows_from :
    Option Results → List CandidateResult → ℕ → List PollingStation → List StationRow
rows_from r sorted idx [] = []
rows_from r sorted idx (ps ∷ rest) = station_row r sorted idx ps ∷ rows_from r sorted (idx + 1) rest

unfoldable pub form20_rows : Option Results → List StationRow
unfolding station_row
form20_rows r = rows_from r (sorted_candidates (candidates_in r)) 0 polling_stations

-- The grand total of a candidate's column is the whole count, and that of the votes the whole sum.
unfoldable pub grand_total : Option Results → List ℕ × ℕ
grand_total r = (map votes_of (sorted_candidates (candidates_in r)), total_candidate_votes r)
