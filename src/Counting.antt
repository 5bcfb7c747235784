-- ===== src/Counting.antt =====
-- dashboard/app/(officer)/election/counting/page.tsx: the tallies that the counting center computes
-- from the results, and the rounds that it plays. `Math.round` of a multiple of a fifth is written as
-- a division, since such a number is never half way between two integers.
pub mod Rounds
pub mod Margin
pub mod Progress
pub mod Form20
pub mod Csv
pub mod Sheet
pub mod Stations
pub mod Columns
mod Examples
use secure_vote.Base.{
  ℕ, ◌+◌, ◌-◌, ◌*◌, ◌/◌, String, Bool, true, false, ◌&&◌, ◌||◌, Option, none, some, List, [], ◌∷◌,
  leb, ◌==◌, if◌then◌else◌, get_or, sum_by,
}

-- The fields of a candidate's result that are counted; either name of a count may be missing.
pub record CandidateResult : Type 0 where
  pub candidate_id : String
  pub vote_count : Option ℕ
  pub votes : Option ℕ

pub record DeviceResult : Type 0 where
  pub ballot_count : Option ℕ
  pub votes_counted : Option ℕ

pub record Results : Type 0 where
  pub candidate_results : Option (List CandidateResult)
  pub device_results : Option (List DeviceResult)

-- `c.vote_count ?? c.votes ?? 0`
abbrev pub votes_of : CandidateResult → ℕ
votes_of c = get_or c.vote_count (get_or c.votes 0)

abbrev pub ballots_of_device : DeviceResult → ℕ
ballots_of_device d = get_or d.ballot_count (get_or d.votes_counted 0)

abbrev pub candidates_in : Option Results → List CandidateResult
candidates_in none = []
candidates_in (some r) = get_or r.candidate_results []

abbrev pub devices_in : Option Results → List DeviceResult
devices_in none = []
devices_in (some r) = get_or r.device_results []

unfoldable pub total_candidate_votes : Option Results → ℕ
total_candidate_votes r = sum_by votes_of (candidates_in r)

unfoldable pub total_device_votes : Option Results → ℕ
total_device_votes r = sum_by ballots_of_device (devices_in r)

-- `selectedElection.ballot_count ?? totalCandidateVotes`
unfoldable pub is_reconciled : (ballot_count : Option ℕ) → Option Results → Bool
unfolding total_candidate_votes total_device_votes
is_reconciled ballot_count r =
    let actual = get_or ballot_count (total_candidate_votes r) in
    total_candidate_votes r == actual && total_device_votes r == actual

-- `[...].sort((a, b) => votes(b) - votes(a))`, which is stable.
unfoldable pub place_by_votes : CandidateResult → List CandidateResult → List CandidateResult
place_by_votes c [] = c ∷ []
place_by_votes c (d ∷ ds) =
    if leb (votes_of d) (votes_of c) then c ∷ d ∷ ds else d ∷ place_by_votes c ds

unfoldable pub sorted_candidates : List CandidateResult → List CandidateResult
unfolding place_by_votes
sorted_candidates [] = []
sorted_candidates (c ∷ cs) = place_by_votes c (sorted_candidates cs)

-- The margin of the first over the second of the sorted candidates. The program's numbers go below 0
-- where these stop at 0; the theorem on it shows that they do not have to.
unfoldable pub margin : List CandidateResult → ℕ
margin [] = 0
margin (c ∷ []) = 0
margin (c ∷ d ∷ ds) = votes_of c - votes_of d

-- `Math.round(votes * (round / TOTAL_ROUNDS))`
abbrev pub cumulative_votes : ℕ → ℕ → ℕ
cumulative_votes votes round = (2 * (votes * round) + 5) / 10

-- `Math.round(votes / TOTAL_ROUNDS)`
abbrev pub round_increment : ℕ → ℕ
round_increment votes = (2 * votes + 5) / 10
