-- ===== src/Voter/Candidates.antt =====
-- dashboard/app/(public)/voter/candidates/page.tsx: the candidates of the active election.
use secure_vote.Base.{
  String, Bool, true, false, Option, none, some, List, [], ◌∷◌, truthy?, if◌then◌else◌, Reply, ok,
  failed,
}
use secure_vote.Types.{CandidateResponse}

pub record CandidatesPage : Type 0 where
  pub candidates : List CandidateResponse
  pub loading : Bool
  pub error : Option String

abbrev pub got_candidates : Reply (List CandidateResponse) → CandidatesPage → CandidatesPage
got_candidates (ok cs) p = record p { candidates = cs; loading = false }
got_candidates (failed m) p = record p { error = some m; loading = false }

-- The effect as a whole. It does not clear an error.
unfoldable pub fetch_candidates :
    Option String → (String → Reply (List CandidateResponse)) → CandidatesPage → CandidatesPage
fetch_candidates none get p = p
fetch_candidates (some election_id) get p =
    got_candidates (get election_id) (record p { loading = true })

-- What is shown: of the hook, or of the page.
pub data Shown : Type 0 where
  loading_election no_election loading_candidates none_found : Shown
  election_error candidates_error : Option String → Shown
  listed : List CandidateResponse → Shown

abbrev pub shown_list : List CandidateResponse → Shown
shown_list [] = none_found
shown_list (c ∷ cs) = listed (c ∷ cs)

abbrev pub shown_candidates : CandidatesPage → Shown
shown_candidates p =
    if p.loading
    then loading_candidates
    else if truthy? p.error
    then candidates_error p.error
    else shown_list p.candidates

abbrev pub shown_election : Option String → CandidatesPage → Shown
shown_election none p = no_election
shown_election (some election_id) p = shown_candidates p

unfoldable pub candidates_shown : Bool → Option String → Option String → CandidatesPage → Shown
candidates_shown election_loading failure election_id p =
    if election_loading
    then loading_election
    else if truthy? failure
    then election_error failure
    else shown_election election_id p
