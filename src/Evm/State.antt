-- ===== src/Evm/State.antt =====
-- dashboard/components/evm/EvmTerminal.tsx: the state of the terminal, and what its handlers leave
-- behind. `errorMsg` is not kept: no handler sets it.
use secure_vote.Base.{ℕ, String, Bool, false, Option, none, List, [], ◌∷◌}
use secure_vote.Types.{DeviceResponse, CandidateResponse}

-- What the terminal keeps of either form of an election.
pub record EvmElection : Type 0 where
  pub id : String
  pub title : Option String
  pub state : String
  pub candidates : List CandidateResponse

pub data EvmState : Type 0 where
  idle ready session_authorized candidate_selection vote_confirmed : EvmState
  vote_submitted vote_complete error : EvmState

pub record Props : Type 0 where
  pub device_id : String
  pub election_id : String
  pub token : Option String

pub record Terminal : Type 0 where
  pub election : Option EvmElection
  pub device : Option DeviceResponse
  pub state : EvmState
  pub lcd_message : String
  pub session_token : Option String
  pub selected_candidate : Option String
  pub sequence_number : ℕ
  pub show_vvpat : Bool
  pub last_vote_hash : String
  pub is_mock_poll : Bool
  pub mock_votes : List (String × ℕ)
  pub mock_cleared : Bool

-- The body of `api.castVote`.
pub record Vote : Type 0 where
  pub session_token : String
  pub candidate_id : String
  pub device_id : String
  pub sequence_number : ℕ

pub record Creds : Type 0 where
  pub u : String
  pub p : String

-- A call of the backend that a handler makes.
pub data Call : Type 0 where
  login : Creds → Call
  authorize_session : (voter_credential device_id token : String) → Call
  cast_vote : Vote → Call

-- What is left of a handler behind an `await` or in a `setTimeout`.
pub data Pending : Type 0 where
  logging_in : (is_mock_poll : Bool) → Pending
  authorizing : Pending
  casting : Vote → Pending
  session_failed vote_rejected : Pending
  diagnostic_done vote_done : Pending
  cleared : Bool → Pending

pub data Answer : Type 0 where
  logged_in : (access_token : String) → Answer
  authorized : (session_token : String) → Answer
  recorded : (ballot_hash : Option String) → Answer
  refused elapsed : Answer

-- A handler's outcome: the new state, what it left pending, and the calls it made.
pub record Outcome : Type 0 where
  pub terminal : Terminal
  pub later : List Pending
  pub calls : List Call

abbrev pub done : Terminal → Outcome
done t = record { terminal = t; later = []; calls = [] }

abbrev pub waiting : Terminal → Pending → Outcome
waiting t p = record { terminal = t; later = p ∷ []; calls = [] }

-- The state at the start of the component, before the effect has run.
abbrev pub initial : Terminal
initial = record {
  election = none;
  device = none;
  state = idle;
  lcd_message = "INITIALIZING...";
  session_token = none;
  selected_candidate = none;
  sequence_number = 0;
  show_vvpat = false;
  last_vote_hash = "";
  is_mock_poll = false;
  mock_votes = [];
  mock_cleared = false;
}
