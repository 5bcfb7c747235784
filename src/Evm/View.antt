-- ===== src/Evm/View.antt =====
-- dashboard/components/evm: what EvmTerminal.tsx shows beside its buttons, with EvmCandidateButton.tsx,
-- EvmStatusPanel.tsx, EvmStatusLED.tsx and VVPATSlip.tsx. Colours and sound are left out, except those of
-- the lamps.
use secure_vote.Base.{
  ℕ, ◌-◌, String, Bool, true, false, Option, none, some, List, map, find, sum_by, ltb,
  if◌then◌else◌, truthy, or_text, take_text, ◌<>◌, ◌===◌, decimal,
}
use secure_vote.Types.{CandidateResponse}
use secure_vote.Evm.State.{
  EvmElection, EvmState, candidate_selection, vote_confirmed, vote_submitted, error, Terminal,
}
use secure_vote.Evm.Setup.{candidate_slate}
use secure_vote.Evm.Handlers.{selecting}

-- `selectedCandidate === c.id`
abbrev pub is_selected : Option String → CandidateResponse → Bool
is_selected none c = false
is_selected (some id) c = c.id === id

abbrev pub selected_cand_data : Terminal → Option CandidateResponse
selected_cand_data t = find (is_selected t.selected_candidate) (candidate_slate t.election)

-- The slip in the window, for the candidate whose data are found.
unfoldable pub vvpat_slip : Terminal → Option CandidateResponse
unfolding candidate_slate
vvpat_slip t = if t.show_vvpat then selected_cand_data t else none

-- What is printed on it.
pub record VvpatSlip : Type 0 where
  pub position : ℕ
  pub name : String
  pub party : String
  pub symbol : String
  pub hash : String
  pub is_diagnostic : Bool

unfoldable pub printed : CandidateResponse → String → Bool → VvpatSlip
printed c hash mock = record {
  position = c.position;
  name = c.name;
  party = or_text c.party "Independent";
  symbol = or_text c.symbol "★";
  hash = (if truthy hash then take_text 16 hash else "PENDING") <> "...";
  is_diagnostic = mock;
}

-- `prev > 1 ? prev - 1 : 1`, each second from 7 on
abbrev pub tick : ℕ → ℕ
tick prev = if ltb 1 prev then prev - 1 else 1

-- A button of the ballot unit.
pub record CandidateButton : Type 0 where
  pub candidate : CandidateResponse
  pub is_active : Bool
  pub is_chosen : Bool

unfoldable pub candidate_buttons : Terminal → List CandidateButton
unfolding candidate_slate
candidate_buttons t =
    map
      (λ c. record {
        candidate = c;
        is_active = selecting t.state;
        is_chosen = is_selected t.selected_candidate c;
      })
      (candidate_slate t.election)

pub data Colour : Type 0 where
  green red amber dark : Colour

abbrev pub lamp : Bool → Colour → Colour
lamp on c = if on then c else dark

abbrev pub is_session_active : EvmState → Bool
is_session_active candidate_selection = true
is_session_active vote_confirmed = true
is_session_active vote_submitted = true
is_session_active _ = false

abbrev is_error : EvmState → Bool
is_error error = true
is_error _ = false

pub record StatusPanel : Type 0 where
  pub power : Colour
  pub polling : Colour
  pub tamper : Colour
  pub session : Colour
  pub sequence : String

-- `n.toString().padStart(4, '0')`
abbrev pub padded : ℕ → String
padded n =
    if ltb n 10
    then "000" <> decimal n
    else if ltb n 100
    then "00" <> decimal n
    else if ltb n 1000
    then "0" <> decimal n
    else decimal n

abbrev is_open : Option EvmElection → Bool
is_open none = false
is_open (some e) = e.state === "OPEN"

unfoldable pub status_panel : Terminal → StatusPanel
status_panel t = record {
  power = green;
  polling = if is_open t.election then green else red;
  tamper = lamp (is_error t.state) red;
  session = lamp (is_session_active t.state) amber;
  sequence = padded t.sequence_number;
}

-- The sum of the local test votes.
unfoldable pub total_mock_votes : Terminal → ℕ
total_mock_votes t = sum_by (λ v. v.1) t.mock_votes
