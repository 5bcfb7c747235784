-- ===== src/Evm/Races.antt =====
-- dashboard/components/evm/EvmTerminal.tsx: what happens when two sessions are asked for at once.
use secure_vote.Base.{
  ℕ, ◌≡◌, String, true, false, none, ◌+◌, Option, List, [], ◌∷◌, arith, truthy, truthy?,
}
use secure_vote.Evm.State.{ready, Props, Terminal, Vote, authorized, recorded, refused, elapsed}
use secure_vote.Evm.Loop.{Event, press_ballot, press_candidate, press_cast, settle, run}
use secure_vote.Evm.Sequence.{opening}

-- BALLOT pressed twice before the first session is authorized; a vote is cast in the first session,
-- and, while it is under way, another in the second. The backend confirms the first ballot and refuses
-- the second, and then the two timers run out, the shorter one first.
abbrev pub two_sessions : (s₁ s₂ c₁ c₂ stamp : String) (hash : Option String) → List (ℕ × Event)
two_sessions s₁ s₂ c₁ c₂ stamp hash =
    (0, press_ballot)
    ∷ (400, press_ballot)
    ∷ (500, settle 0 (authorized s₁))
    ∷ (2000, press_candidate c₁)
    ∷ (3000, press_cast stamp)
    ∷ (3100, settle 0 (authorized s₂))
    ∷ (4000, press_candidate c₂)
    ∷ (5000, press_cast stamp)
    ∷ (6000, settle 0 (recorded hash))
    ∷ (6100, settle 0 refused)
    ∷ (9100, settle 1 elapsed)
    ∷ (13000, settle 0 elapsed)
    ∷ []

-- The ballot for a candidate in a session, with the terminal's device and number.
abbrev pub ballot : Props → Terminal → String → String → Vote
ballot props t s c = record {
  session_token = s;
  candidate_id = c;
  device_id = props.device_id;
  sequence_number = t.sequence_number;
}

-- From a terminal at READY, outside diagnostic mode and with an officer's token: if BALLOT is pressed
-- twice before the first answer, and a vote is cast in each of the two sessions, then two ballots with
-- the same sequence number are handed over, one for each session. If the backend confirms the first
-- and refuses the second, then at the end the first is the only one accepted, and the terminal is at
-- READY without a session and with the next number: the second session is forgotten. Neither the
-- session tokens nor the candidates' identifiers are empty.
pub two_sessions-one_ballot :
    (props : Props) (t : Terminal) (s₁ s₂ c₁ c₂ stamp : String) (hash : Option String)
    → t.state ≡ ready
    → t.is_mock_poll ≡ false
    → truthy? props.token ≡ true
    → truthy s₁ ≡ true
    → truthy s₂ ≡ true
    → truthy c₁ ≡ true
    → truthy c₂ ≡ true
    → let m = run props (opening t) (two_sessions s₁ s₂ c₁ c₂ stamp hash) in
      (m.sent ≡ ballot props t s₂ c₂ ∷ ballot props t s₁ c₁ ∷ [])
      × (m.accepted ≡ ballot props t s₁ c₁ ∷ [])
      × (m.pending ≡ [])
      × (m.terminal.state ≡ ready)
      × (m.terminal.session_token ≡ none)
      × (m.terminal.sequence_number ≡ t.sequence_number + 1)
unfolding run
two_sessions-one_ballot props t s₁ s₂ c₁ c₂ stamp hash at_ready live officer ts₁ ts₂ tc₁ tc₂ =
    ground arith
