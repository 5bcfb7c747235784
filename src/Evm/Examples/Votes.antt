-- ===== src/Evm/Examples/Votes.antt =====
-- The slip, the slate and the archive of ballots, after the runs of one and of two sessions.
use secure_vote.Base.{
  ℕ, ◌+◌, ◌≡◌, refl, inl, inr, String, Bool, true, false, some, none, List, [], ◌∷◌, last, ◌===◌,
  if◌then◌else◌, Bool-cases, decimal, length, all, ◌||◌, take_text, upper_includes,
}
use secure_vote.Evm.State.{Props, Terminal, EvmElection, candidate_selection, ready}
use secure_vote.Evm.Loop.{votes_in, Event, run}
use secure_vote.Evm.Sequence.{AreOrderly, opening}
use secure_vote.Types.{CandidateResponse}
use secure_vote.Types.Export.{BallotExportItem}
use secure_vote.Verify.Checks.{sequences_valid}
use secure_vote.Verify.Sequences.{sequence_of}
use secure_vote.Evm.Handlers.{handle_candidate_select, handle_confirm}
use secure_vote.Evm.Setup.{has_nota, nota, candidate_slate}
use secure_vote.Evm.Races.{two_sessions, two_sessions-one_ballot, ballot}
use secure_vote.Evm.View.{
  selected_cand_data, vvpat_slip, status_panel, amber, printed, tick, total_mock_votes,
}
use secure_vote.Evm.Slip.{IsFor, run-IsFor}
use secure_vote.Evm.Slate.{nota-elects}
use secure_vote.Evm.Pressed.{run-accepted_pressed}
use secure_vote.Evm.Examples.{officer, waiting_terminal, one_vote}
use secure_vote.Evm.Archive.{OrderlyRun, numbers_of, archive-sequences_valid}

abbrev officer_on : String → Props
officer_on dev = record { device_id = dev; election_id = "E"; token = some "T" }

-- One vote on EVM-1, and none on other devices.
abbrev events_on : String → List (ℕ × Event)
events_on dev = if "EVM-1" === dev then one_vote else []

events_on-AreOrderly :
    (dev : String) (b : Bool)
    → AreOrderly (officer_on dev) (opening waiting_terminal) (if b then one_vote else [])
events_on-AreOrderly dev true = (refl, (tt, (tt, (tt, (tt, tt)))))
events_on-AreOrderly dev false = tt

abbrev run_on : (dev : String) → OrderlyRun dev
run_on dev = record {
  props = officer_on dev;
  terminal = waiting_terminal;
  events = events_on dev;
  for_device = refl;
  at_ready = refl;
  live = refl;
  orderly = events_on-AreOrderly dev ("EVM-1" === dev);
}

abbrev recorded_ballot : ℕ → BallotExportItem
recorded_ballot n = record {
  id = "B";
  session_id = "S";
  device_id = "EVM-1";
  candidate_id = "C001";
  sequence_number = n;
  ballot_hash = "";
  recorded_at = "";
}

recorded_on : (dev : String) → sequence_of dev (recorded_ballot 4 ∷ []) ≡ numbers_of (run_on dev)
unfolding run
recorded_on dev = elim (Bool-cases ("EVM-1" === dev)) [ inl e ↦ rw e refl | inr e ↦ rw e refl ]

archive-sequences_valid_example : sequences_valid (recorded_ballot 4 ∷ []) ≡ true
archive-sequences_valid_example =
    archive-sequences_valid (recorded_ballot 4 ∷ []) run_on recorded_on

-- BALLOT pressed twice.
abbrev raced : List (ℕ × Event)
raced = two_sessions "S1" "S2" "C001" "C002" "0" none

two_sessions-one_ballot_example :
    let m = run officer (opening waiting_terminal) raced in
    (m.sent
      ≡ ballot officer waiting_terminal "S2" "C002"
        ∷ ballot officer waiting_terminal "S1" "C001"
        ∷ [])
    × (m.accepted ≡ ballot officer waiting_terminal "S1" "C001" ∷ [])
    × (m.pending ≡ [])
    × (m.terminal.state ≡ ready)
    × (m.terminal.session_token ≡ none)
    × (m.terminal.sequence_number ≡ waiting_terminal.sequence_number + 1)
two_sessions-one_ballot_example =
    two_sessions-one_ballot officer waiting_terminal "S1" "S2" "C001" "C002" "0" none refl refl refl
      refl refl refl refl

abbrev candidate : String → String → CandidateResponse
candidate id name = record { id = id; name = name; party = none; symbol = none; position = 5 }

abbrev council : EvmElection
council = record {
  id = "E";
  title = none;
  state = "OPEN";
  candidates = candidate "C001" "Ada" ∷ candidate "C005" "Eve" ∷ [];
}

abbrev council_terminal : Terminal
council_terminal = record waiting_terminal { election = some council }

slip_test :
    vvpat_slip (run officer (opening council_terminal) one_vote).terminal
    ≡ some (candidate "C001" "Ada")
unfolding run vvpat_slip upper_includes
slip_test = refl

run-IsFor_example :
    IsFor (candidate "C001" "Ada") (run officer (opening council_terminal) one_vote).accepted
run-IsFor_example =
    run-IsFor officer council_terminal one_vote (candidate "C001" "Ada") refl refl refl
      (refl, (tt, (tt, (tt, (tt, tt))))) slip_test

abbrev in_session : Terminal
in_session = record council_terminal { state = candidate_selection; session_token = some "S" }

alone : has_nota council.candidates ≡ false
unfolding has_nota upper_includes
alone = refl

nota-elects_example :
    let u = handle_candidate_select "C005" in_session in
    (last (candidate_slate (some council)) ≡ some (nota 2))
    × (votes_in (handle_confirm officer "0" u).calls
        ≡ record {
          session_token = "S";
          candidate_id = "C005";
          device_id = "EVM-1";
          sequence_number = 4;
        }
          ∷ [])
    × (selected_cand_data u ≡ some (candidate "C005" "Eve"))
nota-elects_example =
    nota-elects officer "0" "S" in_session council (candidate "C005" "Eve") refl alone refl refl
      refl refl refl

view_test :
    (status_panel in_session).session ≡ amber
    × (status_panel in_session).sequence ≡ "0004"
    × (total_mock_votes (record in_session { mock_votes = ("C001", 2) ∷ ("C005", 1) ∷ [] }) ≡ 3)
    × ((printed (candidate "C005" "Eve") "0123456789abcdefg" false).hash ≡ "0123456789abcdef...")
    × (tick (tick 3) ≡ 1)
unfolding status_panel decimal total_mock_votes printed take_text
view_test = (refl, refl, refl, refl, refl)

abbrev first_two : String → Bool
first_two id = id === "C001" || id === "C002"

run-accepted_pressed_example :
    all (λ v. first_two v.candidate_id) (run officer (opening waiting_terminal) one_vote).accepted
    ≡ true
run-accepted_pressed_example =
    run-accepted_pressed first_two officer waiting_terminal one_vote refl
      (tt, (tt, (refl, (tt, (tt, tt)))))

accepted_test : length (run officer (opening waiting_terminal) one_vote).accepted ≡ 1
unfolding run
accepted_test = refl
