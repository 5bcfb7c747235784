-- ===== src/Evm/Examples.antt =====
-- The theorems on the terminal in runs of one and of two sessions.
mod Votes
use secure_vote.Base.{
  ℕ, ◌+◌, ◌≡◌, refl, ◌⊎◌, inl, inr, ◌↔◌, String, Bool, true, false, ok, failed, some, none, List,
  [], ◌∷◌, last, ◌===◌, if◌then◌else◌, Bool-cases, decimal, take_text,
}
use secure_vote.Evm.State.{
  Props, Terminal, EvmElection, Vote, vote_confirmed, initial, ready, candidate_selection,
  authorized, recorded,
}
use secure_vote.Evm.Loop.{votes_in, Event, press_ballot, press_candidate, press_cast, settle, run}
use secure_vote.Evm.Sequence.{IsNumbered, AreOrderly, opening, run-IsNumbered}
use secure_vote.Types.Samples.{sample_device}
use secure_vote.Types.{DeviceResponse, active, TransparencyOverview, CandidateResponse}
use secure_vote.Types.Export.{BallotExportItem}
use secure_vote.Verify.Checks.{sequences_valid}
use secure_vote.Verify.Sequences.{sequence_of}
use secure_vote.Evm.Handlers.{handle_candidate_select, handle_confirm}
use secure_vote.Evm.Setup.{SetupReplies, setup, has_nota, nota, candidate_slate}
use secure_vote.Evm.Ballots.{MayCast, handle_confirm-casts_iff}
use secure_vote.Evm.Opens.{ElectionIsOpen, DeviceIsActive, setup-ready_iff}
use secure_vote.Evm.Races.{two_sessions}
use secure_vote.Evm.View.{
  selected_cand_data, vvpat_slip, status_panel, amber, printed, tick, total_mock_votes,
}
use secure_vote.Evm.Slip.{IsFor, run-IsFor}
use secure_vote.Evm.Slate.{nota-elects}
use secure_vote.Evm.Archive.{OrderlyRun, numbers, numbers_of, archive-sequences_valid}

abbrev officer : Props
officer = record { device_id = "EVM-1"; election_id = "E"; token = some "T" }

abbrev waiting_terminal : Terminal
waiting_terminal = record initial { state = ready; sequence_number = 4 }

abbrev one_vote : List (ℕ × Event)
one_vote =
    (0, press_ballot)
    ∷ (1, settle 0 (authorized "S"))
    ∷ (2, press_candidate "C001")
    ∷ (3, press_cast "0")
    ∷ (4, settle 0 (recorded none))
    ∷ []

one_vote-AreOrderly : AreOrderly officer (opening waiting_terminal) one_vote
one_vote-AreOrderly = (refl, (tt, (tt, (tt, (tt, tt)))))

run-IsNumbered_example :
    let m = run officer (opening waiting_terminal) one_vote in
    (IsNumbered 4 m.terminal.sequence_number m.accepted)
    ⊎ (IsNumbered 4 (m.terminal.sequence_number + 1) m.accepted)
run-IsNumbered_example =
    run-IsNumbered officer waiting_terminal one_vote refl refl one_vote-AreOrderly

abbrev confirmed_terminal : Terminal
confirmed_terminal = record initial {
  state = vote_confirmed;
  session_token = some "S";
  selected_candidate = some "C001";
  sequence_number = 4;
}

abbrev vote : Vote
vote = record {
  session_token = "S";
  candidate_id = "C001";
  device_id = "EVM-1";
  sequence_number = 4;
}

handle_confirm-casts_iff_example :
    (votes_in (handle_confirm officer "0" confirmed_terminal).calls ≡ vote ∷ [])
    ↔ MayCast officer confirmed_terminal vote
handle_confirm-casts_iff_example = handle_confirm-casts_iff officer "0" confirmed_terminal vote

abbrev device : DeviceResponse
device = sample_device "EVM-1" "E" active

abbrev overview : TransparencyOverview
overview = record {
  election_id = "E";
  election_name = "Council";
  state = "OPEN";
  total_ballots = 3;
  device_count = 1;
  polling_station_count = 1;
  candidate_count = 2;
  registered_voters = 9;
  turnout_percentage = 33;
  audit_chain_status = "";
  reconciliation_status = "";
  manifest_status = "";
  notice = "";
}

-- The officer's endpoints fail, and the public ones answer.
abbrev replies : SetupReplies
replies = record {
  election = failed "Forbidden";
  overview = ok overview;
  overview_candidates = ok [];
  missing_candidates = ok [];
  devices = failed "Forbidden";
  transparency_devices = ok (device ∷ []);
}

setup-ready_iff_example : ((setup officer replies initial).state ≡ ready) ↔ (
    ElectionIsOpen true replies.election replies.overview replies.overview_candidates
    × DeviceIsActive "EVM-1" true replies.devices replies.transparency_devices)
setup-ready_iff_example = setup-ready_iff officer replies initial

ready_test : (setup officer replies initial).state ≡ ready
ready_test = setup-ready_iff_example.1 (refl, inl (refl, refl))
