-- ===== src/Lifecycle/Examples.antt =====
-- The theorems on the stages at single states and replies.
use secure_vote.Base.{true, none, some, [], failed, false, String}
use secure_vote.Types.Samples.{sample_election}
use secure_vote.Types.{opened, locked, ElectionState, ElectionResponse}
use secure_vote.Lifecycle.{Board}
use secure_vote.Lifecycle.Overview.{Backend}

abbrev election : ElectionState → ElectionResponse
election state = sample_election "E1" state

abbrev board : Board
board = record {
  elections = [];
  selected_election_id = "E1";
  election = some (election locked);
  loading = false;
  action_loading = true;
  error = none;
  success_msg = none;
}

-- Every text is taken for the open state.
abbrev as_open : String → ElectionState
as_open s = opened

abbrev unreachable : Backend
unreachable = record {
  get_elections = failed "Network error";
  get_transparency_elections = failed "Network error";
  get_election = λ k. failed "Network error";
}
