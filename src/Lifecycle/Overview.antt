-- ===== src/Lifecycle/Overview.antt =====
-- dashboard/app/(officer)/command/page.tsx: `fetchElectionData`, with its fallbacks. The replies of the
-- backend and the current time are arguments, and so is what the cast of a text to a state gives.
use secure_vote.Base.{
  String, ◌≡◌, refl, false, Option, none, some, List, [], ◌∷◌, map, or_text, truthy, if◌then◌else◌,
  Reply, ok, failed, or_else,
}
use secure_vote.Types.{ElectionState, opened, ElectionResponse, TransparencyOverview}
use secure_vote.Officer.{target, target-cons}
use secure_vote.Lifecycle.{Board}

-- What the page awaits.
pub record Backend : Type 0 where
  pub get_elections : Reply (List ElectionResponse)
  pub get_transparency_elections : Reply (List TransparencyOverview)
  pub get_election : String → Reply ElectionResponse

module _ (as_state : String → ElectionState) (now : String) where
  -- `(t.state as ElectionState) || "OPEN"`
  abbrev pub state_or_open : String → ElectionState
  state_or_open s = if truthy s then as_state s else opened

  abbrev pub of_overview : TransparencyOverview → ElectionResponse
  of_overview t = record {
    id = t.election_id;
    name = some t.election_name;
    title = some (or_text (some t.election_name) t.election_id);
    description = some "Simulated General Election";
    state = state_or_open t.state;
    configuration_hash = none;
    device_count = t.device_count;
    ballot_count = t.total_ballots;
    created_at = now;
    opened_at = none;
    closed_at = none;
    published_at = none;
    candidates = [];
  }

  -- The election that the page shows when it knows of none.
  abbrev pub made_up : ElectionResponse
  made_up = record {
    id = "EV-2026-001";
    name = some "General Election 2026";
    title = some "General Election 2026";
    description = some "Simulated General Election";
    state = opened;
    configuration_hash = none;
    device_count = 3;
    ballot_count = 0;
    created_at = now;
    opened_at = none;
    closed_at = none;
    published_at = none;
    candidates = [];
  }

  abbrev pub or_made_up : List ElectionResponse → List ElectionResponse
  or_made_up [] = made_up ∷ []
  or_made_up (e ∷ es) = e ∷ es

  abbrev pub listed : Backend → Reply (List ElectionResponse) → List ElectionResponse
  listed api (ok es) = es
  listed api (failed m) = map of_overview (or_else api.get_transparency_elections [])

  abbrev pub show_target : Backend → Option ElectionResponse → Board → Board
  show_target api none b = b
  show_target api (some e) b = record b {
    selected_election_id = e.id;
    election = some (or_else (api.get_election e.id) e);
  }

  unfoldable pub fetch_election_data : Backend → String → Board → Board
  fetch_election_data api election_id b =
      let all = or_made_up (listed api api.get_elections) in
      record (show_target api (target election_id all)
        (record b { error = none; elections = all })) { loading = false }

  or_made_up-target :
      (k : String) (es : List ElectionResponse)
      → (e : ElectionResponse) × (target k (or_made_up es) ≡ some e)
  or_made_up-target k [] = target-cons k made_up []
  or_made_up-target k (e ∷ es) = target-cons k e es

  show_target-elections :
      (api : Backend) (o : Option ElectionResponse) (b : Board)
      → (show_target api o b).elections ≡ b.elections
  show_target-elections api none b = refl
  show_target-elections api (some e) b = refl

  -- Whatever calls fail, loading ends without an error, and with an election: the target in the list of
  -- elections that the page then has, as the backend details it if it does.
  fetch_election_data-shown :
      (api : Backend) (election_id : String) (b : Board)
      → let v = fetch_election_data api election_id b in
        (e : ElectionResponse) × (target election_id v.elections ≡ some e)
        × (v.selected_election_id ≡ e.id)
        × (v.election ≡ some (or_else (api.get_election e.id) e))
        × (v.error ≡ none)
        × (v.loading ≡ false)
  unfolding fetch_election_data
  fetch_election_data-shown api election_id b =
      let all = or_made_up (listed api api.get_elections) in
      let begun = record b { error = none; elections = all } in
      let (e, found) = or_made_up-target election_id (listed api api.get_elections) in
      let kept = show_target-elections api (target election_id all) begun in
      (e, rw (kept, found) refl, rw found refl, rw found refl, rw found refl, refl)
