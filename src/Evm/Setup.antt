-- ===== src/Evm/Setup.antt =====
-- dashboard/components/evm/EvmTerminal.tsx: the effect that loads the election and the device, and
-- the candidate slate with NOTA.
use secure_vote.Base.{
  ◌===◌, not, truthy, find, ℕ, ◌+◌, String, Bool, true, false, ◌||◌, Option, none, some, List, [],
  ◌∷◌, ◌++◌, ◌==◌, if◌then◌else◌, truthy?, upper_includes, length, any, Reply, ok, failed, or_else,
}
use secure_vote.Types.{
  CandidateResponse, ElectionResponse, DeviceResponse, DeviceStatus, TransparencyOverview, active,
  state_text,
}
use secure_vote.Evm.State.{EvmElection, Props, Terminal, error, ready}

-- The replies of the backend, in the order of the calls.
pub record SetupReplies : Type 0 where
  pub election : Reply ElectionResponse
  pub overview : Reply TransparencyOverview
  pub overview_candidates : Reply (List CandidateResponse)
  pub missing_candidates : Reply (List CandidateResponse)
  pub devices : Reply (List DeviceResponse)
  pub transparency_devices : Reply (List DeviceResponse)

abbrev pub of_election : ElectionResponse → EvmElection
of_election e = record {
  id = e.id;
  title = e.title;
  state = state_text e.state;
  candidates = e.candidates;
}

abbrev pub of_overview :
    Reply TransparencyOverview → Reply (List CandidateResponse) → Reply EvmElection
of_overview (failed m) cands = failed m
of_overview (ok view) (failed m) = failed m
of_overview (ok view) (ok cands) = ok (record {
  id = view.election_id;
  title = some view.election_name;
  state = view.state;
  candidates = cands;
})

-- With a token the officer's endpoint is tried first; its failure is no error.
abbrev pub first_election : Bool → SetupReplies → Reply EvmElection
first_election false r = of_overview r.overview r.overview_candidates
first_election true r = elim r.election [
  | ok e ↦ ok (of_election e)
  | failed _ ↦ of_overview r.overview r.overview_candidates
]

abbrev pub fill_candidates : Reply (List CandidateResponse) → EvmElection → EvmElection
fill_candidates missing e = elim e.candidates [
  | [] ↦ record e { candidates = or_else missing [] }
  | c ∷ cs ↦ e
]

-- `eData`, completed.
unfoldable pub load_election : Option String → SetupReplies → Reply EvmElection
load_election token r = elim (first_election (truthy? token) r) [
  | ok e ↦ ok (fill_candidates r.missing_candidates e)
  | failed m ↦ failed m
]

-- `dData`: the officer's list, or the public one where that is empty.
unfoldable pub load_devices : Option String → SetupReplies → Reply (List DeviceResponse)
load_devices token r =
    let mine = if truthy? token then or_else r.devices [] else [] in
    if length mine == 0 then r.transparency_devices else ok mine

abbrev pub is_active : DeviceStatus → Bool
is_active active = true
is_active _ = false

-- `rawCandidates.some(c => …includes("NOTA"))`
unfoldable pub has_nota : List CandidateResponse → Bool
has_nota = any (λ c. upper_includes c.name "NOTA" || upper_includes c.id "NOTA")

abbrev pub nota : ℕ → CandidateResponse
nota n = record {
  id = "C005";
  name = "None of the Above (NOTA)";
  party = some "None of the Above";
  symbol = some "NOTA";
  position = n + 1;
}

unfoldable pub candidate_slate : Option EvmElection → List CandidateResponse
unfolding has_nota
candidate_slate none = nota 0 ∷ []
candidate_slate (some e) =
    if has_nota e.candidates then e.candidates else e.candidates ++ nota (length e.candidates) ∷ []

abbrev setup_failed : String → Terminal → Terminal
setup_failed m t = record t {
  state = error;
  lcd_message = if truthy m then m else "INITIALIZATION FAILED";
}

-- The checks at the end of the effect, for the device that was found.
setup_device : EvmElection → DeviceResponse → Terminal → Terminal
setup_device e dev t =
    let loaded = record t { device = some dev; sequence_number = dev.last_sequence_number + 1 } in
    if not (e.state === "OPEN")
    then setup_failed "POLLING_CLOSED" loaded
    else if not (is_active dev.status)
    then setup_failed "DEVICE_INACTIVE" loaded
    else record loaded { state = ready; lcd_message = "READY - AWAITING SESSION" }

setup_found : EvmElection → Option DeviceResponse → Terminal → Terminal
unfolding setup_device
setup_found e none t = setup_failed "DEVICE_NOT_FOUND" t
setup_found e (some dev) t = setup_device e dev t

setup_devices : Props → EvmElection → Reply (List DeviceResponse) → Terminal → Terminal
unfolding setup_found
setup_devices props e (failed m) t = setup_failed m t
setup_devices props e (ok ds) t = setup_found e (find (λ d. d.id === props.device_id) ds) t

-- The effect of `useEffect`, given the replies.
unfoldable pub setup : Props → SetupReplies → Terminal → Terminal
unfolding setup_devices
setup props r t = elim (load_election props.token r) [
  | failed m ↦ setup_failed m t
  | ok e ↦ setup_devices props e (load_devices props.token r) (record t { election = some e })
]
