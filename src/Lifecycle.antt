-- ===== src/Lifecycle.antt =====
-- dashboard/app/(officer)/command/page.tsx: the twelve stages of an election, the transitions that the
-- buttons offer, and `handleStateTransition`. The stages' descriptions and references are left out.
pub mod Stages
pub mod Overview
mod Examples
use secure_vote.Base.{
  ℕ, String, Bool, true, false, not, ◌&&◌, ◌||◌, Option, none, some, List, [], ◌∷◌, if◌then◌else◌,
  truthy, truthy?, ◌<>◌, Reply, ok, failed,
}
use secure_vote.Types.{
  Role, admin, auditor, observer, ElectionState, created, configured, locked, opened, suspended,
  closed, published, state_text, ElectionResponse,
}

pub record ElectionLifecycleStage : Type 0 where
  pub step : ℕ
  pub title : String
  pub href : String
  pub is_current : ElectionState → Bool
  pub is_done : ElectionState → Bool

abbrev is_configured : ElectionState → Bool
is_configured configured = true
is_configured _ = false

abbrev not_configured : ElectionState → Bool
not_configured s = not (is_configured s)

abbrev is_locked : ElectionState → Bool
is_locked locked = true
is_locked _ = false

abbrev is_opened : ElectionState → Bool
is_opened opened = true
is_opened _ = false

abbrev is_polling : ElectionState → Bool
is_polling opened = true
is_polling suspended = true
is_polling _ = false

abbrev is_closed : ElectionState → Bool
is_closed closed = true
is_closed _ = false

abbrev is_published : ElectionState → Bool
is_published published = true
is_published _ = false

-- `["CLOSED", "PUBLISHED"].includes(s)`
abbrev polls_closed : ElectionState → Bool
polls_closed s = is_closed s || is_published s

-- `["OPEN", "SUSPENDED", "CLOSED", "PUBLISHED"].includes(s)`
abbrev polls_begun : ElectionState → Bool
polls_begun s = is_polling s || polls_closed s

abbrev stage :
    ℕ → String → String → (ElectionState → Bool) → (ElectionState → Bool) → ElectionLifecycleStage
stage n title href current done = record {
  step = n;
  title = title;
  href = href;
  is_current = current;
  is_done = done;
}

unfoldable pub lifecycle_stages : List ElectionLifecycleStage
lifecycle_stages =
    stage 1 "Setup & Gazette Notification" "/election/setup" is_configured not_configured
    ∷ stage 2 "Candidate Roster (Form 7A)" "/election/candidates" is_configured not_configured
    ∷ stage 3 "Station Allocation & BLO Prep" "/election/polling-stations" is_locked polls_begun
    ∷ stage 4 "FLC & Hardware Commissioning" "/election/devices" is_locked polls_begun
    ∷ stage 5 "Pre-Poll Mock Poll & Clear" "/evm" is_locked polls_begun
    ∷ stage 6 "Poll Commencement (07:00 HRS)" "/command" is_opened polls_closed
    ∷ stage 7 "Poll-Day Turnout & Monitoring" "/election/polling" is_polling polls_closed
    ∷ stage 8 "Poll Close & Form 17C Part I" "/command" is_closed polls_closed
    ∷ stage 9 "Strongroom Custody & Transit" "/election/audit" is_closed is_published
    ∷ stage 10 "Counting Center Operations" "/election/counting" is_closed is_published
    ∷ stage 11 "Mandatory VVPAT & Crypto Audit" "/election/verification" is_published is_published
    ∷ stage 12 "Result Declaration (Form 20/21E)" "/election/results" is_published is_published
    ∷ []

-- The transitions for which the page shows a button.
abbrev pub offered : ElectionState → List ElectionState
offered configured = locked ∷ []
offered locked = opened ∷ []
offered opened = suspended ∷ closed ∷ []
offered suspended = opened ∷ closed ∷ []
offered closed = published ∷ []
offered _ = []

-- What the page keeps.
pub record Board : Type 0 where
  pub elections : List ElectionResponse
  pub selected_election_id : String
  pub election : Option ElectionResponse
  pub loading : Bool
  pub action_loading : Bool
  pub error : Option String
  pub success_msg : Option String

abbrev pub is_admin : Option Role → Bool
is_admin (some admin) = true
is_admin _ = false

-- `err.message || ...`
abbrev transition_error : ElectionState → String → String
transition_error new_state m =
    if truthy m then m else "Failed to transition state to " <> state_text new_state

abbrev refresh_list : ElectionState → Reply (List ElectionResponse) → Board → Board
refresh_list new_state (ok all) b = record b { elections = all }
refresh_list new_state (failed m) b = record b { error = some (transition_error new_state m) }

abbrev show_transition :
    ElectionState → Reply ElectionResponse → Reply (List ElectionResponse) → Board → Board
show_transition new_state (ok updated) all b = refresh_list new_state all (record b {
  election = some updated;
  success_msg = some ("Election state successfully changed to " <> state_text new_state);
})
show_transition new_state (failed m) all b = record b {
  error = some (transition_error new_state m);
}

abbrev has_election : Option ElectionResponse → Bool
has_election none = false
has_election (some e) = true

-- `handleStateTransition`, with the replies to `updateElectionState` and `getElections`.
unfoldable pub handle_state_transition :
    Option Role
    → Option String
    → ElectionState
    → Reply ElectionResponse
    → Reply (List ElectionResponse)
    → Board
    → Board
handle_state_transition role token new_state updated all b =
    if not (has_election b.election) || not (truthy? token)
    then b
    else if not (is_admin role)
    then record b { error = some "Forbidden: Only ADMIN users may transition election state." }
    else record (show_transition new_state updated all
        (record b { error = none; success_msg = none })) { action_loading = false }
