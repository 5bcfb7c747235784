-- ===== src/Selection.antt =====
-- dashboard/context/ElectionContext.tsx and dashboard/lib/hooks/useActiveElection.ts: which election
-- the pages show. The replies of the backend are arguments.
pub mod Choice
mod Examples
use secure_vote.Base.{
  String, Bool, true, false, ◌&&◌, Option, none, some, List, [], ◌∷◌, map, find, first,
  if◌then◌else◌, truthy?, or_text, ◌===◌, Reply, ok, failed, or_else,
}
use secure_vote.Types.{ElectionResponse, TransparencyOverview, state_text}

-- What `useActiveElection` keeps of an election from either endpoint.
pub record ListedElection : Type 0 where
  pub id : String
  pub name : Option String
  pub title : Option String
  pub state : String

abbrev pub of_election : ElectionResponse → ListedElection
of_election e = record { id = e.id; name = e.name; title = e.title; state = state_text e.state }

abbrev pub of_overview : TransparencyOverview → ListedElection
of_overview o = record {
  id = o.election_id;
  name = some o.election_name;
  title = some o.election_name;
  state = o.state;
}

-- The elections of the first endpoint, or the public ones where there are none.
unfoldable pub listed_elections :
    Reply (List ElectionResponse) → Reply (List TransparencyOverview) → List ListedElection
listed_elections (ok (e ∷ es)) public = map of_election (e ∷ es)
listed_elections reply (ok os) = map of_overview os
listed_elections reply (failed m) = []

abbrev pub is_open : ListedElection → Bool
is_open e = e.state === "OPEN"

-- `open || elections[0]`
unfoldable pub choose : List ListedElection → Option ListedElection
choose es = elim (find is_open es) [ none ↦ first es | some e ↦ some e ]

-- `chosen.name || chosen.title || chosen.id`
abbrev pub shown_name : ListedElection → String
shown_name e = or_text e.name (or_text e.title e.id)

abbrev with_name : ListedElection → ListedElection
with_name e = record e { name = some (shown_name e); title = some (shown_name e) }

abbrev named : Option ListedElection → Option ListedElection
named none = none
named (some e) = some (with_name e)

-- The election that the hook ends with.
unfoldable pub active_election :
    Reply (List ElectionResponse) → Reply (List TransparencyOverview) → Option ListedElection
unfolding listed_elections choose
active_election reply public = named (choose (listed_elections reply public))

-- The provider's state.
pub record Elections : Type 0 where
  pub elections : List ElectionResponse
  pub selected_election : Option ElectionResponse
  pub loading : Bool

abbrev pub select_reply : Reply ElectionResponse → Elections → Elections
select_reply (ok e) s = record s { selected_election = some e }
select_reply (failed m) s = s

-- `refreshElections` behind its first `await`, for the selection that it was called with.
refresh_selected :
    Option ElectionResponse
    → List ElectionResponse
    → (String → Reply ElectionResponse)
    → Elections
    → Elections
refresh_selected (some e) all detailed s = select_reply (detailed e.id) s
refresh_selected none [] detailed s = s
refresh_selected none (e ∷ es) detailed s = select_reply (detailed e.id) s

unfoldable pub refresh_elections :
    Option ElectionResponse
    → Reply (List ElectionResponse)
    → (String → Reply ElectionResponse)
    → Elections
    → Elections
unfolding refresh_selected
refresh_elections captured (failed m) detailed s = record s { loading = false }
refresh_elections captured (ok all) detailed s =
    record (refresh_selected captured all detailed (record s { elections = all })) {
      loading = false;
    }

unfoldable pub select_election : String → (String → Reply ElectionResponse) → Elections → Elections
select_election id detailed s = select_reply (detailed id) s
