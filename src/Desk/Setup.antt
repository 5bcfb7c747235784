-- ===== src/Desk/Setup.antt =====
-- dashboard/app/(officer)/election/setup/page.tsx, with the provider of ElectionContext.tsx, which it
-- asks for a refresh.
use secure_vote.Base.{
  String, Bool, true, false, Option, none, some, List, [], ◌∷◌, Reply, ok, failed, ◌≡◌, refl,
}
use secure_vote.Types.{
  ElectionState, created, configured, locked, opened, suspended, closed, published,
  ElectionResponse,
}
use secure_vote.Selection.{Elections, refresh_elections}

pub record SetupPage : Type 0 where
  pub elections : Elections
  pub loading : Bool
  pub error : Option String

-- What follows the answer to the transition of the election `e` that the page shows. The refresh does
-- not throw.
abbrev pub moved :
    Reply ElectionResponse
    → ElectionResponse
    → Reply (List ElectionResponse)
    → (String → Reply ElectionResponse)
    → SetupPage
    → SetupPage
moved (ok answer) e all detailed p = record p {
  elections = refresh_elections (some e) all detailed p.elections;
  loading = false;
}
moved (failed m) e all detailed p = record p { error = some m; loading = false }

unfoldable pub move_to :
    (String → ElectionState → Reply ElectionResponse)
    → ElectionResponse
    → ElectionState
    → Reply (List ElectionResponse)
    → (String → Reply ElectionResponse)
    → SetupPage
    → SetupPage
move_to update e new_state all detailed p =
    moved (update e.id new_state) e all detailed (record p { loading = true; error = none })

-- The states that the enabled buttons lead to.
abbrev pub next_states : ElectionState → List ElectionState
next_states created = configured ∷ []
next_states configured = locked ∷ []
next_states locked = opened ∷ []
next_states suspended = opened ∷ []
next_states opened = closed ∷ []
next_states _ = []

abbrev pub steps : List ElectionState
steps = created ∷ configured ∷ locked ∷ opened ∷ suspended ∷ closed ∷ published ∷ []

-- A transition that the backend accepts, and whose election it then has, is what the page shows next.
move_to-selected :
    (update : String → ElectionState → Reply ElectionResponse) (e answer fresh : ElectionResponse)
    (s : ElectionState) (es : List ElectionResponse) (detailed : String → Reply ElectionResponse)
    (p : SetupPage)
    → update e.id s ≡ ok answer
    → detailed e.id ≡ ok fresh
    → let q = move_to update e s (ok es) detailed p in
      (q.elections.selected_election ≡ some fresh) × (q.error ≡ none) × (q.loading ≡ false)
unfolding move_to refresh_elections
move_to-selected update e answer fresh s es detailed p accepted listed =
    rw (accepted, listed) (refl, refl, refl)
