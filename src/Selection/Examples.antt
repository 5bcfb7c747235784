-- ===== src/Selection/Examples.antt =====
-- The theorems on the selection at single elections.
use secure_vote.Base.{◌≡◌, refl, ap, sym, String, true, none, some, [], ◌∷◌, Reply, ok, failed}
use secure_vote.Types.Samples.{sample_election}
use secure_vote.Types.{ElectionResponse, opened}
use secure_vote.Selection.{Elections, refresh_elections}
use secure_vote.Selection.Choice.{HasSelected, refresh_elections-keeps_selection}

abbrev election : String → ElectionResponse
election id = sample_election id opened

abbrev nothing_selected : Elections
nothing_selected = record { elections = []; selected_election = none; loading = true }

abbrev first_selected : Elections
first_selected = record { elections = []; selected_election = some (election "E1"); loading = true }

-- A backend that has every election.
abbrev has_all : String → Reply ElectionResponse
has_all k = ok (election k)

abbrev id_of : Reply ElectionResponse → String
id_of (ok e) = e.id
id_of (failed m) = m

has_all-honest : (k : String) (f : ElectionResponse) → has_all k ≡ ok f → f.id ≡ k
has_all-honest k f e = ap id_of (sym e)

refresh_elections-keeps_selection_example :
    HasSelected
      (refresh_elections (some (election "E1")) (ok (election "E2" ∷ [])) has_all first_selected)
      "E1"
refresh_elections-keeps_selection_example =
    refresh_elections-keeps_selection first_selected (election "E1") (ok (election "E2" ∷ []))
      has_all has_all-honest refl
