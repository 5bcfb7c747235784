-- ===== src/Portal/Examples.antt =====
-- Runs of the public pages.
use secure_vote.Base.{
  String, ◌≡◌, refl, true, none, some, [], List, truthy, ◌∷◌, ok, failed, ◌↔◌, inl,
}
use secure_vote.Types.{TransparencyOverview}
use secure_vote.Portal.Map.{
  Page, Backend, Event, StateDetails, initial, picked_state, answered, run, selected_feature,
}
use secure_vote.Portal.InOrder.{run-shows_selected}
use secure_vote.Portal.Transparency.{
  DetailPage, IsFinal, load_election_details, load_election_details-shown_iff,
}
use secure_vote.Portal.Transparency

-- Every state has its code as its details.
abbrev echo : Backend String
echo = record {
  get_geography_map_data = ok (record { code = "KA"; rest = "Karnataka" } ∷ []);
  get_geography_state = λ c. ok (record { parliamentary_constituencies = some (c ∷ []); rest = c });
  get_geography_pc = λ id. ok id;
}

abbrev settled : Page String
settled = record (initial String) { pending = [] }

-- The second of two states is answered first: the page ends with the details of the first.
abbrev overtaken : Page String
overtaken =
    run settled (picked_state "KL" ∷ picked_state "TN" ∷ answered 1 echo ∷ answered 0 echo ∷ [])

overtaken_test :
    (overtaken.selected_state_code ≡ "TN")
    × (overtaken.state_details
        ≡ some (record { parliamentary_constituencies = some ("KL" ∷ []); rest = "KL" }))
unfolding run
overtaken_test = (refl, refl)

abbrev details_of : String → StateDetails String
details_of c = record { parliamentary_constituencies = some (c ∷ []); rest = c }

-- Another state is picked before anything is answered.
abbrev in_order : List (Event String)
in_order =
    picked_state "KL"
    ∷ answered 0 echo
    ∷ answered 0 echo
    ∷ answered 0 echo
    ∷ answered 0 echo
    ∷ answered 0 echo
    ∷ answered 0 echo
    ∷ []

run-shows_selected_example :
    let p = run (initial String) in_order in
    (truthy p.selected_state_code ≡ true
      → p.state_details ≡ some (details_of p.selected_state_code))
    × (truthy p.selected_pc_id ≡ true → p.pc_details ≡ some p.selected_pc_id)
unfolding run
run-shows_selected_example =
    run-shows_selected echo details_of (λ k. k) in_order (λ c. refl, λ k. refl)
      (
        tt,
        (
          (refl, refl),
          ((refl, refl), ((refl, refl), ((refl, refl), ((refl, refl), ((refl, refl), tt))))),
        ),
      )
      refl

in_order_test :
    ((run (initial String) in_order).selected_state_code ≡ "KL")
    × ((run (initial String) in_order).pc_details ≡ some "KL")
unfolding run
in_order_test = (refl, refl)

shape_test : selected_feature (run (initial String) in_order) ≡ none
unfolding run selected_feature
shape_test = refl

abbrev closed_election : TransparencyOverview
closed_election = record {
  election_id = "E1";
  election_name = "Election";
  state = "CLOSED";
  total_ballots = 2;
  device_count = 1;
  polling_station_count = 1;
  candidate_count = 2;
  registered_voters = 4;
  turnout_percentage = 50;
  audit_chain_status = "INTACT";
  reconciliation_status = "PASSED";
  manifest_status = "PENDING";
  notice = "";
}

abbrev service : Transparency.Backend String
service = record {
  get_transparency_overview = λ k. ok closed_election;
  get_transparency_candidates = λ k. failed "Not found";
  get_transparency_results = λ k. ok "2 votes";
}

abbrev empty_page : DetailPage String
empty_page = record {
  overview = none;
  candidates = [];
  results_data = none;
  loading = true;
  error = none;
}

load_election_details-shown_iff_example :
    ((load_election_details "E1" service empty_page).results_data ≡ some "2 votes") ↔ (
      (truthy "E1" ≡ true)
      × IsFinal (service.get_transparency_overview "E1")
      × (service.get_transparency_results "E1" ≡ ok "2 votes"))
load_election_details-shown_iff_example =
    load_election_details-shown_iff "E1" service empty_page "2 votes" refl

final_test : (load_election_details "E1" service empty_page).results_data ≡ some "2 votes"
final_test = load_election_details-shown_iff_example.1 (refl, inl refl, refl)
