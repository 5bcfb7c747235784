-- ===== src/Voter/Examples.antt =====
-- The theorem on the roll at two lookups, and the pages of the portal at single replies.
use secure_vote.Base.{
  ◌≡◌, refl, String, true, false, none, some, [], ◌∷◌, any, length, Reply, ok, failed, trim,
  lower_includes, drop_text, map,
}
use secure_vote.Types.Registers.{VoterResponse, PollingStationResponse}
use secure_vote.Voter.Roll.{initial, demo_voter, has_number, typed, looked_up, run, filtered_voters}
use secure_vote.Voter.Rolls.{are_distinct, run-are_distinct}
use secure_vote.Voter.Profile.{lookup_profile, demo_profile}
use secure_vote.Voter.Stations.{StationPage, fetch_stations, fallback_stations}
use secure_vote.Voter.Forms.{handle_search}

abbrev known : VoterResponse
known = demo_voter "6" "VTR-00999" "Asha Rao" "1990-01-01" "New Delhi (NCT)" "PS-003" false "now"

run-are_distinct_example :
    let p = run (initial "now") (
      typed "VTR-00999"
      ∷ looked_up none (λ e k. ok (some known))
      ∷ looked_up none (λ e k. ok (some known))
      ∷ []) in
    (are_distinct p.voters ≡ true) × (any (has_number "VTR-00101") p.voters ≡ true)
run-are_distinct_example =
    run-are_distinct "now" "VTR-00101"
      (typed "VTR-00999"
        ∷ looked_up none (λ e k. ok (some known))
        ∷ looked_up none (λ e k. ok (some known))
        ∷ [])
      refl

roll_test :
    (length
        (run (initial "now") (
          typed " VTR-00999 "
          ∷ looked_up none (λ e k. ok (some known))
          ∷ looked_up none (λ e k. ok (some known))
          ∷ [])).voters
      ≡ 6)
    × (map (λ v. v.id) (filtered_voters (run (initial "now") (typed "meera" ∷ []))) ≡ "2" ∷ [])
unfolding run trim filtered_voters lower_includes
roll_test = (refl, refl)

-- An identifier that no backend knows is shown as an eligible voter who has voted.
profile_test :
    (lookup_profile
      (λ e k. failed "Network error")
      " VTR-1 "
      (record { voter_id_input = " VTR-1 "; profile = none; loading = false })).profile
    ≡ some (demo_profile "VTR-1")
unfolding lookup_profile trim
profile_test = refl

abbrev station_page : StationPage
station_page = record { constituency = "New Delhi"; loading = false; error = none; results = none }

stations_test :
    (fetch_stations (λ e. failed "Network error") "New Delhi" station_page).results
    ≡ some fallback_stations
unfolding fetch_stations
stations_test = refl

abbrev open_station : PollingStationResponse
open_station = record {
  id = "PS-017";
  election_id = "EV-2026-001";
  station_code = "";
  name = "School";
  constituency = "NEW DELHI (NCT)";
  location = "";
  assigned_devices = 0;
  registered_voters = 0;
  votes_cast = 0;
  status = "";
  officer_name = none;
  created_at = "";
}

-- A station without voters is shown with 850 of them.
matched_stations_test :
    (fetch_stations (λ e. ok (open_station ∷ [])) "New Delhi" station_page).results
    ≡ some (
        record {
          id = "PS-017";
          station_code = "PS-017";
          name = "School";
          constituency = "NEW DELHI (NCT)";
          location = "";
          status = "ACTIVE";
          officer_name = some "Presiding Officer";
          assigned_devices = 2;
          registered_voters = 850;
        }
        ∷ [])
unfolding fetch_stations lower_includes drop_text
matched_stations_test = refl

abbrev echo : String → String → Reply VoterResponse
echo e k = failed k

search_test :
    (handle_search echo
      (record { voter_id = " VTR-1"; loading = false; error = none; voter_data = none })).error
    ≡ some " VTR-1"
unfolding handle_search trim
search_test = refl
