-- ===== src/Api/Services.antt =====
-- dashboard/lib/api-client.ts: the methods of `api` for complaints, simulation, transparency, geography, overseas voters and voting, with
-- the path, the options and the token that they give to `request`. Bodies that a method passes on
-- whole are values.
use secure_vote.Base.{String, Bool, true, false, ◌<>◌, if◌then◌else◌}
use secure_vote.Api.Json.{Value}
use secure_vote.Api.Uri.{encode_uri_component}
use secure_vote.Api.Client.{Options, no_options, with_body, without_body}

pub data ServiceMethod : Type 0 where
  submit_complaint : (complaint : Value) → ServiceMethod
  get_complaints : ServiceMethod
  track_complaint : (reference_number : String) → ServiceMethod
  update_complaint_status : (complaint_id : String) (update : Value) → ServiceMethod
  run_simulation : (preset : Value) → ServiceMethod
  get_simulation_presets : ServiceMethod
  get_transparency_elections : ServiceMethod
  get_transparency_overview : (election_id : String) → ServiceMethod
  get_transparency_candidates : (election_id : String) → ServiceMethod
  get_transparency_devices : (election_id : String) → ServiceMethod
  get_transparency_results : (election_id : String) → ServiceMethod
  seed_demo_election : (reset : Bool) → ServiceMethod
  get_geography_states : ServiceMethod
  get_geography_state : (code : String) → ServiceMethod
  get_geography_pc : (pc_id : String) → ServiceMethod
  get_geography_map_data : ServiceMethod
  get_overseas_framework : ServiceMethod
  submit_form6a : (form : Value) → ServiceMethod
  simulate_consular_session : (session : Value) → ServiceMethod
  authorize_voting : (election_id : String) (request : Value) → ServiceMethod
  cast_ballot : (ballot : Value) → ServiceMethod
  get_sessions : (election_id : String) → ServiceMethod

-- The first argument of `request`.
unfoldable pub service_path : ServiceMethod → String
service_path (submit_complaint complaint) = "/api/complaints"
service_path get_complaints = "/api/complaints"
service_path (track_complaint reference_number) =
    "/api/complaints/track/" <> encode_uri_component reference_number
service_path (update_complaint_status complaint_id update) =
    "/api/complaints/" <> complaint_id <> "/status"
service_path (run_simulation preset) = "/api/simulation/run"
service_path get_simulation_presets = "/api/simulation/presets"
service_path get_transparency_elections = "/api/transparency/elections"
service_path (get_transparency_overview election_id) = "/api/transparency/elections/" <> election_id
service_path (get_transparency_candidates election_id) =
    "/api/transparency/elections/" <> election_id <> "/candidates"
service_path (get_transparency_devices election_id) =
    "/api/transparency/elections/" <> election_id <> "/devices"
service_path (get_transparency_results election_id) =
    "/api/transparency/elections/" <> election_id <> "/results"
service_path (seed_demo_election reset) =
    "/api/simulation/seed-demo" <> (if reset then "?reset=true" else "")
service_path get_geography_states = "/api/geography/states"
service_path (get_geography_state code) = "/api/geography/states/" <> code
service_path (get_geography_pc pc_id) = "/api/geography/pc/" <> pc_id
service_path get_geography_map_data = "/api/geography/map-data"
service_path get_overseas_framework = "/api/overseas/framework"
service_path (submit_form6a form) = "/api/overseas/form6a"
service_path (simulate_consular_session session) = "/api/overseas/consular-simulate"
service_path (authorize_voting election_id request) =
    "/api/elections/" <> election_id <> "/sessions"
service_path (cast_ballot ballot) = "/api/votes"
service_path (get_sessions election_id) = "/api/elections/" <> election_id <> "/sessions"

-- The second.
unfoldable pub service_options : ServiceMethod → Options
service_options (submit_complaint complaint) = with_body "POST" (complaint)
service_options (update_complaint_status complaint_id update) = with_body "PATCH" (update)
service_options (run_simulation preset) = with_body "POST" (preset)
service_options (seed_demo_election reset) = without_body "POST"
service_options (submit_form6a form) = with_body "POST" (form)
service_options (simulate_consular_session session) = with_body "POST" (session)
service_options (authorize_voting election_id request) = with_body "POST" (request)
service_options (cast_ballot ballot) = with_body "POST" (ballot)
service_options _ = no_options

-- The methods that give no token.
unfoldable pub service_anonymous : ServiceMethod → Bool
service_anonymous (submit_complaint _) = true
service_anonymous (track_complaint _) = true
service_anonymous get_simulation_presets = true
service_anonymous get_transparency_elections = true
service_anonymous (get_transparency_overview _) = true
service_anonymous (get_transparency_candidates _) = true
service_anonymous (get_transparency_devices _) = true
service_anonymous (get_transparency_results _) = true
service_anonymous get_geography_states = true
service_anonymous (get_geography_state _) = true
service_anonymous (get_geography_pc _) = true
service_anonymous get_geography_map_data = true
service_anonymous get_overseas_framework = true
service_anonymous (submit_form6a _) = true
service_anonymous (simulate_consular_session _) = true
service_anonymous (cast_ballot _) = true
service_anonymous _ = false
