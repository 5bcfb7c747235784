-- ===== src/Api/Records.antt =====
-- dashboard/lib/api-client.ts: the methods of `api` for results, tickets, exports, signing, anchors, voters and polling stations, with
-- the path, the options and the token that they give to `request`. Bodies that a method passes on
-- whole are values.
use secure_vote.Base.{String, Bool, true, false, Option, none, some, ◌<>◌, if◌then◌else◌, truthy}
use secure_vote.Api.Json.{Value, null, str, obj, end, field}
use secure_vote.Api.Uri.{encode_uri_component}
use secure_vote.Api.Client.{Options, no_options, with_body, without_body}

pub data RecordMethod : Type 0 where
  get_results : (election_id : String) → RecordMethod
  run_verification : (election_id : String) → RecordMethod
  get_ws_ticket : (election_id? : Option String) → RecordMethod
  export_election : (election_id : String) → RecordMethod
  get_signing_public_key : RecordMethod
  sign_election_manifest : (election_id : String) → RecordMethod
  get_election_anchors : (election_id : String) → RecordMethod
  create_election_anchor : (election_id : String) (provider : String) → RecordMethod
  get_election_anomalies : (election_id : String) → RecordMethod
  tap_rfid : (tap : Value) → RecordMethod
  get_rfid_demo_cards : RecordMethod
  register_voter : (election_id : String) (voter : Value) → RecordMethod
  get_voters : (election_id : String) → RecordMethod
  check_eligibility : (election_id : String) (voter : Value) → RecordMethod
  lookup_voter : (election_id : String) (voter_id_number : String) → RecordMethod
  get_polling_stations : (election_id : String) → RecordMethod
  create_polling_station : (election_id : String) (station : Value) → RecordMethod

-- `electionId || null`
abbrev text_or_null : Option String → Value
text_or_null none = null
text_or_null (some s) = if truthy s then str s else null

-- The first argument of `request`.
unfoldable pub records_path : RecordMethod → String
records_path (get_results election_id) = "/api/elections/" <> election_id <> "/results"
records_path (run_verification election_id) = "/api/elections/" <> election_id <> "/verify"
records_path (get_ws_ticket election_id?) = "/api/auth/ws-ticket"
records_path (export_election election_id) = "/api/elections/" <> election_id <> "/export"
records_path get_signing_public_key = "/api/signing/public-key"
records_path (sign_election_manifest election_id) =
    "/api/elections/" <> election_id <> "/sign-manifest"
records_path (get_election_anchors election_id) = "/api/elections/" <> election_id <> "/anchors"
records_path (create_election_anchor election_id provider) =
    "/api/elections/" <> election_id <> "/anchors"
records_path (get_election_anomalies election_id) = "/api/elections/" <> election_id <> "/anomalies"
records_path (tap_rfid tap) = "/api/rfid/tap"
records_path get_rfid_demo_cards = "/api/rfid/demo-cards"
records_path (register_voter election_id voter) = "/api/elections/" <> election_id <> "/voters"
records_path (get_voters election_id) = "/api/elections/" <> election_id <> "/voters"
records_path (check_eligibility election_id voter) =
    "/api/elections/" <> election_id <> "/eligibility"
records_path (lookup_voter election_id voter_id_number) =
    "/api/elections/"
    <> election_id
    <> "/voter-lookup?voter_id_number="
    <> encode_uri_component voter_id_number
records_path (get_polling_stations election_id) =
    "/api/elections/" <> election_id <> "/polling-stations"
records_path (create_polling_station election_id station) =
    "/api/elections/" <> election_id <> "/polling-stations"

-- The second.
unfoldable pub records_options : RecordMethod → Options
records_options (run_verification election_id) = without_body "POST"
records_options (get_ws_ticket election_id?) =
    with_body "POST" (obj (field "election_id" (text_or_null election_id?) end))
records_options (sign_election_manifest election_id) = without_body "POST"
records_options (create_election_anchor election_id provider) =
    with_body "POST" (obj (field "provider" (str provider) end))
records_options (tap_rfid tap) = with_body "POST" (tap)
records_options (register_voter election_id voter) = with_body "POST" (voter)
records_options (check_eligibility election_id voter) = with_body "POST" (voter)
records_options (create_polling_station election_id station) = with_body "POST" (station)
records_options _ = no_options

-- The methods that give no token.
unfoldable pub records_anonymous : RecordMethod → Bool
records_anonymous get_signing_public_key = true
records_anonymous (tap_rfid _) = true
records_anonymous get_rfid_demo_cards = true
records_anonymous (check_eligibility _ _) = true
records_anonymous (lookup_voter _ _) = true
records_anonymous _ = false
