-- ===== src/Api/Elections.antt =====
-- dashboard/lib/api-client.ts: the methods of `api` for users, health, elections, devices and the audit log, with
-- the path, the options and the token that they give to `request`. Bodies that a method passes on
-- whole are values.
use secure_vote.Base.{String, Bool, true, false, ◌<>◌}
use secure_vote.Types.{ElectionState, state_text}
use secure_vote.Api.Json.{Value, str, arr, obj, nil, cons, end, field}
use secure_vote.Api.Client.{Options, no_options, with_body, without_body}

pub data ElectionMethod : Type 0 where
  login : (username : String) (password : String) → ElectionMethod
  get_me : ElectionMethod
  get_health : ElectionMethod
  get_elections : ElectionMethod
  get_election : (election_id : String) → ElectionMethod
  update_election_state : (election_id : String) (new_state : ElectionState) → ElectionMethod
  add_candidate : (election_id : String) (candidate : Value) → ElectionMethod
  delete_candidate : (election_id : String) (candidate_id : String) → ElectionMethod
  get_devices : (election_id : String) → ElectionMethod
  register_device : (election_id : String) (device : Value) → ElectionMethod
  update_device_status :
      (election_id : String) (device_id : String) (status : String) → ElectionMethod
  get_audit_log : (election_id : String) → ElectionMethod
  verify_audit_chain : (election_id : String) → ElectionMethod

-- The first argument of `request`.
unfoldable pub election_path : ElectionMethod → String
election_path (login username password) = "/api/auth/login"
election_path get_me = "/api/auth/me"
election_path get_health = "/api/health"
election_path get_elections = "/api/elections"
election_path (get_election election_id) = "/api/elections/" <> election_id
election_path (update_election_state election_id new_state) =
    "/api/elections/" <> election_id <> "/state"
election_path (add_candidate election_id candidate) =
    "/api/elections/" <> election_id <> "/candidates"
election_path (delete_candidate election_id candidate_id) =
    "/api/v1/elections/" <> election_id <> "/candidates/" <> candidate_id
election_path (get_devices election_id) = "/api/elections/" <> election_id <> "/devices"
election_path (register_device election_id device) = "/api/elections/" <> election_id <> "/devices"
election_path (update_device_status election_id device_id status) =
    "/api/elections/" <> election_id <> "/devices/" <> device_id <> "/status"
election_path (get_audit_log election_id) = "/api/elections/" <> election_id <> "/audit"
election_path (verify_audit_chain election_id) = "/api/elections/" <> election_id <> "/audit/verify"

-- The second.
unfoldable pub election_options : ElectionMethod → Options
election_options (login username password) =
    with_body "POST" (obj (field "username" (str username) (field "password" (str password) end)))
election_options (update_election_state election_id new_state) =
    with_body "PATCH" (obj (field "new_state" (str (state_text new_state)) end))
election_options (add_candidate election_id candidate) =
    with_body "POST" (obj (field "candidates" (arr (cons candidate nil)) end))
election_options (delete_candidate election_id candidate_id) = without_body "DELETE"
election_options (register_device election_id device) = with_body "POST" (device)
election_options (update_device_status election_id device_id status) =
    with_body "PATCH" (obj (field "status" (str status) end))
election_options _ = no_options

-- The methods that give no token.
unfoldable pub election_anonymous : ElectionMethod → Bool
election_anonymous (login _ _) = true
election_anonymous get_health = true
election_anonymous _ = false
