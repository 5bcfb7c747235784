-- ===== src/Api/Calls.antt =====
-- dashboard/lib/api-client.ts: what a method of `api` sends, and what it makes of the answer.
use secure_vote.Base.{String, Bool, Option, none, if◌then◌else◌}
use secure_vote.Api.Json.{Value, undefined, null, str, arr, obj, nil, cons, property?, get_field}
use secure_vote.Api.Client.{Options, Sent, send, Response, Received, receive, returned, rejected}
use secure_vote.Api.Elections.{
  ElectionMethod, election_path, election_options, election_anonymous, get_elections, get_audit_log,
  add_candidate,
}
use secure_vote.Api.Records.{RecordMethod, records_path, records_options, records_anonymous}
use secure_vote.Api.Services.{ServiceMethod, service_path, service_options, service_anonymous}

pub data Endpoint : Type 0 where
  elections : ElectionMethod → Endpoint
  records : RecordMethod → Endpoint
  services : ServiceMethod → Endpoint

unfoldable pub path_of : Endpoint → String
path_of (elections e) = election_path e
path_of (records e) = records_path e
path_of (services e) = service_path e

unfoldable pub options_of : Endpoint → Options
options_of (elections e) = election_options e
options_of (records e) = records_options e
options_of (services e) = service_options e

unfoldable pub is_anonymous : Endpoint → Bool
is_anonymous (elections e) = election_anonymous e
is_anonymous (records e) = records_anonymous e
is_anonymous (services e) = service_anonymous e

-- `Array.isArray(res) ? res : res && Array.isArray(res.k) ? res.k : []`
abbrev pub list_or_field : String → Value → Value
list_or_field k (arr xs) = arr xs
list_or_field k v = elim (property? k v) [ arr xs ↦ arr xs | _ ↦ arr nil ]

-- `res[0]`, which throws on null and undefined.
abbrev pub first_item : Value → Received
first_item undefined = rejected
first_item null = rejected
first_item (arr nil) = returned undefined
first_item (arr (cons v vs)) = returned v
first_item (obj fs) = returned (get_field "0" fs)
first_item (str (String.◌∷◌ c s)) = returned (str (String.◌∷◌ c String.[]))
first_item _ = returned undefined

unfoldable pub answer_of : Endpoint → Value → Received
unfolding get_field
answer_of (elections get_elections) v = returned (list_or_field "elections" v)
answer_of (elections (get_audit_log _)) v = returned (list_or_field "entries" v)
answer_of (elections (add_candidate _ _)) v = first_item v
answer_of _ v = returned v

-- What a method of `api` sends, given the base URL and the token.
unfoldable pub request_of : (base : String) → Option String → Endpoint → Sent
unfolding path_of options_of is_anonymous send
request_of base token e =
    send base (path_of e) (options_of e) (if is_anonymous e then none else token)

abbrev answer : Endpoint → Received → Received
answer e (returned v) = answer_of e v
answer e r = r

-- Whether the callback was called, and what the method's promise settles with.
unfoldable pub call : (callback : Bool) → Option String → Endpoint → Response → Bool × Received
unfolding answer_of is_anonymous receive
call callback token e response =
    let (notified, r) = receive callback (if is_anonymous e then none else token) response in
    (notified, answer e r)
