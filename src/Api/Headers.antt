-- ===== src/Api/Headers.antt =====
-- The requests that the methods of `api` send: who they are sent as.
use secure_vote.Base.{
  arith, refl, [], ◌∙◌, Bool, true, false, ◌≡◌, Option, none, some, String, truthy, ◌<>◌, lookup,
  if◌then◌else◌,
}
use secure_vote.Api.Client.{Options, headers_of}
use secure_vote.Api.Elections.{ElectionMethod, election_options}
use secure_vote.Api.Records.{RecordMethod, records_options}
use secure_vote.Api.Services.{ServiceMethod, service_options}
use secure_vote.Api.Calls.{
  Endpoint, elections, records, services, options_of, is_anonymous, request_of,
}

-- The header that a request with the token carries.
abbrev pub authorization : Option String → Option String
authorization none = none
authorization (some t) = if truthy t then some ("Bearer " <> t) else none

-- No method sets headers of its own.
election_options-headers : (e : ElectionMethod) → (election_options e).headers ≡ []
unfolding election_options
election_options-headers e = ground arith

records_options-headers : (e : RecordMethod) → (records_options e).headers ≡ []
unfolding records_options
records_options-headers e = ground arith

service_options-headers : (e : ServiceMethod) → (service_options e).headers ≡ []
unfolding service_options
service_options-headers e = ground arith

options_of-headers : (e : Endpoint) → (options_of e).headers ≡ []
unfolding options_of
options_of-headers (elections e) = election_options-headers e
options_of-headers (records e) = records_options-headers e
options_of-headers (services e) = service_options-headers e

-- The same header, for any options without headers.
headers_of-authorization :
    (token : Option String) (options : Options)
    → options.headers ≡ []
    → lookup "Authorization" (headers_of options token) ≡ authorization token
unfolding headers_of lookup
headers_of-authorization none options e = rw e refl
headers_of-authorization (some t) options e = rw e (ground arith)

authorization-if :
    (b : Bool) (token : Option String)
    → authorization (if b then none else token) ≡ (if b then none else authorization token)
authorization-if true token = refl
authorization-if false token = refl

-- For every base URL, token and method: the request has the header `Authorization: Bearer <token>`
-- if the method passes a token on and the token is not empty, and no such header otherwise.
request_of-authorization :
    (base : String) (token : Option String) (e : Endpoint)
    → lookup "Authorization" (request_of base token e).headers
      ≡ (if is_anonymous e then none else authorization token)
unfolding request_of
request_of-authorization base token e =
    headers_of-authorization (if is_anonymous e then none else token) (options_of e)
      (options_of-headers e)
    ∙ authorization-if (is_anonymous e) token
