-- ===== src/Api/Client.antt =====
-- dashboard/lib/api-client.ts: `request`, in two parts: the request that is sent, and what is made of
-- the response. The network is the response.
use secure_vote.Base.{
  ◌==◌, ◌&&◌, ◌<>◌, leb, decimal, insert, not, ℕ, String, Bool, false, Option, none, some, List, [],
  ◌∷◌, if◌then◌else◌, truthy?, truthy,
}
use secure_vote.Api.Json.{Value, undefined, null, truthy_value, property, to_text}
use secure_vote.Api.FormatError.{Thrown, api_error}

-- `RequestInit`: the fields that the client sets. The body is the value that `JSON.stringify` is
-- applied to.
pub record Options : Type 0 where
  pub method : String
  pub body : Option Value
  pub headers : List (String × String)

-- `{}`: a GET
abbrev pub no_options : Options
no_options = record { method = "GET"; body = none; headers = [] }

abbrev pub with_body : String → Value → Options
with_body m v = record { method = m; body = some v; headers = [] }

abbrev pub without_body : String → Options
without_body m = record { method = m; body = none; headers = [] }

pub record Sent : Type 0 where
  pub url : String
  pub method : String
  pub headers : List (String × String)
  pub body : Option Value

abbrev spread : List (String × String) → List (String × String) → List (String × String)
spread [] headers = headers
spread ((k, v) ∷ rest) headers = spread rest (insert k v headers)

abbrev authorize_headers : Option String → List (String × String) → List (String × String)
authorize_headers none headers = headers
authorize_headers (some t) headers =
    if truthy t then insert "Authorization" ("Bearer " <> t) headers else headers

unfoldable pub headers_of : Options → Option String → List (String × String)
unfolding insert
headers_of options token =
    authorize_headers token (spread options.headers (("Content-Type", "application/json") ∷ []))

unfoldable pub send : (base endpoint : String) → Options → Option String → Sent
unfolding headers_of
send base endpoint options token = record {
  url = base <> endpoint;
  method = options.method;
  headers = headers_of options token;
  body = options.body;
}

-- `json` is `none` when the body is not JSON.
pub record Response : Type 0 where
  pub status : ℕ
  pub json : Option Value

abbrev pub is_ok : ℕ → Bool
is_ok status = leb 200 status && leb status 299

-- `rejected` is an error that is no ApiError: of `response.json()`, or a TypeError.
pub data Received : Type 0 where
  returned : Value → Received
  threw : Thrown → Received
  rejected : Received

abbrev status_text : ℕ → String
status_text status = "Request failed with status " <> decimal status

-- `if (errorData.detail) …`; on null the access throws, and the catch ignores it.
abbrev detail_text : ℕ → Option Value → String
detail_text status none = status_text status
detail_text status (some detail) =
    if truthy_value detail then to_text detail else status_text status

abbrev refuse : ℕ → Option Value → Received
refuse status none = threw (api_error status (status_text status) null)
refuse status (some v) = threw (api_error status (detail_text status (property "detail" v)) v)

abbrev accept : Option Value → Received
accept none = rejected
accept (some v) = returned v

-- Whether `onUnauthorizedCallback` was called, and what the caller of `request` gets; the first
-- argument says whether a callback is set.
unfoldable pub receive : Bool → Option String → Response → Bool × Received
unfolding to_text property decimal
receive callback token response =
    if response.status == 401
    then (
      truthy? token && callback,
      threw (api_error 401 "Session expired or unauthorized. Please log in again." undefined),
    )
    else if not (is_ok response.status)
    then (false, refuse response.status response.json)
    else (false, accept response.json)
