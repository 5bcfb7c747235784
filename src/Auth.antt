-- ===== src/Auth.antt =====
-- dashboard/context/AuthContext.tsx: the provider's state, and its functions up to and behind each
-- `await`. The answers of the backend come as responses, which `receive` of the client turns into a
-- value or an error; the user is kept as the value that the backend sent.
pub mod Session
pub mod Lost
pub mod Login
mod Examples
use secure_vote.Base.{
  ℕ, String, Bool, true, false, not, ◌&&◌, ◌||◌, Option, none, some, List, [], ◌∷◌, ◌++◌,
  if◌then◌else◌, truthy, truthy?, ◌===◌, starts_with, or_text,
}
use secure_vote.Api.Json.{Value, str, property?}
use secure_vote.Api.Client.{Response, Received, returned, threw, rejected, receive}

-- A part of a function behind an `await`: of `initAuth`, and of `login`.
pub data Pending : Type 0 where
  checking : (saved : String) → Pending
  logging_in : Pending
  fetching_user : (access_token : String) → Pending

-- `stored` is the token in localStorage, and `pushed` are the routes given to the router, newest first.
pub record Auth : Type 0 where
  pub user : Option Value
  pub token : Option String
  pub is_loading : Bool
  pub stored : Option String
  pub pushed : List String
  pub pending : List Pending

-- What does not change: whether localStorage throws, and the path at which the provider was mounted,
-- which the handler for lost sessions goes on using.
pub record Site : Type 0 where
  pub blocked : Bool
  pub mount_path : String

unfoldable pub is_public : String → Bool
is_public p =
    p === "/"
    || p === "/login"
    || p === "/verify"
    || starts_with p "/voter"
    || starts_with p "/evm"
    || starts_with p "/transparency"

-- The state at the start: the token is read from localStorage.
abbrev pub first_state : Site → Option String → Auth
first_state site stored = record {
  user = none;
  token = if site.blocked then none else stored;
  is_loading = true;
  stored = stored;
  pushed = [];
  pending = [];
}

unfoldable pub logout : Site → String → Auth → Auth
logout site pathname a = record a {
  token = none;
  user = none;
  stored = if site.blocked then a.stored else none;
  pushed = if is_public pathname then a.pushed else "/login" ∷ a.pushed;
}

-- The callback given to `setUnauthorizedHandler`, where the client called it.
abbrev pub notify : Site → Bool → Auth → Auth
notify site b a = if b then logout site site.mount_path a else a

abbrev loaded : Auth → Auth
loaded a = record a { is_loading = false }

-- `initAuth`, up to its `await`.
unfoldable pub init_auth : Site → Auth → Auth
unfolding logout
init_auth site a =
    if site.blocked
    then loaded (logout site site.mount_path a)
    else if truthy? a.stored
    then record a { token = a.stored; pending = a.pending ++ checking (or_text a.stored "") ∷ [] }
    else loaded a

-- The rest of it.
unfoldable pub user_checked : Site → Received → Auth → Auth
unfolding logout
user_checked site (returned me) a = loaded (record a { user = some me })
user_checked site _ a = loaded (logout site site.mount_path a)

unfoldable pub login : Auth → Auth
login a = record a { is_loading = true; pending = a.pending ++ logging_in ∷ [] }

-- `tokenRes.access_token`; what is no text is taken for a failed login.
abbrev access_token : Value → Option String
access_token v = elim (property? "access_token" v) [ str t ↦ some t | _ ↦ none ]

abbrev keep_token : Site → Option String → Auth → Auth
keep_token site none a = loaded a
keep_token site (some t) a = record a {
  token = some t;
  stored = if site.blocked then a.stored else some t;
  pending = a.pending ++ fetching_user t ∷ [];
}

-- `login` behind its first `await`, and behind its second. An error goes to the caller.
unfoldable pub token_granted : Site → Received → Auth → Auth
token_granted site (returned v) a = keep_token site (access_token v) a
token_granted site _ a = loaded a

unfoldable pub user_fetched : Received → Auth → Auth
user_fetched (returned me) a = loaded (record a { user = some me; pushed = "/command" ∷ a.pushed })
user_fetched _ a = loaded a

-- A continuation with the response that it waited for; the client calls the handler first.
unfoldable pub resume : Site → Response → Pending → Auth → Auth
unfolding logout user_checked token_granted user_fetched
resume site r (checking saved) a =
    let (b, got) = receive true (some saved) r in user_checked site got (notify site b a)
resume site r logging_in a =
    let (b, got) = receive true none r in token_granted site got (notify site b a)
resume site r (fetching_user t) a =
    let (b, got) = receive true (some t) r in user_fetched got (notify site b a)

-- `answer r` is the response to the oldest call under way; `press_logout p` is the button on page `p`;
-- `lost` is the handler called by a request of some other page.
pub data Event : Type 0 where
  press_login lost : Event
  press_logout : String → Event
  answer : Response → Event

abbrev pub answer_first : Site → Response → List Pending → Auth → Auth
answer_first site r [] a = a
answer_first site r (p ∷ ps) a = resume site r p (record a { pending = ps })

unfoldable pub step : Site → Auth → Event → Auth
unfolding resume login logout
step site a press_login = login a
step site a lost = logout site site.mount_path a
step site a (press_logout pathname) = logout site pathname a
step site a (answer r) = answer_first site r a.pending a

unfoldable pub run : Site → Auth → List Event → Auth
unfolding step
run site a [] = a
run site a (e ∷ es) = run site (step site a e) es
