-- ===== src/Auth/Session.antt =====
-- dashboard/context/AuthContext.tsx: which user goes with which token.
use secure_vote.Base.{
  ◌≡◌, refl, truthy, String, Bool, true, false, List, [], ◌∷◌, arith, none, some, Option, is_some,
  ◌≢◌,
}
use secure_vote.Api.Json.{Value}
use secure_vote.Api.Client.{Response, Received, returned, threw, rejected, receive}
use secure_vote.Api.Replies.{receive-returned_iff, receive-notified_iff}
use secure_vote.Auth.{
  answer_first, Pending, checking, logging_in, fetching_user, Auth, Site, first_state, logout,
  notify, init_auth, user_checked, token_granted, user_fetched, resume, Event, press_login, lost,
  press_logout, answer, step, run,
}

-- One call under way at most, logins and logouts only while there is none.
abbrev pub IsOrderly : Auth → Event → Type 0
IsOrderly a (answer r) = Unit
IsOrderly a _ = a.pending ≡ []

-- How the calls under way go with the token.
abbrev pub Phase : Auth → List Pending → Type 0
Phase a [] = is_some a.user ≡ true → is_some a.token ≡ true
Phase a (checking s ∷ []) = is_some a.token ≡ true
Phase a (logging_in ∷ []) = is_some a.user ≡ true → is_some a.token ≡ true
Phase a (fetching_user t ∷ []) = is_some a.token ≡ true
Phase a (p ∷ q ∷ ps) = ⊥

-- What a response may be made into: no value comes with the call of the handler.
abbrev pub IsReceived : Bool × Received → Type 0
IsReceived (b, got) = b ≡ true → (v : Value) → got ≢ returned v

pub receive-IsReceived : (token : Option String) (r : Response) → IsReceived (receive true token r)
receive-IsReceived token r h v e =
    let (is_401, _, _) = (receive-notified_iff true token r).0 h in
    let (_, below, _) = (receive-returned_iff true token r v).0 e in omega (arith, is_401, below)

module _ (site : Site) where
  checked-Phase :
      (b : Bool) (got : Received) (a : Auth)
      → IsReceived (b, got)
      → a.pending ≡ []
      → is_some a.token ≡ true
      → let z = user_checked site got (notify site b a) in Phase z z.pending
  unfolding user_checked logout
  checked-Phase true (returned me) a x e h = absurd (x refl me refl)
  checked-Phase false (returned me) a x e h = ground arith
  checked-Phase b (threw t) a x e h = ground arith
  checked-Phase b rejected a x e h = ground arith

  granted-Phase :
      (b : Bool) (got : Received) (a : Auth)
      → IsReceived (b, got)
      → a.pending ≡ []
      → (is_some a.user ≡ true → is_some a.token ≡ true)
      → let z = token_granted site got (notify site b a) in Phase z z.pending
  unfolding token_granted logout
  granted-Phase true (returned me) a x e h = absurd (x refl me refl)
  granted-Phase false (returned me) a x e h = ground arith
  granted-Phase b (threw t) a x e h = ground arith
  granted-Phase b rejected a x e h = ground arith

  fetched-Phase :
      (b : Bool) (got : Received) (a : Auth)
      → IsReceived (b, got)
      → a.pending ≡ []
      → is_some a.token ≡ true
      → let z = user_fetched got (notify site b a) in Phase z z.pending
  unfolding user_fetched logout
  fetched-Phase true (returned me) a x e h = absurd (x refl me refl)
  fetched-Phase false (returned me) a x e h = ground arith
  fetched-Phase b (threw t) a x e h = ground arith
  fetched-Phase b rejected a x e h = ground arith

  answer-Phase :
      (r : Response) (ps : List Pending) (a : Auth)
      → a.pending ≡ ps
      → Phase a ps
      → let z = answer_first site r ps a in Phase z z.pending
  unfolding resume user_checked
  answer-Phase r [] a e h = rw e h
  answer-Phase r (checking s ∷ []) a e h =
      checked-Phase _ _ (record a { pending = [] }) (receive-IsReceived (some s) r) refl h
  answer-Phase r (logging_in ∷ []) a e h =
      granted-Phase _ _ (record a { pending = [] }) (receive-IsReceived none r) refl h
  answer-Phase r (fetching_user t ∷ []) a e h =
      fetched-Phase _ _ (record a { pending = [] }) (receive-IsReceived (some t) r) refl h
  answer-Phase r (p ∷ q ∷ ps) a e h = absurd h

  step-Phase :
      (a : Auth) (e : Event)
      → IsOrderly a e
      → Phase a a.pending
      → let z = step site a e in Phase z z.pending
  unfolding step
  step-Phase a press_login o h = ground arith
  step-Phase a lost o h = ground arith
  step-Phase a (press_logout p) o h = ground arith
  step-Phase a (answer r) o h = answer-Phase r a.pending a refl h

-- Each event at its state.
abbrev pub AreOrderly : Site → Auth → List Event → Type 0
AreOrderly site a [] = Unit
AreOrderly site a (e ∷ es) = IsOrderly a e × AreOrderly site (step site a e) es

run-Phase :
    (site : Site) (a : Auth) (es : List Event)
    → AreOrderly site a es
    → Phase a a.pending
    → let z = run site a es in Phase z z.pending
unfolding run
run-Phase site a [] o h = h
run-Phase site a (e ∷ es) (o, os) h = run-Phase site (step site a e) es os (step-Phase site a e o h)

init_auth-Phase :
    (site : Site) (stored : Option String)
    → let z = init_auth site (first_state site stored) in Phase z z.pending
unfolding init_auth logout
init_auth-Phase site stored = ground arith

settled :
    (a : Auth) (ps : List Pending)
    → a.pending ≡ ps
    → Phase a ps
    → a.pending ≡ []
    → is_some a.user ≡ true
    → is_some a.token ≡ true
settled a [] e h none_left u = h u
settled a (p ∷ ps) e h none_left u = absurd (ground arith)

-- The provider after its start and some events.
abbrev pub session : Site → Option String → List Event → Auth
session site stored es = run site (init_auth site (first_state site stored)) es

-- From the provider's start on, whatever token is stored and whatever the backend answers: if logins,
-- logouts and lost sessions happen only while no call is under way, then, when no call is under way,
-- a user who is signed in has a token.
pub run-user_has_token :
    (site : Site) (stored : Option String) (es : List Event)
    → AreOrderly site (init_auth site (first_state site stored)) es
    → (session site stored es).pending ≡ []
    → is_some (session site stored es).user ≡ true
    → is_some (session site stored es).token ≡ true
run-user_has_token site stored es orderly idle signed_in =
    let start = init_auth site (first_state site stored) in
    let h = run-Phase site start es orderly (init_auth-Phase site stored) in
    settled (run site start es) (run site start es).pending refl h idle signed_in

-- Where localStorage works: a logout, on any page, while the stored token is being checked does not
-- last. If the backend then answers with the user, the user is signed in without a token.
run-logout_undone :
    (site : Site) (saved p : String) (me : Value)
    → site.blocked ≡ false
    → truthy saved ≡ true
    → let r : Response = record { status = 200; json = some me } in
      let a = session site (some saved) (press_logout p ∷ answer r ∷ []) in
      (a.user ≡ some me) × (a.token ≡ none)
unfolding run init_auth receive
run-logout_undone site saved p me works stored = rw (works, stored) (refl, refl)
