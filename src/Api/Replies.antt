-- ===== src/Api/Replies.antt =====
-- What a caller of `request` gets: a value, an ApiError, or the notice of a 401.
use secure_vote.Base.{
  ◌≡◌, refl, ◌↔◌, ◌≤◌, Bool, true, false, Option, some, String, truthy?, ==_iff, ◌==◌, arith, sym,
  ◌∙◌, if◌then◌else◌, ◌&&◌, and_iff,
}
use secure_vote.Api.Json.{Value}
use secure_vote.Api.Client.{Response, Received, returned, receive}

-- The second part of the result of `receive`: what the caller gets.
abbrev pub outcome : Bool × Received → Received
outcome (notified, r) = r

abbrev pub notified_of : Bool × Received → Bool
notified_of (notified, r) = notified

-- `request` resolves to a value exactly when the status is 200 to 299 and the body is that value as
-- JSON.
pub receive-returned_iff :
    (callback : Bool) (token : Option String) (response : Response) (v : Value)
    → outcome (receive callback token response) ≡ returned v
      ↔ (200 ≤ response.status) × (response.status ≤ 299) × response.json ≡ some v
unfolding receive
receive-returned_iff callback token response v = grind arith

notified-if :
    (a b n : Bool) (x y z : Received)
    → notified_of (if a then (n, x) else if b then (false, y) else (false, z)) ≡ (a && n)
notified-if true b n x y z = refl
notified-if false true n x y z = refl
notified-if false false n x y z = refl

notified_lem :
    (callback : Bool) (token : Option String) (response : Response)
    → notified_of (receive callback token response)
      ≡ ((response.status == 401) && (truthy? token && callback))
unfolding receive
notified_lem callback token response = search notified-if

-- The callback for lost sessions is called exactly when the status is 401, the request had a token
-- that is not empty, and a callback is set.
pub receive-notified_iff :
    (callback : Bool) (token : Option String) (response : Response)
    → notified_of (receive callback token response) ≡ true
      ↔ (response.status ≡ 401) × truthy? token ≡ true × callback ≡ true
receive-notified_iff callback token response =
    let (to, from) = ==_iff response.status 401 in
    let (to', from') = and_iff (response.status == 401) (truthy? token && callback) in
    let (to'', from'') = and_iff (truthy? token) callback in
    let called = notified_lem callback token response in
    (
      λ q. let (lost, held) = to' (sym called ∙ q) in let (t, c) = to'' held in (to lost, t, c),
      λ (q, t, c). called ∙ from' (from q, from'' (t, c)),
    )
