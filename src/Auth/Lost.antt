-- ===== src/Auth/Lost.antt =====
-- dashboard/context/AuthContext.tsx with dashboard/lib/api-client.ts: what a 401 does to the session.
use secure_vote.Base.{◌≡◌, refl, String, Bool, true, false, none, some, truthy, arith}
use secure_vote.Api.Client.{Response, Received, returned, threw, rejected}
use secure_vote.Api.Replies.{receive-notified_iff}
use secure_vote.Auth.Session.{IsReceived, receive-IsReceived}
use secure_vote.Auth.{
  Pending, checking, logging_in, fetching_user, Auth, Site, logout, notify, user_checked,
  user_fetched, resume,
}

-- The token that a call carries.
abbrev pub token_of : Pending → String
token_of (checking saved) = saved
token_of logging_in = ""
token_of (fetching_user t) = t

-- Nobody is signed in, and localStorage has no token where it works.
abbrev pub IsSignedOut : Site → Auth → Type 0
IsSignedOut site a = (a.user ≡ none) × (a.token ≡ none) × (site.blocked ≡ false → a.stored ≡ none)

module _ (site : Site) where
  checked-IsSignedOut :
      (b : Bool) (got : Received) (a : Auth)
      → IsReceived (b, got)
      → b ≡ true
      → IsSignedOut site (user_checked site got (notify site b a))
  unfolding user_checked logout
  checked-IsSignedOut true (returned me) a x h = absurd (x refl me refl)
  checked-IsSignedOut false got a x h = cc h
  checked-IsSignedOut true (threw t) a x h = ground arith
  checked-IsSignedOut true rejected a x h = ground arith

  fetched-IsSignedOut :
      (b : Bool) (got : Received) (a : Auth)
      → IsReceived (b, got)
      → b ≡ true
      → IsSignedOut site (user_fetched got (notify site b a))
  unfolding user_fetched logout
  fetched-IsSignedOut true (returned me) a x h = absurd (x refl me refl)
  fetched-IsSignedOut false got a x h = cc h
  fetched-IsSignedOut true (threw t) a x h = ground arith
  fetched-IsSignedOut true rejected a x h = ground arith

  -- A 401 to a call of the provider that carries a token signs the user out, whichever call it is and
  -- whatever the body says: there is no user and no token after it, and none in localStorage where that
  -- works.
  pub resume-IsSignedOut :
      (r : Response) (p : Pending) (a : Auth)
      → r.status ≡ 401
      → truthy (token_of p) ≡ true
      → IsSignedOut site (resume site r p a)
  unfolding resume
  resume-IsSignedOut r (checking saved) a lost carried =
      checked-IsSignedOut _ _ a (receive-IsReceived (some saved) r)
        ((receive-notified_iff true (some saved) r).1 (lost, carried, refl))
  resume-IsSignedOut r logging_in a lost carried = cc carried
  resume-IsSignedOut r (fetching_user t) a lost carried =
      fetched-IsSignedOut _ _ a (receive-IsReceived (some t) r)
        ((receive-notified_iff true (some t) r).1 (lost, carried, refl))
