-- ===== src/Auth/Examples.antt =====
-- The theorems on the provider in single runs.
use secure_vote.Base.{◌≡◌, refl, true, false, some, List, [], ◌∷◌, is_some}
use secure_vote.Api.Json.{str}
use secure_vote.Api.Client.{Response, receive}
use secure_vote.Auth.Lost.{IsSignedOut, resume-IsSignedOut}
use secure_vote.Auth.{checking, first_state, resume, Site, init_auth, Event, answer, run}
use secure_vote.Auth.Session.{session, run-user_has_token}

abbrev site : Site
site = record { blocked = false; mount_path = "/command" }

abbrev signed_in : List Event
signed_in = answer (record { status = 200; json = some (str "admin") }) ∷ []

idle : (session site (some "T") signed_in).pending ≡ []
unfolding run init_auth receive
idle = refl

has_user : is_some (session site (some "T") signed_in).user ≡ true
unfolding run init_auth receive
has_user = refl

run-user_has_token_example : is_some (session site (some "T") signed_in).token ≡ true
run-user_has_token_example = run-user_has_token site (some "T") signed_in (tt, tt) idle has_user

abbrev expired : Response
expired = record { status = 401; json = some (str "Unauthorized") }

resume-IsSignedOut_example :
    IsSignedOut site (resume site expired (checking "T") (first_state site (some "T")))
resume-IsSignedOut_example =
    resume-IsSignedOut site expired (checking "T") (first_state site (some "T")) refl refl
