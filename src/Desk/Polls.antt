-- ===== src/Desk/Polls.antt =====
-- dashboard/app/(officer)/election: polling/page.tsx and verification/page.tsx.
use secure_vote.Base.{String, Bool, true, false, Option, none, some, List, Reply, ok, failed}
use secure_vote.Types.Reports.{VerificationResponse, SignedManifestResponse}
use secure_vote.Types.Registers.{SessionResponse}
use secure_vote.Desk.{Listing, load}

-- polling/page.tsx
pub record PollingDesk : Type 0 where
  pub sessions : Listing SessionResponse
  pub voter_credential : String
  pub device_id : String
  pub session_token : Option String

abbrev pub authorized :
    Reply SessionResponse
    → Option String
    → (String → Reply (List SessionResponse))
    → PollingDesk
    → PollingDesk
authorized (ok s) election_id get p = record p {
  session_token = some s.session_token;
  voter_credential = "";
  sessions = record (load election_id get p.sessions) { loading = false };
}
authorized (failed m) election_id get p = record p {
  sessions = record p.sessions { error = some m; loading = false };
}

unfoldable pub handle_authorize :
    Option String
    → (String → String → String → Reply SessionResponse)
    → (String → Reply (List SessionResponse))
    → PollingDesk
    → PollingDesk
unfolding load
handle_authorize none authorize get p = p
handle_authorize (some election_id) authorize get p =
    authorized (authorize election_id p.voter_credential p.device_id) (some election_id) get
      (record p {
        session_token = none;
        sessions = record p.sessions { loading = true; error = none };
      })

-- verification/page.tsx
pub record VerificationDesk (Number : Type 0) : Type 0 where
  pub result : Option (VerificationResponse Number)
  pub loading : Bool
  pub error : Option String

module _ {Number : Type 0} where
  abbrev pub verified :
      Reply (VerificationResponse Number) → VerificationDesk Number → VerificationDesk Number
  verified (ok r) p = record p { result = some r; loading = false }
  verified (failed m) p = record p { error = some m; loading = false }

  unfoldable pub handle_verify :
      Option String
      → (String → Reply (VerificationResponse Number))
      → VerificationDesk Number
      → VerificationDesk Number
  handle_verify none run_verification p = p
  handle_verify (some election_id) run_verification p =
      verified (run_verification election_id) (record p { loading = true; error = none })

  abbrev pub signed :
      Reply SignedManifestResponse
      → Option String
      → (String → Reply (VerificationResponse Number))
      → VerificationDesk Number
      → VerificationDesk Number
  signed (ok s) election_id run_verification p =
      record (handle_verify election_id run_verification p) { loading = false }
  signed (failed m) election_id run_verification p = record p { error = some m; loading = false }

  unfoldable pub handle_sign :
      Option String
      → (String → Reply SignedManifestResponse)
      → (String → Reply (VerificationResponse Number))
      → VerificationDesk Number
      → VerificationDesk Number
  unfolding handle_verify
  handle_sign none sign run_verification p = p
  handle_sign (some election_id) sign run_verification p =
      signed (sign election_id) (some election_id) run_verification (record p { loading = true })
