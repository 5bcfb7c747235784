-- ===== src/Officer/Results.antt =====
-- dashboard/app/(officer)/results/page.tsx: the state of the page, its loading in the pieces between
-- two `await`s, and the handlers. The backend's answers are an argument.
use secure_vote.Base.{
  String, Bool, true, false, not, Option, none, some, List, [], if◌then◌else◌, or_text, truthy?,
  Reply, ok, failed, or_else,
}
use secure_vote.Types.{Role, admin, auditor, observer, ElectionResponse}
use secure_vote.Types.Reports.{VerificationResponse, AuditAnchorResponse, SignedManifestResponse}
use secure_vote.Officer.{target}

module _ (Number : Type 0) where
  pub record Page : Type 0 where
    pub elections : List ElectionResponse
    pub selected_election_id : String
    pub results : Option (VerificationResponse Number)
    pub anchors : List AuditAnchorResponse
    pub loading : Bool
    pub verify_loading : Bool
    pub sign_loading : Bool
    pub anchor_loading : Bool
    pub error : Option String
    pub action_success : Option String

  -- What the calls of the page come back with.
  pub record Backend : Type 0 where
    pub get_elections : Reply (List ElectionResponse)
    pub get_results : String → Reply (VerificationResponse Number)
    pub get_election_anchors : String → Reply (List AuditAnchorResponse)

abbrev pub initial : (Number : Type 0) → Page Number
initial Number = record {
  elections = [];
  selected_election_id = "EV-2026-001";
  results = none;
  anchors = [];
  loading = true;
  verify_loading = false;
  sign_loading = false;
  anchor_loading = false;
  error = none;
  action_success = none;
}

-- The call that a fetch waits for.
pub data Call : Type 0 where
  elections_for : String → Call
  results_of : String → Call
  anchors_of : String → Call

-- The roles that the handler lets through.
abbrev pub may_verify : Option Role → Bool
may_verify (some admin) = true
may_verify (some auditor) = true
may_verify (some observer) = false
may_verify none = false

module _ {Number : Type 0} where
  unfoldable pub begin_fetch : Page Number → Page Number
  begin_fetch p = record p { loading = true; error = none }

  -- `catch` and `finally`
  abbrev pub fetch_failed : String → Page Number → Page Number
  fetch_failed message p = record p {
    error = some (or_text (some message) "Failed to load independent results");
    loading = false;
  }

  abbrev pub to_target : Option ElectionResponse → Page Number → Page Number × Option Call
  to_target none p = (record p { loading = false }, none)
  to_target (some e) p = (record p { selected_election_id = e.id }, some (results_of e.id))

  unfoldable pub got_elections :
      String → Reply (List ElectionResponse) → Page Number → Page Number × Option Call
  got_elections election_id (failed m) p = (fetch_failed m p, none)
  got_elections election_id (ok all) p =
      to_target (target election_id all) (record p { elections = all })

  unfoldable pub got_results :
      String → Reply (VerificationResponse Number) → Page Number → Page Number × Option Call
  got_results k (failed m) p = (fetch_failed m p, none)
  got_results k (ok r) p = (record p { results = some r }, some (anchors_of k))

  unfoldable pub got_anchors :
      Reply (List AuditAnchorResponse) → Page Number → Page Number × Option Call
  got_anchors r p = (record p { anchors = or_else r []; loading = false }, none)

  -- The next piece of a fetch, behind the call that it waited for.
  unfoldable pub resume : Backend Number → Call → Page Number → Page Number × Option Call
  unfolding got_elections got_results got_anchors
  resume b (elections_for k) p = got_elections k b.get_elections p
  resume b (results_of k) p = got_results k (b.get_results k) p
  resume b (anchors_of k) p = got_anchors (b.get_election_anchors k) p

  abbrev pub resume_next : Backend Number → Page Number × Option Call → Page Number × Option Call
  resume_next b (p, none) = (p, none)
  resume_next b (p, some c) = resume b c p

  -- The whole of `fetchResults`, where nothing else runs: three calls at most.
  unfoldable pub fetch_results : Backend Number → String → Page Number → Page Number
  unfolding begin_fetch resume
  fetch_results b election_id p =
      (resume_next b (resume_next b (resume b (elections_for election_id) (begin_fetch p)))).0

  -- The start of `handleRunVerification`: the page, and the election whose verification is awaited.
  unfoldable pub begin_verification :
      Option String → Option Role → Page Number → Page Number × Option String
  begin_verification token role p =
      if not (truthy? token)
      then (p, none)
      else if not (may_verify role)
      then (
        record p {
          error = some "Forbidden: Only ADMIN or AUDITOR roles can run formal verification.";
        },
        none,
      )
      else (
        record p { verify_loading = true; error = none; action_success = none },
        some p.selected_election_id,
      )

  abbrev pub verified : Reply (VerificationResponse Number) → Page Number → Page Number
  verified (ok r) p = record p {
    results = some r;
    action_success = some "Verification and manifest generation completed successfully.";
    verify_loading = false;
  }
  verified (failed m) p = record p {
    error = some (or_text (some m) "Independent verification execution failed");
    verify_loading = false;
  }

  abbrev verify_begun :
      (String → Reply (VerificationResponse Number)) → Page Number × Option String → Page Number
  verify_begun run_verification (p, none) = p
  verify_begun run_verification (p, some k) = verified (run_verification k) p

  -- The whole of `handleRunVerification`, where nothing else runs.
  unfoldable pub handle_run_verification :
      Option String
      → Option Role
      → (String → Reply (VerificationResponse Number))
      → Page Number
      → Page Number
  unfolding begin_verification
  handle_run_verification token role run_verification p =
      verify_begun run_verification (begin_verification token role p)

  unfoldable pub begin_signing : Option String → Page Number → Page Number × Option String
  begin_signing token p = if not (truthy? token) then (p, none) else (
    record p { sign_loading = true; error = none; action_success = none },
    some p.selected_election_id,
  )

  abbrev pub signing_failed : String → Page Number → Page Number
  signing_failed m p = record p {
    error = some (or_text (some m) "Manifest digital signing failed");
    sign_loading = false;
  }

  -- What follows the fetch after a signature. The fetch does not throw: it always runs.
  abbrev pub signing_done : Page Number → Page Number
  signing_done p = record p {
    action_success = some "Result manifest digitally signed with Ed25519.";
    sign_loading = false;
  }

  abbrev signed : String → Reply SignedManifestResponse → Backend Number → Page Number → Page Number
  signed k (ok _) b p = signing_done (fetch_results b k p)
  signed k (failed m) b p = signing_failed m p

  abbrev sign_begun :
      (String → Reply SignedManifestResponse)
      → Backend Number
      → Page Number × Option String
      → Page Number
  sign_begun sign_election_manifest b (p, none) = p
  sign_begun sign_election_manifest b (p, some k) = signed k (sign_election_manifest k) b p

  -- The whole of `handleSignManifest`, where nothing else runs.
  unfoldable pub handle_sign_manifest :
      Option String
      → (String → Reply SignedManifestResponse)
      → Backend Number
      → Page Number
      → Page Number
  unfolding fetch_results begin_signing
  handle_sign_manifest token sign_election_manifest b p =
      sign_begun sign_election_manifest b (begin_signing token p)

  unfoldable pub begin_anchoring : Option String → Page Number → Page Number × Option String
  begin_anchoring token p = if not (truthy? token) then (p, none) else (
    record p { anchor_loading = true; error = none; action_success = none },
    some p.selected_election_id,
  )

  abbrev pub anchoring_failed : String → Page Number → Page Number
  anchoring_failed m p = record p {
    error = some (or_text (some m) "Audit root anchoring failed");
    anchor_loading = false;
  }

  abbrev pub anchoring_done : Page Number → Page Number
  anchoring_done p = record p {
    action_success = some "Audit root anchored successfully (LOCAL ANCHOR).";
    anchor_loading = false;
  }

  abbrev anchored : String → Reply AuditAnchorResponse → Backend Number → Page Number → Page Number
  anchored k (ok _) b p = anchoring_done (fetch_results b k p)
  anchored k (failed m) b p = anchoring_failed m p

  abbrev anchor_begun :
      (String → Reply AuditAnchorResponse)
      → Backend Number
      → Page Number × Option String
      → Page Number
  anchor_begun create_election_anchor b (p, none) = p
  anchor_begun create_election_anchor b (p, some k) = anchored k (create_election_anchor k) b p

  -- The whole of `handleAnchorRoot`, where nothing else runs.
  unfoldable pub handle_anchor_root :
      Option String
      → (String → Reply AuditAnchorResponse)
      → Backend Number
      → Page Number
      → Page Number
  unfolding fetch_results begin_anchoring
  handle_anchor_root token create_election_anchor b p =
      anchor_begun create_election_anchor b (begin_anchoring token p)
