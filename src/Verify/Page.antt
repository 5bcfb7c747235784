-- ===== src/Verify/Page.antt =====
-- dashboard/app/(public)/verify/page.tsx: the state of the page and its handlers. The reply of
-- `api.exportElection` is an argument; a copy through JSON is the value itself.
use secure_vote.Base.{
  String, Bool, true, false, Option, none, some, List, [], ◌∷◌, if◌then◌else◌, truthy, truthy?, map,
  or_else, Reply, ok, failed, ◌<>◌,
}
use secure_vote.Types.{ElectionResponse, TransparencyOverview}
use secure_vote.Selection.{ListedElection, of_election, of_overview}
use secure_vote.Types.Export.{ElectionExportResponse, BallotExportItem}
use secure_vote.Verify.{CheckStatus, VerificationCheckpoint, RecountedStats, run_verification}

pub record Page : Type 0 where
  pub elections : List ListedElection
  pub loading_elections : Bool
  pub selected_election_id : String
  pub verifying : Bool
  pub export_package : Option ElectionExportResponse
  pub checkpoints : List VerificationCheckpoint
  pub recounted_stats : Option RecountedStats
  pub overall_status : Option CheckStatus
  pub custom_file_loaded : Bool
  pub is_tamper_demo : Bool
  pub alerts : List String

-- `prev || list[0].id`
abbrev pub select_first : String → List ListedElection → String
select_first selected [] = selected
select_first selected (e ∷ es) = if truthy selected then selected else e.id

abbrev show_elections : List ListedElection → Page → Page
show_elections list p = record p {
  elections = list;
  selected_election_id = select_first p.selected_election_id list;
}

-- The public list, if it can be had.
abbrev show_public : Reply (List TransparencyOverview) → Page → Page
show_public (ok os) p = show_elections (map of_overview os) p
show_public (failed m) p = p

abbrev show_mine : List ElectionResponse → Reply (List TransparencyOverview) → Page → Page
show_mine [] public p = show_public public p
show_mine (e ∷ es) public p = show_elections (map of_election (e ∷ es)) p

-- `loadElectionsList`
unfoldable pub load_elections_list :
    Option String → Reply (List ElectionResponse) → Reply (List TransparencyOverview) → Page → Page
load_elections_list token mine public p =
    let list = if truthy? token then or_else mine [] else [] in
    record (show_mine list public p) { loading_elections = false }

-- `err.message || "Unknown error"`
abbrev message_or_unknown : String → String
message_or_unknown m = if truthy m then m else "Unknown error"

-- `runVerificationOnData`, from its start to its end.
unfoldable pub run_verification_on_data : ElectionExportResponse → Page → Page
run_verification_on_data d p =
    let v = run_verification d in
    record p {
      verifying = false;
      export_package = some d;
      checkpoints = v.checkpoints;
      recounted_stats = some v.recounted_stats;
      overall_status = some v.overall_status;
    }

unfoldable pub handle_fetch_and_verify : Reply ElectionExportResponse → Page → Page
handle_fetch_and_verify (ok d) p =
    if truthy p.selected_election_id
    then run_verification_on_data d
        (record p { is_tamper_demo = false; custom_file_loaded = false })
    else p
handle_fetch_and_verify (failed m) p =
    if truthy p.selected_election_id
    then record p {
      verifying = false;
      is_tamper_demo = false;
      alerts = ("Failed to export election data: " <> message_or_unknown m) ∷ p.alerts;
    }
    else p

abbrev pub deadbeef : String
deadbeef = "deadbeef00000000000000000000000000000000000000000000000000000000"

abbrev pub ffffffff : String
ffffffff = "ffffffff00000000000000000000000000000000000000000000000000000000"

unfoldable pub corrupt_first_ballot : List BallotExportItem → List BallotExportItem
corrupt_first_ballot [] = []
corrupt_first_ballot (b ∷ bs) = record b { ballot_hash = ffffffff } ∷ bs

-- The mutated copy: the second audit entry's link, or else the first ballot's hash.
unfoldable pub tamper : ElectionExportResponse → ElectionExportResponse
unfolding corrupt_first_ballot
tamper d = elim d.audit_log [
  | some (e ∷ f ∷ es) ↦ record d {
    audit_log = some (e ∷ record f { previous_hash = some deadbeef } ∷ es);
  }
  | _ ↦ elim d.ballots [
    | some bs ↦ record d { ballots = some (corrupt_first_ballot bs) }
    | none ↦ d
  ]
]

-- The package at hand, or else the one that the backend is asked for.
abbrev package_or :
    Option ElectionExportResponse → Reply ElectionExportResponse → Reply ElectionExportResponse
package_or (some d) reply = ok d
package_or none reply = reply

run_tamper : Reply ElectionExportResponse → Page → Page
unfolding tamper run_verification_on_data
run_tamper (ok d) p = run_verification_on_data (tamper d) (record p { is_tamper_demo = true })
run_tamper (failed m) p = record p {
  verifying = false;
  alerts = ("Failed to run tamper simulation: " <> message_or_unknown m) ∷ p.alerts;
}

unfoldable pub handle_simulate_tamper : Reply ElectionExportResponse → Page → Page
unfolding run_tamper
handle_simulate_tamper reply p =
    if truthy p.selected_election_id then run_tamper (package_or p.export_package reply) p else p

-- The file's text, parsed: `none` where it is no JSON.
unfoldable pub handle_file_upload : Option ElectionExportResponse → Page → Page
unfolding run_verification_on_data
handle_file_upload (some d) p = run_verification_on_data d (record p { custom_file_loaded = true })
handle_file_upload none p = record p { alerts = "Invalid JSON election archive file." ∷ p.alerts }
