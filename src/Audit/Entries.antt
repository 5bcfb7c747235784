-- ===== src/Audit/Entries.antt =====
-- dashboard/app/(officer)/audit/page.tsx: the state of the page, its handlers where nothing else runs,
-- and the entries that it shows; and `isDemoMode` of dashboard/lib/api-client.ts.
use secure_vote.Base.{
  String, Bool, true, false, not, ◌&&◌, ◌||◌, Option, none, some, List, [], ◌∷◌, map, keep, any,
  if◌then◌else◌, or_text, truthy, starts_with, includes, lower_includes, ◌===◌, Reply, ok, failed,
  ◌≡◌, refl,
}
use secure_vote.Types.{ElectionResponse}
use secure_vote.Types.Reports.{AuditEntryResponse, AuditVerificationResponse}
use secure_vote.Types.Export.{ElectionExportResponse}
use secure_vote.Types.Results.{IndependentVerificationResult}
use secure_vote.Officer.{target}
use secure_vote.Audit.{independent_verification}

-- A text that is there and starts with, or includes, another.
abbrev given_starts : Option String → String → Bool
given_starts none t = false
given_starts (some s) t = truthy s && starts_with s t

abbrev given_includes : Option String → String → Bool
given_includes none t = false
given_includes (some s) t = truthy s && includes s t

-- `isDemoMode`, of a record with these two fields.
unfoldable pub is_demo_mode : (voter_credential event_data : Option String) → Bool
is_demo_mode voter_credential event_data =
    given_starts voter_credential "VOTER-SERIAL-"
    || given_includes event_data "VOTER-SERIAL-"
    || given_includes event_data "DEMO-MODE"
    || given_includes event_data "simulated_session_token"

pub record Page : Type 0 where
  pub elections : List ElectionResponse
  pub selected_election_id : String
  pub entries : List AuditEntryResponse
  pub verification : Option AuditVerificationResponse
  pub independent_result : Option IndependentVerificationResult
  pub loading : Bool
  pub verify_loading : Bool
  pub indep_loading : Bool
  pub error : Option String
  pub selected_type : String
  pub filter_demo_only : Bool
  pub search_query : String

-- What the page awaits.
pub record Backend : Type 0 where
  pub get_elections : Reply (List ElectionResponse)
  pub get_audit_log : String → Reply (List AuditEntryResponse)
  pub verify_audit_chain : String → Reply AuditVerificationResponse
  pub export_election : String → Reply ElectionExportResponse

abbrev fetch_failed : String → Page → Page
fetch_failed message p = record p {
  error = some (or_text (some message) "Failed to fetch audit log");
  loading = false;
}

-- `Promise.all` of the two calls; where both fail, the first one's error is taken for the earlier.
abbrev got_both : Reply (List AuditEntryResponse) → Reply AuditVerificationResponse → Page → Page
got_both (ok entries) (ok status) p = record p {
  entries = entries;
  verification = some status;
  loading = false;
}
got_both (ok entries) (failed m) p = fetch_failed m p
got_both (failed m) status p = fetch_failed m p

abbrev load_target : Backend → Option ElectionResponse → Page → Page
load_target b none p = record p { loading = false }
load_target b (some e) p =
    got_both (b.get_audit_log e.id) (b.verify_audit_chain e.id)
      (record p { selected_election_id = e.id })

abbrev got_elections : Backend → String → Reply (List ElectionResponse) → Page → Page
got_elections b election_id (failed m) p = fetch_failed m p
got_elections b election_id (ok all) p =
    load_target b (target election_id all) (record p { elections = all })

unfoldable pub fetch_audit_data : Backend → String → Page → Page
fetch_audit_data b election_id p =
    got_elections b election_id b.get_elections (record p { loading = true; error = none })

abbrev got_status : Reply AuditVerificationResponse → Page → Page
got_status (ok status) p = record p { verification = some status; verify_loading = false }
got_status (failed m) p = record p {
  error = some (or_text (some m) "Verification request failed");
  verify_loading = false;
}

unfoldable pub handle_verify_chain : Backend → Page → Page
handle_verify_chain b p =
    got_status (b.verify_audit_chain p.selected_election_id)
      (record p { verify_loading = true; error = none })

abbrev got_export : Reply ElectionExportResponse → Page → Page
got_export (ok d) p = record p {
  independent_result = some (independent_verification p.selected_election_id d);
  indep_loading = false;
}
got_export (failed m) p = record p {
  error = some (or_text (some m) "Independent verification execution failed");
  indep_loading = false;
}

unfoldable pub handle_run_independent_verification : Backend → Page → Page
handle_run_independent_verification b p =
    got_export (b.export_election p.selected_election_id)
      (record p { indep_loading = true; error = none })

-- `Array.from(new Set(...))`: the first of equal texts stays.
abbrev listed? : String → List String → Bool
listed? t ts = any (λ u. u === t) ts

abbrev distinct_after : List String → List String → List String
distinct_after seen [] = []
distinct_after seen (t ∷ ts) =
    let rest = distinct_after (t ∷ seen) ts in if listed? t seen then rest else t ∷ rest

unfoldable pub event_types : Page → List String
event_types p = "ALL" ∷ distinct_after [] (map (λ e. e.event_type) p.entries)

-- `text?.toLowerCase().includes(q)`
abbrev given_matches : Option String → String → Bool
given_matches none q = false
given_matches (some s) q = lower_includes s q

abbrev matches_query : String → AuditEntryResponse → Bool
matches_query q e =
    given_matches e.actor q
    || given_matches e.device_id q
    || lower_includes e.event_type q
    || given_matches e.event_data q

unfoldable pub is_shown : Page → AuditEntryResponse → Bool
unfolding is_demo_mode
is_shown p e =
    if not (p.selected_type === "ALL") && not (e.event_type === p.selected_type)
    then false
    else if p.filter_demo_only && not (is_demo_mode none e.event_data)
    then false
    else if truthy p.search_query
    then matches_query p.search_query e
    else true

unfoldable pub filtered_entries : Page → List AuditEntryResponse
unfolding is_shown
filtered_entries p = keep (is_shown p) p.entries

-- The verdict on one election stays when another one is loaded: if the verifier has run on the export
-- of the selected election, and then an election is picked that the backend lists and has the audit log
-- and the chain's status of, the page shows that election and its entries, without an error, next to
-- the verdict on the election from before.
fetch_audit_data-keeps_verdict :
    (b : Backend) (p : Page) (d : ElectionExportResponse) (k : String) (es : List ElectionResponse)
    (e : ElectionResponse) (log : List AuditEntryResponse) (status : AuditVerificationResponse)
    → b.export_election p.selected_election_id ≡ ok d
    → b.get_elections ≡ ok es
    → target k es ≡ some e
    → b.get_audit_log e.id ≡ ok log
    → b.verify_audit_chain e.id ≡ ok status
    → let q = fetch_audit_data b k (handle_run_independent_verification b p) in
      (q.selected_election_id ≡ e.id)
      × (q.entries ≡ log)
      × (q.error ≡ none)
      × (q.independent_result ≡ some (independent_verification p.selected_election_id d))
unfolding fetch_audit_data handle_run_independent_verification
fetch_audit_data-keeps_verdict b p d k es e log status exported listed found logged intact =
    rw (exported, listed, found, logged, intact) (refl, refl, refl, refl)
