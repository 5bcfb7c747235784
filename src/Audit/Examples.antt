-- ===== src/Audit/Examples.antt =====
-- The theorems on the audit page at a small archive.
use secure_vote.Base.{
  ◌≡◌, refl, ◌↔◌, true, [], ◌∷◌, some, Perm, sort_by, none, String, false, List, ok, lower_includes,
}
use mathlib.Core.List.Perm
use secure_vote.Types.{closed}
use secure_vote.Types.Reports.{AuditEntryResponse, AuditVerificationResponse}
use secure_vote.Types.Samples.{sample_election}
use secure_vote.Officer.{target}
use secure_vote.Audit.Entries.{Page, Backend, event_types, filtered_entries, is_shown, is_demo_mode}
use secure_vote.Verify.{ballots_of, audit_log_of, reconciliation_passed}
use secure_vote.Verify.Checks.{sequences_valid}
use secure_vote.Verify.Samples.{archive, opened_entry, closed_entry}
use secure_vote.Audit.{audit_chain_valid, checks, independent_verification}
use secure_vote.Audit.Agreement.{checks-agree}
use secure_vote.Audit.Chain.{checks_of_perm}
use secure_vote.Audit.Verdict.{IsVerified, independent_verification-valid_iff}

independent_verification-valid_iff_example :
    ((independent_verification "E" archive).valid ≡ true) ↔ IsVerified archive
independent_verification-valid_iff_example = independent_verification-valid_iff "E" archive

checks-agree_example :
    ((checks archive).ballot_sequence ≡ sequences_valid (ballots_of archive))
    × ((checks archive).candidate_totals ≡ reconciliation_passed archive)
checks-agree_example = checks-agree archive

archive-chained : (checks archive).audit_chain ≡ true
unfolding checks audit_chain_valid sort_by
archive-chained = refl

swapped : Perm (audit_log_of archive) (closed_entry ∷ opened_entry ∷ [])
swapped = Perm.swap closed_entry opened_entry []

checks_of_perm_example :
    checks (record archive { audit_log = some (closed_entry ∷ opened_entry ∷ []) }) ≡ checks archive
checks_of_perm_example =
    checks_of_perm archive (closed_entry ∷ opened_entry ∷ []) swapped archive-chained

abbrev intact : String → AuditVerificationResponse
intact k = record {
  election_id = k;
  total_entries = 0;
  is_intact = true;
  first_broken_sequence = none;
  details = "";
}

-- A backend with two elections, which exports the small archive for each.
abbrev backend : Backend
backend = record {
  get_elections = ok (sample_election "E1" closed ∷ sample_election "E2" closed ∷ []);
  get_audit_log = λ k. ok [];
  verify_audit_chain = λ k. ok (intact k);
  export_election = λ k. ok archive;
}

abbrev page : Page
page = record {
  elections = [];
  selected_election_id = "E1";
  entries = [];
  verification = none;
  independent_result = none;
  loading = false;
  verify_loading = false;
  indep_loading = false;
  error = none;
  selected_type = "ALL";
  filter_demo_only = false;
  search_query = "";
}

second_target :
    target "E2" (sample_election "E1" closed ∷ sample_election "E2" closed ∷ [])
    ≡ some (sample_election "E2" closed)
unfolding target
second_target = refl

abbrev entry : String → String → AuditEntryResponse
entry type content = record {
  id = 1;
  election_id = "E1";
  event_type = type;
  event_data = some content;
  actor = none;
  device_id = none;
  sequence_number = 1;
  timestamp = "";
  previous_hash = none;
  entry_hash = "";
}

abbrev page_with : List AuditEntryResponse → Page
page_with es = record page { entries = es }

event_types_test :
    event_types (page_with (entry "VOTE" "" ∷ entry "LOCK" "" ∷ entry "VOTE" "" ∷ []))
    ≡ "ALL" ∷ "VOTE" ∷ "LOCK" ∷ []
unfolding event_types
event_types_test = refl

filtered_entries_test :
    (filtered_entries (record (page_with (entry "VOTE" "DEMO-MODE" ∷ entry "VOTE" "" ∷ [])) {
      filter_demo_only = true;
    })
      ≡ entry "VOTE" "DEMO-MODE" ∷ [])
    × (filtered_entries
          (record (page_with (entry "VOTE" "a" ∷ entry "LOCK" "b" ∷ [])) { search_query = "lock" })
        ≡ entry "LOCK" "b" ∷ [])
unfolding filtered_entries is_shown is_demo_mode lower_includes
filtered_entries_test = (refl, refl)
