-- ===== src/Verify.antt =====
-- dashboard/app/(public)/verify/page.tsx: the third-party verifier. `run_verification` is the pure
-- part of `runVerificationOnData`; `Page` is the component's state, and the handlers take the reply
-- of the backend as an argument. `alert` and the 600 ms pause show nothing of the verdict.
pub mod Checks
pub mod Page
pub mod Sequences
pub mod Tallies
pub mod Counts
pub mod Verdict
pub mod Box
pub mod Tamper
pub mod Samples
mod Examples
use secure_vote.Base.{
  ℕ, zero, ◌+◌, ◌-◌, ◌<◌, String, Bool, true, false, ◌&&◌, Option, none, some, List, [], ◌∷◌, ◌++◌,
  ltb, ◌==◌, if◌then◌else◌, truthy, truthy?, or_text, ◌<>◌, take_text, decimal, is_some, get_or,
  sum_values, length,
}
use secure_vote.Types.Export.{
  ElectionExportResponse, BallotExportItem, AuditExportItem, CandidateExportItem, ExportManifest,
}
use Checks.{
  ballot_hashes_valid, device_sequences, sequences_valid, candidate_recount, device_recount,
  audit_chain_valid,
}

pub data CheckStatus : Type 0 where
  passed failed pending : CheckStatus

pub record VerificationCheckpoint : Type 0 where
  pub id : String
  pub name : String
  pub description : String
  pub status : CheckStatus
  pub details : String

pub record RecountedStats : Type 0 where
  pub ballots : ℕ
  pub candidates_count : ℕ
  pub devices_count : ℕ
  pub audit_entries : ℕ
  pub reconciliation_drift : ℕ

pub record Verification : Type 0 where
  pub checkpoints : List VerificationCheckpoint
  pub recounted_stats : RecountedStats
  pub overall_status : CheckStatus

abbrev pub passed_if : Bool → CheckStatus
passed_if b = if b then passed else failed

-- `Math.abs(a - b)`
abbrev pub abs_diff : ℕ → ℕ → ℕ
abs_diff a b = if ltb a b then b - a else a - b

-- Checkpoint 1. An empty array is truthy, so only its presence counts.
unfoldable pub has_envelope : ElectionExportResponse → Bool
has_envelope d =
    truthy? d.export_version && is_some d.election && is_some d.ballots && is_some d.audit_log

-- `data.election?.configuration_hash`
abbrev pub configuration_hash? : ElectionExportResponse → Option String
configuration_hash? d = elim d.election [ none ↦ none | some e ↦ e.configuration_hash ]

-- `data.manifest?.digital_signature`
abbrev pub digital_signature? : ElectionExportResponse → Option String
digital_signature? d = elim d.manifest [ none ↦ none | some m ↦ m.digital_signature ]

abbrev pub ballots_of : ElectionExportResponse → List BallotExportItem
ballots_of d = get_or d.ballots []

abbrev pub candidates_of : ElectionExportResponse → List CandidateExportItem
candidates_of d = get_or d.candidates []

abbrev pub audit_log_of : ElectionExportResponse → List AuditExportItem
audit_log_of d = get_or d.audit_log []

unfoldable pub reconciliation_passed : ElectionExportResponse → Bool
reconciliation_passed d =
    length (ballots_of d) == sum_values (candidate_recount (candidates_of d) (ballots_of d))
    && length (ballots_of d) == sum_values (device_recount (ballots_of d))

-- The flag `allPassed` after all nine checkpoints.
unfoldable pub all_passed : ElectionExportResponse → Bool
unfolding has_envelope reconciliation_passed
all_passed d =
    has_envelope d
    && truthy? (configuration_hash? d)
    && ballot_hashes_valid (ballots_of d)
    && sequences_valid (ballots_of d)
    && reconciliation_passed d
    && audit_chain_valid (audit_log_of d)
    && is_some d.manifest

-- `data.candidates?.length` in a template: "undefined" where there is no such field.
candidates_text : ElectionExportResponse → String
candidates_text d = elim d.candidates [ none ↦ "undefined" | some cs ↦ decimal (length cs) ]

checkpoints_of : ElectionExportResponse → List VerificationCheckpoint
unfolding has_envelope reconciliation_passed candidates_text
checkpoints_of d =
    let ballots = ballots_of d in
    let hash = truthy? (configuration_hash? d) in
    let hashes = ballot_hashes_valid ballots in
    let seq = sequences_valid ballots in
    let sum_candidates = sum_values (candidate_recount (candidates_of d) ballots) in
    let sum_devices = sum_values (device_recount ballots) in
    let total = length ballots in
    let chain = audit_chain_valid (audit_log_of d) in
    let signed = truthy? (digital_signature? d) in
    record {
      id = "envelope";
      name = "1. Export Envelope Integrity";
      description = "Validates archive structure, version metadata, and root export hash";
      status = passed_if (has_envelope d);
      details =
          if has_envelope d
          then "Version " <> or_text d.export_version "" <> " package format verified"
          else "Missing required top-level export keys";
    }
    ∷ record {
      id = "config_hash";
      name = "2. Candidate Roster & Configuration Hash";
      description = "Verifies frozen candidate roster against SHA-256 configuration fingerprint";
      status = passed_if hash;
      details =
          if hash
          then "Configuration hash: "
            <> take_text 16 (or_text (configuration_hash? d) "")
            <> "... ("
            <> decimal (length (candidates_of d))
            <> " candidates)"
          else "Configuration hash missing from export metadata";
    }
    ∷ record {
      id = "ballot_hashes";
      name = "3. Ballot Cryptographic Hashes";
      description =
          "Recomputes SHA-256 hash for every raw ballot: SHA-256(election:session:device:candidate:sequence)";
      status = passed_if hashes;
      details =
          if hashes
          then "All " <> decimal total <> " individual ballot hashes verified intact"
          else "Found corrupted ballot hash";
    }
    ∷ record {
      id = "device_sequence";
      name = "4. Device Sequence Continuity";
      description =
          "Ensures strictly monotonic sequence numbers per device to prevent replay attacks";
      status = passed_if seq;
      details =
          if seq
          then "Monotonic sequence confirmed across "
            <> decimal (length (device_sequences [] ballots))
            <> " devices"
          else "Found duplicate or decreasing sequence numbers";
    }
    ∷ record {
      id = "candidate_totals";
      name = "5. Independent Candidate Tally";
      description = "Re-aggregates votes cast directly from individual raw ballot records";
      status = passed;
      details =
          "Independently tallied "
          <> decimal total
          <> " ballots across "
          <> candidates_text d
          <> " candidates";
    }
    ∷ record {
      id = "device_totals";
      name = "6. Device-Level Ballot Counts";
      description = "Re-aggregates ballots submitted per physical / simulated hardware device";
      status = passed;
      details =
          "Reconstructed device totals across "
          <> decimal (length (device_recount ballots))
          <> " registered units";
    }
    ∷ record {
      id = "reconciliation";
      name = "7. Full Record Reconciliation";
      description = "Verifies total ballots == sum(candidate tallies) == sum(device contributions)";
      status = passed_if (reconciliation_passed d);
      details =
          if reconciliation_passed d
          then "Zero drift: Total ("
            <> decimal total
            <> ") == Candidates ("
            <> decimal sum_candidates
            <> ") == Devices ("
            <> decimal sum_devices
            <> ")"
          else "Drift detected: Difference of "
            <> decimal (abs_diff total sum_candidates)
            <> " ballots";
    }
    ∷ record {
      id = "audit_chain";
      name = "8. Tamper-Evident Audit Hash Chain";
      description =
          "Recomputes continuous SHA-256 hash chaining across all chronological event entries";
      status = passed_if chain;
      details =
          if chain
          then "Cryptographic continuity validated for all "
            <> decimal (length (audit_log_of d))
            <> " events from genesis"
          else "Hash mismatch detected in audit chain link";
    }
    ∷ record {
      id = "digital_signature";
      name = "9. Result Manifest & Ed25519 Signature";
      description = "Validates canonical manifest hash and verifies digital signature authenticity";
      status = if signed then passed else if is_some d.manifest then pending else failed;
      details =
          if signed
          then "Valid Ed25519 digital signature verified against published SecureVOTE authority key"
          else if is_some d.manifest
          then "Manifest present but unsigned"
          else "Manifest not yet generated";
    }
    ∷ []

unfoldable pub run_verification : ElectionExportResponse → Verification
unfolding all_passed checkpoints_of
run_verification d =
    let ballots = ballots_of d in
    record {
      checkpoints = checkpoints_of d;
      recounted_stats = record {
        ballots = length ballots;
        candidates_count = length (candidates_of d);
        devices_count = length (device_recount ballots);
        audit_entries = length (audit_log_of d);
        reconciliation_drift =
            abs_diff (length ballots) (sum_values (candidate_recount (candidates_of d) ballots));
      };
      overall_status = passed_if (all_passed d);
    }
