-- ===== src/Types/Reports.antt =====
-- dashboard/lib/types.ts: the audit log, the results of an election and what is published of them.
-- Shares of the vote are JavaScript numbers with a fraction, whose type is a parameter.
use secure_vote.Base.{ℕ, String, Bool, Option, List}

pub record AuditEntryResponse : Type 0 where
  pub id : ℕ
  pub election_id : String
  pub event_type : String
  pub event_data : Option String
  pub actor : Option String
  pub device_id : Option String
  pub sequence_number : ℕ
  pub timestamp : String
  pub previous_hash : Option String
  pub entry_hash : String

pub record AuditVerificationResponse : Type 0 where
  pub election_id : String
  pub total_entries : ℕ
  pub is_intact : Bool
  pub first_broken_sequence : Option ℕ
  pub details : String

pub record ReconciliationResult : Type 0 where
  pub total_ballots : ℕ
  pub sum_candidate_totals : ℕ
  pub sum_device_totals : ℕ
  pub is_exact_match : Bool
  pub status : String

pub record CandidateResult (Number : Type 0) : Type 0 where
  pub candidate_id : String
  pub candidate_name : String
  pub party : Option String
  pub symbol : Option String
  pub vote_count : ℕ
  pub percentage : Number

pub record DeviceResult : Type 0 where
  pub device_id : String
  pub device_name : String
  pub ballot_count : ℕ

pub record ResultManifestResponse (Number : Type 0) : Type 0 where
  pub id : String
  pub election_id : String
  pub total_ballots : ℕ
  pub candidate_totals : String
  pub device_totals : String
  pub reconciliation_status : String
  pub audit_chain_status : String
  pub configuration_hash : String
  pub manifest_hash : String
  pub digital_signature : Option String
  pub generated_at : String
  pub verified_at : Option String
  pub verified_by : Option String
  pub candidate_results : List (CandidateResult Number)
  pub device_results : List DeviceResult
  pub reconciliation : ReconciliationResult

pub record VerificationResponse (Number : Type 0) : Type 0 where
  pub election_id : String
  pub config_hash_valid : Bool
  pub audit_chain_intact : Bool
  pub reconciliation_passed : Bool
  pub tally_independently_verified : Bool
  pub overall_status : String
  pub manifest : Option (ResultManifestResponse Number)
  pub details : List String

-- The named fields of `commitment_receipt`; it may have others.
pub record CommitmentReceipt : Type 0 where
  pub status : String
  pub provider : Option String
  pub timestamp : Option String
  pub receipt_id : Option String

pub record AuditAnchorResponse : Type 0 where
  pub anchor_id : String
  pub election_id : String
  pub provider : String
  pub root_hash : String
  pub anchored_at : String
  pub actor : Option String
  pub commitment_receipt : CommitmentReceipt

-- What is named of `digital_signature`, less the payload that was signed.
pub record DigitalSignature : Type 0 where
  pub algorithm : Option String
  pub key_id : Option String
  pub public_key : Option String
  pub signature : Option String
  pub fingerprint : Option String

pub record SignedManifestResponse : Type 0 where
  pub manifest_id : String
  pub election_id : String
  pub manifest_hash : String
  pub digital_signature : DigitalSignature
  pub signed_at : Option String
  pub signed_by : Option String
