-- ===== src/Types/Results.antt =====
-- dashboard/lib/types.ts: the tallies that the backend reports, and the verdict of the audit page.
use secure_vote.Base.{ℕ, String, Bool, List}

pub record IndependentChecks : Type 0 where
  pub export_envelope : Bool
  pub configuration : Bool
  pub ballot_hashes : Bool
  pub ballot_sequence : Bool
  pub candidate_totals : Bool
  pub device_totals : Bool
  pub reconciliation : Bool
  pub audit_chain : Bool
  pub audit_root : Bool
  pub manifest : Bool
  pub signature : Bool
  pub anchor : Bool

pub record IndependentSummary : Type 0 where
  pub election_id : String
  pub total_ballots_recounted : ℕ
  pub candidates_recounted : ℕ
  pub devices_recounted : ℕ
  pub audit_entries_recomputed : ℕ
  pub audit_root_hash : String
  pub reconciliation_drift : ℕ

pub record IndependentVerificationResult : Type 0 where
  pub valid : Bool
  pub checks : IndependentChecks
  pub failures : List String
  pub details : List String
  pub summary : IndependentSummary
