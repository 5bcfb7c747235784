-- ===== src/Types/Export.antt =====
-- dashboard/lib/types.ts: the archive of an election that the verifiers read. An archive can be any
-- uploaded file, so the top-level fields that the code tests before it uses them are options here.
use secure_vote.Base.{ℕ, String, Option, List}

pub record BallotExportItem : Type 0 where
  pub id : String
  pub session_id : String
  pub device_id : String
  pub candidate_id : String
  pub sequence_number : ℕ
  pub ballot_hash : String
  pub recorded_at : String

pub data AuditId : Type 0 where
  number : ℕ → AuditId
  string : String → AuditId

pub record AuditExportItem : Type 0 where
  pub id : AuditId
  pub sequence_number : ℕ
  pub event_type : String
  pub event_data : Option String
  pub actor : Option String
  pub device_id : Option String
  pub timestamp : String
  pub previous_hash : Option String
  pub entry_hash : String

pub record DeviceExportItem : Type 0 where
  pub id : String
  pub name : String
  pub status : String
  pub last_sequence_number : ℕ
  pub total_votes_cast : ℕ
  pub registered_at : String
  pub activated_at : Option String
  pub last_seen_at : Option String

pub record CandidateExportItem : Type 0 where
  pub id : String
  pub name : String
  pub party : Option String
  pub symbol : Option String
  pub position : ℕ

pub record ElectionExportMeta : Type 0 where
  pub id : String
  pub name : String
  pub description : Option String
  pub state : String
  pub configuration_hash : Option String
  pub total_ballots : ℕ
  pub created_at : String
  pub locked_at : Option String
  pub opened_at : Option String
  pub closed_at : Option String
  pub published_at : Option String

-- What the verifiers read of `manifest: any | null`.
pub record ExportManifest : Type 0 where
  pub total_ballots : Option ℕ
  pub digital_signature : Option String

pub record ElectionExportResponse : Type 0 where
  pub export_version : Option String
  pub exported_at : Option String
  pub election : Option ElectionExportMeta
  pub candidates : Option (List CandidateExportItem)
  pub devices : Option (List DeviceExportItem)
  pub ballots : Option (List BallotExportItem)
  pub audit_log : Option (List AuditExportItem)
  pub manifest : Option ExportManifest
  pub export_hash : Option String
