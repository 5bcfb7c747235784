-- ===== src/Types/Registers.antt =====
-- dashboard/lib/types.ts: the electoral roll, the polling stations, complaints and card taps.
use secure_vote.Base.{ℕ, String, Bool, Option, List}

pub record VoterResponse : Type 0 where
  pub id : String
  pub election_id : String
  pub voter_id_number : String
  pub name : String
  pub date_of_birth : String
  pub constituency : String
  pub polling_station_id : Option String
  pub eligibility_status : String
  pub registration_status : String
  pub has_voted : Bool
  pub registered_at : String

pub record PollingStationResponse : Type 0 where
  pub id : String
  pub election_id : String
  pub station_code : String
  pub name : String
  pub constituency : String
  pub location : String
  pub assigned_devices : ℕ
  pub registered_voters : ℕ
  pub votes_cast : ℕ
  pub status : String
  pub officer_name : Option String
  pub created_at : String

pub record ComplaintResponse : Type 0 where
  pub id : String
  pub election_id : Option String
  pub reference_number : String
  pub category : String
  pub description : String
  pub complainant_name : String
  pub complainant_contact : Option String
  pub status : String
  pub assigned_officer : Option String
  pub resolution_notes : Option String
  pub created_at : String
  pub updated_at : String

pub data EligibilityStatus : Type 0 where
  eligible not_eligible needs_review : EligibilityStatus

pub record EligibilityCheckResponse : Type 0 where
  pub status : EligibilityStatus
  pub reasons : List String
  pub voter_id : Option String
  pub notice : String

pub data CardStatus : Type 0 where
  valid invalid revoked repeated_use : CardStatus

pub record RfidTapRequest : Type 0 where
  pub raw_uid : String
  pub device_id : String
  pub election_id : String

pub record RfidTapResponse : Type 0 where
  pub authenticated : Bool
  pub pseudonym : String
  pub card_status : CardStatus
  pub device_id : String
  pub session_id : Option String
  pub notice : String

pub data Severity : Type 0 where
  low medium high : Severity

-- The finding of an anomaly rule, less its evidence.
pub record AdvisoryFinding : Type 0 where
  pub finding_id : String
  pub election_id : String
  pub device_id : Option String
  pub rule_id : String
  pub category : String
  pub severity : Severity
  pub timestamp : String
  pub advisory_explanation : String
  pub requires_human_review : Bool

pub record AdvisoryFindingsResponse : Type 0 where
  pub election_id : String
  pub findings_count : ℕ
  pub findings : List AdvisoryFinding
  pub status : String

pub record HealthCheckResponse : Type 0 where
  pub status : String
  pub app : String
  pub version : String

pub record SessionResponse : Type 0 where
  pub id : String
  pub election_id : String
  pub device_id : String
  pub session_token : String
  pub voter_credential : String
  pub status : String
  pub authorized_at : String
  pub voted_at : Option String
