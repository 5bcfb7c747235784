-- ===== src/Types.antt =====
-- dashboard/lib/types.ts: the unions and the records of users, elections, candidates and devices.
-- A union of string literals is a data type; where the code compares such a value with a string that
-- came from another endpoint, `state_text` gives its literal.
pub mod Export
pub mod Results
pub mod Reports
pub mod Registers
pub mod Samples
use secure_vote.Base.{ℕ, String, Bool, Option, List}

pub data Role : Type 0 where
  admin auditor observer : Role

pub Role-discrete : Discrete Role
Role-discrete = hlevel

-- `opened` is the literal "OPEN".
pub data ElectionState : Type 0 where
  created configured locked opened suspended closed published : ElectionState

-- The literals, where a state is compared with a text.
abbrev pub state_text : ElectionState → String
state_text created = "CREATED"
state_text configured = "CONFIGURED"
state_text locked = "LOCKED"
state_text opened = "OPEN"
state_text suspended = "SUSPENDED"
state_text closed = "CLOSED"
state_text published = "PUBLISHED"

pub data DeviceStatus : Type 0 where
  registered active suspended revoked : DeviceStatus

abbrev pub device_status_text : DeviceStatus → String
device_status_text registered = "REGISTERED"
device_status_text active = "ACTIVE"
device_status_text suspended = "SUSPENDED"
device_status_text revoked = "REVOKED"

-- The body of a registration.
pub record DeviceRegister : Type 0 where
  pub id : String
  pub name : String
  pub device_hash : Option String

pub record UserResponse : Type 0 where
  pub id : String
  pub username : String
  pub role : Role
  pub is_active : Bool
  pub created_at : String

pub record TokenResponse : Type 0 where
  pub access_token : String
  pub token_type : String

pub record CandidateResponse : Type 0 where
  pub id : String
  pub name : String
  pub party : Option String
  pub symbol : Option String
  pub position : ℕ

pub record ElectionResponse : Type 0 where
  pub id : String
  pub name : Option String
  pub title : Option String
  pub description : Option String
  pub state : ElectionState
  pub configuration_hash : Option String
  pub device_count : ℕ
  pub ballot_count : ℕ
  pub created_at : String
  pub opened_at : Option String
  pub closed_at : Option String
  pub published_at : Option String
  pub candidates : List CandidateResponse

pub record DeviceResponse : Type 0 where
  pub id : String
  pub election_id : String
  pub name : String
  pub status : DeviceStatus
  pub device_hash : Option String
  pub last_sequence_number : ℕ
  pub total_votes_cast : ℕ
  pub registered_at : String
  pub activated_at : Option String
  pub last_seen_at : Option String

-- The public view of an election, without authorization.
pub record TransparencyOverview : Type 0 where
  pub election_id : String
  pub election_name : String
  pub state : String
  pub total_ballots : ℕ
  pub device_count : ℕ
  pub polling_station_count : ℕ
  pub candidate_count : ℕ
  pub registered_voters : ℕ
  pub turnout_percentage : ℕ
  pub audit_chain_status : String
  pub reconciliation_status : String
  pub manifest_status : String
  pub notice : String
