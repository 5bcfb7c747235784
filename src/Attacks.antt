-- ===== src/Attacks.antt =====
-- dashboard/app/(officer)/election/attacks/page.tsx: the page that demonstrates attacks.
pub mod Scenarios
pub mod Page
pub mod Runs
pub mod Ends
mod Examples
use secure_vote.Base.{ℕ, String, Option, none}
use secure_vote.Api.Json.{Fields}

pub data Category : Type 0 where
  cryptographic lifecycle device protocol anomaly : Category

-- The literals, where the filter compares them.
abbrev pub category_text : Category → String
category_text cryptographic = "Cryptographic"
category_text lifecycle = "Lifecycle"
category_text device = "Device"
category_text protocol = "Protocol"
category_text anomaly = "Anomaly"

pub data Status : Type 0 where
  idle running defended failed : Status

pub record AttackScenario : Type 0 where
  pub id : ℕ
  pub name : String
  pub category : Category
  pub threat : String
  pub defense : String
  pub expected_result : String
  pub payload : Fields
  pub status : Status
  pub observed_result : Option String
  pub details : Option String

-- A scenario as it is written down, idle.
abbrev pub attack : ℕ → String → Category → String → String → String → Fields → AttackScenario
attack id name category threat defense expected_result payload = record {
  id = id;
  name = name;
  category = category;
  threat = threat;
  defense = defense;
  expected_result = expected_result;
  payload = payload;
  status = idle;
  observed_result = none;
  details = none;
}
