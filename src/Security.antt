-- ===== src/Security.antt =====
-- dashboard/app/(officer)/security/page.tsx: the security center.
pub mod Controls
pub mod Page
mod Examples
use secure_vote.Base.{ℕ, String}

pub data ControlCategory : Type 0 where
  prevention detection auditability verification : ControlCategory

-- The literals, where the filter compares them.
abbrev pub control_category_text : ControlCategory → String
control_category_text prevention = "PREVENTION"
control_category_text detection = "DETECTION"
control_category_text auditability = "AUDITABILITY"
control_category_text verification = "VERIFICATION"

pub data ControlStatus : Type 0 where
  active : ControlStatus

pub record SecurityControl : Type 0 where
  pub id : ℕ
  pub category : ControlCategory
  pub name : String
  pub mechanism : String
  pub detection : String
  pub status : ControlStatus

-- A control as it is written down: all are active.
abbrev pub control : ℕ → ControlCategory → String → String → String → SecurityControl
control id category name mechanism found = record {
  id = id;
  category = category;
  name = name;
  mechanism = mechanism;
  detection = found;
  status = active;
}
