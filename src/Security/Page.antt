-- ===== src/Security/Page.antt =====
-- dashboard/app/(officer)/security/page.tsx: the handlers where nothing else runs, and the filters.
use secure_vote.Base.{
  String, Bool, true, false, not, ◌||◌, Option, none, some, List, [], keep, if◌then◌else◌, truthy?,
  or_text, includes, ◌===◌, Reply, ok, failed, or_else,
}
use secure_vote.Types.{DeviceResponse, DeviceStatus, suspended, revoked, device_status_text}
use secure_vote.Types.Reports.{AuditEntryResponse}
use secure_vote.Types.Registers.{
  HealthCheckResponse, AdvisoryFinding, AdvisoryFindingsResponse, RfidTapRequest, RfidTapResponse,
}
use secure_vote.Security.{SecurityControl, control_category_text}
use secure_vote.Security.Controls.{security_controls}

pub record Page : Type 0 where
  pub health : Option HealthCheckResponse
  pub devices : List DeviceResponse
  pub tamper_events : List AuditEntryResponse
  pub anomalies : List AdvisoryFinding
  pub selected_category : String
  pub rfid_card : String
  pub rfid_device_id : String
  pub rfid_result : Option RfidTapResponse
  pub rfid_loading : Bool
  pub loading : Bool
  pub error : Option String

-- What the page awaits.
pub record Backend : Type 0 where
  pub get_health : Reply HealthCheckResponse
  pub get_devices : String → Reply (List DeviceResponse)
  pub get_audit_log : String → Reply (List AuditEntryResponse)
  pub get_election_anomalies : String → Reply AdvisoryFindingsResponse

abbrev pub mentions_suspension : Option String → Bool
mentions_suspension none = false
mentions_suspension (some s) = includes s "SUSPENDED"

abbrev pub is_tamper : AuditEntryResponse → Bool
is_tamper e = e.event_type === "TAMPER_DETECTED" || mentions_suspension e.event_data

-- A failed health check leaves what was known.
abbrev pub health_or :
    Reply HealthCheckResponse → Option HealthCheckResponse → Option HealthCheckResponse
health_or (ok h) old = some h
health_or (failed m) old = old

abbrev pub findings_of : Reply AdvisoryFindingsResponse → List AdvisoryFinding
findings_of (ok r) = r.findings
findings_of (failed m) = []

unfoldable pub fetch_security_data : Option String → Backend → Page → Page
fetch_security_data token b p =
    if not (truthy? token) then record p { loading = false } else record p {
      error = none;
      health = health_or b.get_health p.health;
      devices = or_else (b.get_devices "EV-2026-001") [];
      tamper_events = keep is_tamper (or_else (b.get_audit_log "EV-2026-001") []);
      anomalies = findings_of (b.get_election_anomalies "EV-2026-001");
      loading = false;
    }

abbrev tapped : Reply RfidTapResponse → Page → Page
tapped (ok r) p = record p { rfid_result = some r; rfid_loading = false }
tapped (failed m) p = record p {
  error = some (or_text (some m) "RFID tap simulation failed");
  rfid_loading = false;
}

-- The card that was handed over, or the one that is typed in.
unfoldable pub handle_tap_rfid :
    Option String → (RfidTapRequest → Reply RfidTapResponse) → Page → Page
handle_tap_rfid card tap_rfid p =
    let request : RfidTapRequest = record {
      raw_uid = or_text card p.rfid_card;
      device_id = p.rfid_device_id;
      election_id = "EV-2026-001";
    } in
    tapped (tap_rfid request) (record p { rfid_loading = true; error = none })

abbrev pub with_status : DeviceStatus → List DeviceResponse → List DeviceResponse
with_status s ds = keep (λ d. device_status_text d.status === device_status_text s) ds

unfoldable pub suspended_devices : Page → List DeviceResponse
suspended_devices p = with_status suspended p.devices

unfoldable pub revoked_devices : Page → List DeviceResponse
revoked_devices p = with_status revoked p.devices

unfoldable pub shown_controls : Page → List SecurityControl
shown_controls p =
    keep
      (λ c.
        p.selected_category === "ALL" || control_category_text c.category === p.selected_category)
      security_controls
