-- ===== src/Security/Examples.antt =====
-- The security center at single replies.
use secure_vote.Base.{
  ◌≡◌, refl, String, none, some, false, Option, [], ◌∷◌, length, map, Reply, ok, failed,
}
use secure_vote.Types.Reports.{AuditEntryResponse}
use secure_vote.Types.Registers.{RfidTapRequest, RfidTapResponse}
use secure_vote.Security.Page.{Page, Backend, fetch_security_data, handle_tap_rfid, shown_controls}

abbrev page : Page
page = record {
  health = none;
  devices = [];
  tamper_events = [];
  anomalies = [];
  selected_category = "ALL";
  rfid_card = "CARD-VALID-01";
  rfid_device_id = "EVM-001";
  rfid_result = none;
  rfid_loading = false;
  loading = false;
  error = none;
}

shown_controls_test :
    (length (shown_controls page) ≡ 16)
    × (map (λ c. c.id) (shown_controls (record page { selected_category = "VERIFICATION" }))
        ≡ 12 ∷ 13 ∷ 14 ∷ 15 ∷ 16 ∷ [])
unfolding shown_controls
shown_controls_test = (refl, refl)

abbrev entry : String → Option String → AuditEntryResponse
entry type content = record {
  id = 1;
  election_id = "EV-2026-001";
  event_type = type;
  event_data = content;
  actor = none;
  device_id = none;
  sequence_number = 1;
  timestamp = "";
  previous_hash = none;
  entry_hash = "";
}

-- All calls but one fail, and the page shows no error.
abbrev backend : Backend
backend = record {
  get_health = failed "Network error";
  get_devices = λ k. failed "Network error";
  get_audit_log = λ k.
      ok (entry "TAMPER_DETECTED" none ∷ entry "VOTE" none ∷ entry "STATE" (some "SUSPENDED") ∷ []);
  get_election_anomalies = λ k. failed "Network error";
}

fetch_security_data_test :
    let p = fetch_security_data (some "T") backend page in
    (map (λ e. e.event_type) p.tamper_events ≡ "TAMPER_DETECTED" ∷ "STATE" ∷ []) × (p.error ≡ none)
unfolding fetch_security_data
fetch_security_data_test = (refl, refl)

abbrev echo : RfidTapRequest → Reply RfidTapResponse
echo r = failed r.raw_uid

handle_tap_rfid_test :
    ((handle_tap_rfid none echo page).error ≡ some "CARD-VALID-01")
    × ((handle_tap_rfid (some "CARD-2") echo page).error ≡ some "CARD-2")
unfolding handle_tap_rfid
handle_tap_rfid_test = (refl, refl)
