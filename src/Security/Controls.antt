-- ===== src/Security/Controls.antt =====
-- dashboard/app/(officer)/security/page.tsx: the sixteen controls.
use secure_vote.Base.{List, [], ◌∷◌}
use secure_vote.Security.{
  SecurityControl, control, prevention, detection, auditability, verification,
}

abbrev control_1 : SecurityControl
control_1 =
    control 1 prevention "Duplicate Session & Double Voting Prevention"
      "Unique DB Constraint on (election_id, voter_credential)"
      "REQUEST REJECTED (HTTP 409) on repeated token presentation"

abbrev control_2 : SecurityControl
control_2 =
    control 2 prevention "Closed-Election Ingestion Guard"
      "FSM State Enforcement in Ballot Ingestion Pipeline"
      "REQUEST REJECTED (HTTP 409) unless election is in OPEN state"

abbrev control_3 : SecurityControl
control_3 =
    control 3 prevention "Message Replay Prevention"
      "Strict Monotonic Sequence Counter per Hardware Unit in EEPROM"
      "REPLAY REJECTED (HTTP 409) if packet sequence <= last_seen"

abbrev control_4 : SecurityControl
control_4 =
    control 4 prevention "Hardware Device Whitelisting"
      "Pre-registered Device Authentication & Revocation Check"
      "ACCESS REJECTED (HTTP 403) for unknown or revoked hardware units"

abbrev control_5 : SecurityControl
control_5 =
    control 5 prevention "Voter Identity-to-Ballot Linkability Prevention"
      "Keyed HMAC-SHA256 Pseudonymization (Zero Raw Biometric/UID Persistence)"
      "RFID AUTHENTICATION != VOTER ELIGIBILITY enforcement"

abbrev control_6 : SecurityControl
control_6 =
    control 6 detection "Physical Enclosure Tamper Detection"
      "Hardware Microswitch + Non-Volatile EEPROM Latch"
      "TAMPER_DETECTED event logged and device placed in SUSPENDED state"

abbrev control_7 : SecurityControl
control_7 =
    control 7 detection "Advisory Anomaly Detection Engine"
      "6 Deterministic Heuristics (Rate bursts, sequence gaps, repeated rejections)"
      "ADVISORY FINDING  -  REQUIRES HUMAN REVIEW (Non-blocking)"

abbrev control_8 : SecurityControl
control_8 =
    control 8 detection "Hardware Telemetry & Heartbeat Liveness"
      "Periodic Status Ping with Sequence Tracking"
      "STATION_DESYNC or OFFLINE alert surfaced in dashboard"

abbrev control_9 : SecurityControl
control_9 =
    control 9 auditability "Append-Only Audit Log Hash Chain"
      "Cryptographic SHA-256 Chaining (Tamper-Evident Historical Record)"
      "AUDIT VERIFICATION FAILED on any historical record deletion or mutation"

abbrev control_10 : SecurityControl
control_10 =
    control 10 auditability "Audit-Root External Anchoring"
      "Cryptographic Root Hash Commitments (External Immutable Proofs)"
      "ANCHOR_MISMATCH on historical tree divergence or fork"

abbrev control_11 : SecurityControl
control_11 =
    control 11 auditability "Presiding Officer Chronological Diary"
      "System & Operational Event Trail (Statutory Rule 49V Analogue)"
      "EVENT_SEQUENCE_GAP alert if expected milestones missing"

abbrev control_12 : SecurityControl
control_12 =
    control 12 verification "Configuration Freezing & Roster Verification"
      "Frozen Candidate Slate SHA-256 Fingerprint in DB & EEPROM"
      "CONFIGURATION HASH MISMATCH on candidate order/name alteration"

abbrev control_13 : SecurityControl
control_13 =
    control 13 verification "Zero-Drift Mathematical Reconciliation"
      "Exact Equation Proof: sum(candidate_votes) == total_ballots == sum(device_votes)"
      "RECONCILIATION FAILURE if delta != 0 across counting tables"

abbrev control_14 : SecurityControl
control_14 =
    control 14 verification "Result Manifest Asymmetric Digital Signing"
      "Ed25519 Elliptic Curve Signatures over Certified Result Manifest"
      "SIGNATURE_INVALID on tampered tallies or untrusted key presentation"

abbrev control_15 : SecurityControl
control_15 =
    control 15 verification "Machine-Verifiable Independent Verifier"
      "Pure Python Verifier on Export Envelope (Database-Disconnected)"
      "Typed 12-point failure codes if mathematical invariants fail"

abbrev control_16 : SecurityControl
control_16 =
    control 16 verification "VVPAT Paper Slip Sample Reconciliation"
      "Mandatory Random 5-Station Paper Slip Audit (Rule 56D Analogue)"
      "SLIP_COUNT_DISCREPANCY flags physical-to-electronic mismatch"

abbrev pub security_controls : List SecurityControl
security_controls =
    control_1 ∷ control_2 ∷ control_3 ∷ control_4 ∷ control_5 ∷ control_6 ∷ control_7 ∷ control_8
    ∷ control_9 ∷ control_10 ∷ control_11 ∷ control_12 ∷ control_13 ∷ control_14 ∷ control_15
    ∷ control_16 ∷ []
