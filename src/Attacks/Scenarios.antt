-- ===== src/Attacks/Scenarios.antt =====
-- dashboard/app/(officer)/election/attacks/page.tsx: the twenty scenarios.
use secure_vote.Base.{List, [], ◌∷◌, true}
use secure_vote.Api.Json.{end, field, str, num, bool}
use secure_vote.Attacks.{
  AttackScenario, attack, cryptographic, lifecycle, device, protocol, anomaly,
}

abbrev attack_1 : AttackScenario
attack_1 =
    attack 1 "Audit Record Modification in Database" cryptographic
      "Adversary with database write access modifies event_data of historical audit row."
      "Independent hash recomputation recalculates SHA-256 chain from genesis. Breaking sequence N invalidates all subsequent hashes."
      "AUDIT VERIFICATION FAILED (Broken hash chain at sequence #1)"
      (field "action"
        (str
          "UPDATE audit_entries SET event_data = '{\"tampered\": true}' WHERE sequence_number = 1")
        end)

abbrev attack_2 : AttackScenario
attack_2 =
    attack 2 "Configuration Modification Post-Lock" lifecycle
      "Adversary adds or replaces candidate after election configuration is frozen."
      "SHA-256 candidate list fingerprint computed at lock. Manifest reconciliation enforces configuration_hash match."
      "CONFIGURATION HASH MISMATCH (State machine rejects mutation)"
      (field "action" (str "POST /api/elections/{id}/candidates")
        (field "state" (str "LOCKED") (field "new_candidate" (str "C999") end)))

abbrev attack_3 : AttackScenario
attack_3 =
    attack 3 "Duplicate Voting Session Injection" lifecycle
      "Attacker attempts to authorize a second voting session for an already registered voter credential."
      "Database unique constraint uq_voter_credential enforces exactly one session per election_id + voter_credential."
      "DUPLICATE REJECTED (HTTP 409 Conflict: Voter already authorized)"
      (field "credential" (str "VOTER-SIM-001")
        (field "election_id" (str "EV-2026-001") (field "attempt" (num 2) end)))

abbrev attack_4 : AttackScenario
attack_4 =
    attack 4 "Vote Cast After Election Close" lifecycle
      "EVM terminal or attacker submits ballot after poll closing time has elapsed."
      "Vote service validates election state is strictly OPEN. Closed elections immediately reject new ballots."
      "REQUEST REJECTED (HTTP 400: Election not accepting votes)"
      (field "state" (str "CLOSED") (field "action" (str "POST /api/votes") end))

abbrev attack_5 : AttackScenario
attack_5 =
    attack 5 "Physical Chassis Tamper Event" device
      "Physical switch on EVM unit detects enclosure breach or unauthorized opening."
      "Hardware interrupt latches tamper state in EEPROM, sets LEDs red, and logs DEVICE_TAMPER_SWITCH to audit trail."
      "TAMPER DETECTED (Logged in audit chain, status latched)"
      (field "switch_pin" (str "D2")
        (field "status" (str "BREACH_DETECTED") (field "action" (str "EEPROM latch") end)))

abbrev attack_6 : AttackScenario
attack_6 =
    attack 6 "Manipulate Derived Tally Directly" cryptographic
      "Attacker updates result_manifests candidate_totals without changing underlying ballots."
      "Independent verifier recounts raw ballots independently. Sum mismatch triggers reconciliation failure."
      "RECONCILIATION FAILURE (Ballot sum != candidate tally)"
      (field "candidate_A" (str "+500 votes") (field "raw_ballots_count" (str "unchanged") end))

abbrev attack_7 : AttackScenario
attack_7 =
    attack 7 "Device Message Replay Attack" protocol
      "Network adversary replays previously accepted device vote payload with duplicate sequence."
      "UniqueConstraint(device_id, sequence_number) + monotonic sequence check (seq > last_seq) rejects replayed frames."
      "REPLAY REJECTED (HTTP 409 / Integrity rejection)"
      (field "device_id" (str "EVM-001")
        (field "sequence_number" (num 1) (field "repeat" (bool true) end)))

abbrev attack_8 : AttackScenario
attack_8 =
    attack 8 "Unauthorized / Revoked Device Submission" device
      "Rogue hardware device submits ballot without registration or after revocation."
      "Backend validates device registration and enforces ACTIVE status. Revoked devices are denied."
      "DEVICE REJECTED (HTTP 403: Device suspended or not recognized)"
      (field "device_id" (str "EVM-ROGUE-999") (field "status" (str "UNREGISTERED") end))

abbrev attack_9 : AttackScenario
attack_9 =
    attack 9 "Tampered Manifest Digital Signature" cryptographic
      "Adversary alters signature bytes in exported election manifest package."
      "Ed25519 asymmetric signature verification independently verifies canonical JSON manifest_hash against public key."
      "SIGNATURE_INVALID (Ed25519 signature verification failed)"
      (field "algorithm" (str "Ed25519") (field "signature" (str "000000000000000000...") end))

abbrev attack_10 : AttackScenario
attack_10 =
    attack 10 "Modified Exported Ballot Record" cryptographic
      "Attacker modifies candidate_id inside exported raw ballot record file."
      "Standalone verifier recomputes ballot_hash = SHA-256(election+session+device+cand+seq) and detects mismatch."
      "BALLOT_HASH_MISMATCH (Hash does not match ballot payload)"
      (field "ballot_id" (str "B-001")
        (field "original" (str "C001") (field "tampered" (str "C002") end)))

abbrev attack_11 : AttackScenario
attack_11 =
    attack 11 "Modified External Anchor Root" cryptographic
      "Attacker alters or fabricates external audit root receipt hash."
      "Standalone verifier compares receipt root_hash with independent audit chain tip hash."
      "ANCHOR_MISMATCH (Anchored root != calculated audit root)"
      (field "receipt_hash" (str "ffffffffffffffff...") (field "actual_root" (str "a4f89d...") end))

abbrev attack_12 : AttackScenario
attack_12 =
    attack 12 "Advisory Anomaly Non-Blocking Gate" anomaly
      "Adversary attempts to cause denial-of-service by triggering artificial high-severity anomaly alerts."
      "Anomaly engine findings are strictly ADVISORY. They alert human operators but do not lock election lifecycle or signing."
      "ADVISORY FINDING LOGGED (Lifecycle not blocked, closing permitted)"
      (field "severity" (str "HIGH")
        (field "anomaly" (str "BURST_VOTING_RATE") (field "impact" (str "advisory_only") end)))

abbrev attack_13 : AttackScenario
attack_13 =
    attack 13 "Voter Anonymity & RFID Credential De-anonymization" cryptographic
      "Adversary inspects ballot database attempting to correlate raw voter identity or RFID UID with cast vote."
      "Ballot table schema stores zero voter credentials or RFID UIDs. HMAC-salted voter anonymization strictly breaks link to ballot row."
      "ANONYMIZED BALLOT ENFORCED (Zero voter PII column in ballot storage)"
      (field "query" (str "SELECT voter_credential FROM ballots")
        (field "target" (str "raw_identity_correlation") end))

abbrev attack_14 : AttackScenario
attack_14 =
    attack 14 "Sequence Rollback & Non-Monotonic Counter" protocol
      "Attacker attempts to submit ballot with sequence number less than or equal to last accepted device counter."
      "Monotonic counter check (sequence_number > device.last_sequence_number) rejects non-monotonic counters."
      "REPLAY REJECTED (HTTP 409: sequence_number <= last accepted)"
      (field "device_id" (str "EVM-001")
        (field "last_sequence" (num 2) (field "submitted_sequence" (num 1) end)))

abbrev attack_15 : AttackScenario
attack_15 =
    attack 15 "Candidate Insertion Post-Freeze Violation" lifecycle
      "Malicious administrator attempts to insert or modify candidates after configuration freeze."
      "Election lifecycle guard restricts candidate mutations strictly to DRAFT state; rejects requests in LOCKED/OPEN/CLOSED states."
      "LIFECYCLE REJECTED (HTTP 400: Election configuration locked)"
      (field "state" (str "OPEN") (
        field "action" (str "POST /api/elections/{id}/candidates")
          (field "candidate" (str "C999") end)))

abbrev attack_16 : AttackScenario
attack_16 =
    attack 16 "Orphaned Audit Entry & Detached Hash Chain" cryptographic
      "Adversary injects a rogue audit log entry with detached sequence or invalid previous_hash link."
      "Independent audit chain verification detects broken hash link and flags tampering at injected sequence."
      "AUDIT VERIFICATION FAILED (Broken hash chain at injected sequence)"
      (field "sequence" (num 99)
        (field "previous_hash" (str "00000000000000000000000000000000") end))

abbrev attack_17 : AttackScenario
attack_17 =
    attack 17 "Cross-Constituency Ballot Boundary Spoofing" anomaly
      "EVM terminal or operator attempts to cast ballot for a candidate from another assembly constituency."
      "Candidate validation verifies candidate_id belongs strictly to the target election and registered constituency."
      "CANDIDATE REJECTED (HTTP 404: Candidate not found in this election)"
      (field "target_election" (str "EV-2026-001") (field "rogue_candidate" (str "C999") end))

abbrev attack_18 : AttackScenario
attack_18 =
    attack 18 "Genesis Block Hash Substitution Attack" cryptographic
      "Adversary modifies sequence #0 genesis audit entry to forge initial election state root."
      "Genesis entry enforces previous_hash of 64 zeros and matches canonical genesis digest. Modification invalidates entire tree."
      "AUDIT VERIFICATION FAILED (Broken hash chain at sequence #0)"
      (field "sequence" (num 0) (field "tampered_event" (str "{\"genesis\": false}") end))

abbrev attack_19 : AttackScenario
attack_19 =
    attack 19 "Cross-Election Session Token Replay" protocol
      "Adversary intercepts valid voting session token from Election A and attempts ballot submission in Election B."
      "Voting session is cryptographically bound to specific election_id and device_id; cross-election submission is rejected."
      "DEVICE MISMATCH (HTTP 409: Device not bound to session)"
      (field "session_election" (str "EV-2026-001")
        (field "target_election" (str "EV-2026-002") end))

abbrev attack_20 : AttackScenario
attack_20 =
    attack 20 "Single-Use Session Double-Ballot Replay" lifecycle
      "Attacker reuses a single-use session token to cast a second ballot after the session is already consumed."
      "Session state transitions from AUTHORIZED to VOTED within atomic transaction; subsequent request receives HTTP 409."
      "REQUEST REJECTED (HTTP 409: Session status is VOTED)"
      (field "session_token" (str "tok_sim_replay") (field "attempt" (num 2) end))

abbrev pub initial_attacks : List AttackScenario
initial_attacks =
    attack_1 ∷ attack_2 ∷ attack_3 ∷ attack_4 ∷ attack_5 ∷ attack_6 ∷ attack_7 ∷ attack_8 ∷ attack_9
    ∷ attack_10 ∷ attack_11 ∷ attack_12 ∷ attack_13 ∷ attack_14 ∷ attack_15 ∷ attack_16 ∷ attack_17
    ∷ attack_18 ∷ attack_19 ∷ attack_20 ∷ []
