-- ===== src/Verify/Samples.antt =====
-- A small archive: two ballots of one device for two candidates, and two linked audit entries.
use secure_vote.Base.{ℕ, String, none, some, List, [], ◌∷◌}
use secure_vote.Types.Export.{
  BallotExportItem, number, AuditExportItem, DeviceExportItem, CandidateExportItem,
  ElectionExportResponse,
}

abbrev pub hash_a : String
hash_a = "aaaaaaaaaaaaaaaaaaaaaaaaaaaaaaaaaaaaaaaaaaaaaaaaaaaaaaaaaaaaaaaa"

abbrev pub hash_b : String
hash_b = "bbbbbbbbbbbbbbbbbbbbbbbbbbbbbbbbbbbbbbbbbbbbbbbbbbbbbbbbbbbbbbbb"

abbrev pub ballot : String → ℕ → BallotExportItem
ballot candidate n = record {
  id = "B";
  session_id = "S";
  device_id = "EVM-1";
  candidate_id = candidate;
  sequence_number = n;
  ballot_hash = hash_a;
  recorded_at = "";
}

abbrev pub opened_entry : AuditExportItem
opened_entry = record {
  id = number 1;
  sequence_number = 1;
  event_type = "ELECTION_OPENED";
  event_data = none;
  actor = none;
  device_id = none;
  timestamp = "";
  previous_hash = none;
  entry_hash = hash_a;
}

abbrev pub closed_entry : AuditExportItem
closed_entry = record {
  id = number 2;
  sequence_number = 2;
  event_type = "ELECTION_CLOSED";
  event_data = none;
  actor = none;
  device_id = none;
  timestamp = "";
  previous_hash = some hash_a;
  entry_hash = hash_b;
}

abbrev candidate : String → ℕ → CandidateExportItem
candidate id n = record { id = id; name = id; party = none; symbol = none; position = n }

abbrev device : DeviceExportItem
device = record {
  id = "EVM-1";
  name = "EVM-1";
  status = "ACTIVE";
  last_sequence_number = 2;
  total_votes_cast = 2;
  registered_at = "";
  activated_at = none;
  last_seen_at = none;
}

abbrev pub archive_with : List AuditExportItem → ElectionExportResponse
archive_with log = record {
  export_version = some "1.0";
  exported_at = none;
  election = some (record {
    id = "E";
    name = "E";
    description = none;
    state = "PUBLISHED";
    configuration_hash = some hash_b;
    total_ballots = 2;
    created_at = "";
    locked_at = none;
    opened_at = none;
    closed_at = none;
    published_at = none;
  });
  candidates = some (candidate "C001" 1 ∷ candidate "C002" 2 ∷ []);
  devices = some (device ∷ []);
  ballots = some (ballot "C001" 1 ∷ ballot "C002" 2 ∷ []);
  audit_log = some log;
  manifest = some (record { total_ballots = some 2; digital_signature = some "signature" });
  export_hash = some hash_b;
}

abbrev pub archive : ElectionExportResponse
archive = archive_with (opened_entry ∷ closed_entry ∷ [])
