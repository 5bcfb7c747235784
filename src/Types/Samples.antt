-- ===== src/Types/Samples.antt =====
-- Elections and devices for the tests.
use secure_vote.Base.{String, none, []}
use secure_vote.Types.{ElectionState, ElectionResponse, DeviceStatus, DeviceResponse}

abbrev pub sample_election : String → ElectionState → ElectionResponse
sample_election id state = record {
  id = id;
  name = none;
  title = none;
  description = none;
  state = state;
  configuration_hash = none;
  device_count = 0;
  ballot_count = 0;
  created_at = "";
  opened_at = none;
  closed_at = none;
  published_at = none;
  candidates = [];
}

abbrev pub sample_device : String → String → DeviceStatus → DeviceResponse
sample_device id election_id status = record {
  id = id;
  election_id = election_id;
  name = id;
  status = status;
  device_hash = none;
  last_sequence_number = 3;
  total_votes_cast = 3;
  registered_at = "";
  activated_at = none;
  last_seen_at = none;
}
