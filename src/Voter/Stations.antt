-- ===== src/Voter/Stations.antt =====
-- dashboard/app/(public)/voter/polling-station/page.tsx: the search for polling stations.
use secure_vote.Base.{
  ℕ, ◌-◌, String, Bool, false, ◌||◌, Option, none, some, List, [], ◌∷◌, map, keep, if◌then◌else◌,
  or_text, lower_includes, text_length, drop_text, ◌==◌, ◌<>◌, Reply, ok, failed,
}
use secure_vote.Types.Registers.{PollingStationResponse}

pub record PollingStationItem : Type 0 where
  pub id : String
  pub station_code : String
  pub name : String
  pub constituency : String
  pub location : String
  pub status : String
  pub officer_name : Option String
  pub assigned_devices : ℕ
  pub registered_voters : ℕ

abbrev pub station_item :
    String → String → String → String → String → String → ℕ → ℕ → PollingStationItem
station_item id code name constituency location officer devices voters = record {
  id = id;
  station_code = code;
  name = name;
  constituency = constituency;
  location = location;
  status = "ACTIVE";
  officer_name = some officer;
  assigned_devices = devices;
  registered_voters = voters;
}

pub record StationPage : Type 0 where
  pub constituency : String
  pub loading : Bool
  pub error : Option String
  pub results : Option (List PollingStationItem)

-- One text includes the other.
abbrev pub is_match : String → PollingStationResponse → Bool
is_match selected s =
    lower_includes s.constituency selected || lower_includes selected s.constituency

-- `n || d`
abbrev pub or_number : ℕ → ℕ → ℕ
or_number n d = if n == 0 then d else n

-- `s.id.slice(-3)`
abbrev pub last_three : String → String
last_three s = drop_text (text_length s - 3) s

abbrev pub shown_station : PollingStationResponse → PollingStationItem
shown_station s = record {
  id = s.id;
  station_code = or_text (some s.station_code) ("PS-" <> last_three s.id);
  name = s.name;
  constituency = s.constituency;
  location = s.location;
  status = or_text (some s.status) "ACTIVE";
  officer_name = some (or_text s.officer_name "Presiding Officer");
  assigned_devices = or_number s.assigned_devices 2;
  registered_voters = or_number s.registered_voters 850;
}

-- The stations that are shown where none matches.
abbrev pub synthetic_stations : String → List PollingStationItem
synthetic_stations selected =
    station_item (selected <> "-PS01") "PS-001" "Govt Higher Secondary School, Room No. 1" selected
      ("Main Civic Center, Sector 4, " <> selected) "R. K. Sharma, Sector Officer" 2 920
    ∷ station_item (selected <> "-PS02") "PS-002" "Community Welfare Center, Ground Floor" selected
        ("Near Town Hall, " <> selected) "Priya V., Presiding Officer" 2 845
    ∷ []

-- The stations that are shown where the call fails, whichever constituency was asked for.
abbrev pub fallback_stations : List PollingStationItem
fallback_stations =
    station_item "PS-001" "PS-001" "Govt Higher Primary School, MG Road" "Bengaluru Central"
      "Shivajinagar, Bengaluru" "Rajesh Sharma" 2 500
    ∷ station_item "PS-002" "PS-002" "Community Center, Indiranagar 100ft Rd" "Bengaluru Central"
        "Indiranagar, Bengaluru" "Priya Sundaram" 2 500
    ∷ []

abbrev pub or_synthetic : String → List PollingStationResponse → List PollingStationItem
or_synthetic selected [] = synthetic_stations selected
or_synthetic selected (s ∷ ss) = map shown_station (s ∷ ss)

abbrev pub stations_of : String → Reply (List PollingStationResponse) → List PollingStationItem
stations_of selected (ok ss) = or_synthetic selected (keep (is_match selected) ss)
stations_of selected (failed m) = fallback_stations

unfoldable pub fetch_stations :
    (String → Reply (List PollingStationResponse)) → String → StationPage → StationPage
fetch_stations get_polling_stations selected p = record p {
  error = none;
  results = some (stations_of selected (get_polling_stations "EV-2026-001"));
  loading = false;
}
