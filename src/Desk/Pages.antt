-- ===== src/Desk/Pages.antt =====
-- dashboard/app/(officer)/election: polling-stations/page.tsx, devices/page.tsx and complaints/page.tsx.
use secure_vote.Base.{
  String, Bool, true, false, Option, none, some, List, keep, truthy, if◌then◌else◌, ◌===◌, Reply,
  ok, failed,
}
use secure_vote.Types.{DeviceResponse, DeviceStatus, DeviceRegister}
use secure_vote.Types.Registers.{PollingStationResponse, ComplaintResponse}
use secure_vote.Desk.{Listing, loaded, load, changed, given}

-- polling-stations/page.tsx
pub record StationsDesk : Type 0 where
  pub stations : Listing PollingStationResponse
  pub code : String
  pub name : String
  pub constituency : String
  pub location : String
  pub officer : String

pub record StationBody : Type 0 where
  pub station_code : String
  pub name : String
  pub constituency : String
  pub location : String
  pub officer_name : Option String

abbrev pub station_body : StationsDesk → StationBody
station_body p = record {
  station_code = p.code;
  name = p.name;
  constituency = p.constituency;
  location = p.location;
  officer_name = given p.officer;
}

abbrev pub cleared : Reply PollingStationResponse → StationsDesk → StationsDesk
cleared (ok s) p = record p { code = ""; name = ""; constituency = ""; location = ""; officer = "" }
cleared (failed m) p = p

unfoldable pub handle_create :
    Option String
    → (String → StationBody → Reply PollingStationResponse)
    → (String → Reply (List PollingStationResponse))
    → StationsDesk
    → StationsDesk
unfolding load
handle_create none create get p = p
handle_create (some election_id) create get p =
    let reply = create election_id (station_body p) in
    cleared reply (record p {
      stations = changed reply (some election_id) get (record p.stations { loading = true });
    })

-- devices/page.tsx
pub record DevicesDesk : Type 0 where
  pub devices : Listing DeviceResponse
  pub id : String
  pub name : String

abbrev pub registered : Reply DeviceResponse → DevicesDesk → DevicesDesk
registered (ok d) p = record p { id = ""; name = "" }
registered (failed m) p = p

unfoldable pub handle_register :
    Option String
    → (String → DeviceRegister → Reply DeviceResponse)
    → (String → Reply (List DeviceResponse))
    → DevicesDesk
    → DevicesDesk
unfolding load
handle_register none register get p = p
handle_register (some election_id) register get p =
    let reply = register election_id (record { id = p.id; name = p.name; device_hash = none }) in
    registered reply (record p {
      devices = changed reply (some election_id) get (record p.devices { loading = true });
    })

-- The buttons are only shown for a selected election.
unfoldable pub handle_status_update :
    String
    → (String → String → DeviceStatus → Reply DeviceResponse)
    → (String → Reply (List DeviceResponse))
    → String
    → DeviceStatus
    → DevicesDesk
    → DevicesDesk
unfolding load
handle_status_update election_id update get device_id status p = record p {
  devices =
      changed (update election_id device_id status) (some election_id) get
        (record p.devices { loading = true });
}

-- complaints/page.tsx
pub record ComplaintsDesk : Type 0 where
  pub complaints : Listing ComplaintResponse
  pub selected_complaint : Option ComplaintResponse
  pub update_status : String
  pub assignee : String
  pub notes : String
  pub filter_status : String

pub record ComplaintUpdate : Type 0 where
  pub status : String
  pub assigned_officer : Option String
  pub resolution_notes : Option String

abbrev pub is_of : String → ComplaintResponse → Bool
is_of election_id c = elim c.election_id [ none ↦ false | some k ↦ k === election_id ]

abbrev pub of_election : Option String → List ComplaintResponse → List ComplaintResponse
of_election none cs = cs
of_election (some election_id) cs = keep (is_of election_id) cs

abbrev pub filtered_reply :
    Option String → Reply (List ComplaintResponse) → Reply (List ComplaintResponse)
filtered_reply election_id (ok cs) = ok (of_election election_id cs)
filtered_reply election_id (failed m) = failed m

-- Without a selected election all complaints are loaded.
unfoldable pub load_complaints :
    Option String
    → Reply (List ComplaintResponse)
    → Listing ComplaintResponse
    → Listing ComplaintResponse
load_complaints election_id reply l =
    loaded (filtered_reply election_id reply) (record l { loading = true })

abbrev pub updated :
    Reply ComplaintResponse
    → Option String
    → Reply (List ComplaintResponse)
    → ComplaintsDesk
    → ComplaintsDesk
updated (ok c) election_id reply p = record p {
  selected_complaint = none;
  complaints = load_complaints election_id reply p.complaints;
}
updated (failed m) election_id reply p = record p {
  complaints = record p.complaints { error = some m; loading = false };
}

abbrev pub update_of : ComplaintsDesk → ComplaintUpdate
update_of p = record {
  status = p.update_status;
  assigned_officer = given p.assignee;
  resolution_notes = given p.notes;
}

abbrev pub update_selected :
    Option ComplaintResponse
    → Option String
    → (String → ComplaintUpdate → Reply ComplaintResponse)
    → Reply (List ComplaintResponse)
    → ComplaintsDesk
    → ComplaintsDesk
update_selected none election_id update reply p = p
update_selected (some c) election_id update reply p =
    updated (update c.id (update_of p)) election_id reply
      (record p { complaints = record p.complaints { loading = true } })

unfoldable pub handle_update :
    Option String
    → (String → ComplaintUpdate → Reply ComplaintResponse)
    → Reply (List ComplaintResponse)
    → ComplaintsDesk
    → ComplaintsDesk
unfolding load_complaints
handle_update election_id update reply p =
    update_selected p.selected_complaint election_id update reply p

unfoldable pub filtered_complaints : ComplaintsDesk → List ComplaintResponse
filtered_complaints p =
    if truthy p.filter_status
    then keep (λ c. c.status === p.filter_status) p.complaints.items
    else p.complaints.items
