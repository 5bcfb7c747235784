-- ===== src/Officer/Devices.antt =====
-- dashboard/app/(officer)/devices/page.tsx: the handlers of the page where nothing else runs, and the
-- status changes that its buttons offer. The backend's answers are arguments.
use secure_vote.Base.{
  String, Bool, true, false, not, Option, none, some, List, [], ◌∷◌, if◌then◌else◌, or_text,
  truthy?, ◌<>◌, Reply, ok, failed,
}
use secure_vote.Types.{
  Role, admin, ElectionResponse, DeviceResponse, DeviceStatus, registered, active, suspended,
  revoked, device_status_text, DeviceRegister,
}
use secure_vote.Lifecycle.{is_admin}
use secure_vote.Officer.{target}

pub record Page : Type 0 where
  pub elections : List ElectionResponse
  pub selected_election_id : String
  pub devices : List DeviceResponse
  pub loading : Bool
  pub action_loading : Bool
  pub error : Option String
  pub success_msg : Option String
  pub show_register_modal : Bool
  pub new_device_id : String
  pub new_device_name : String

abbrev pub initial : Page
initial = record {
  elections = [];
  selected_election_id = "EV-2026-001";
  devices = [];
  loading = true;
  action_loading = false;
  error = none;
  success_msg = none;
  show_register_modal = false;
  new_device_id = "EVM-005";
  new_device_name = "Precinct 5 Voting Terminal";
}

pub record Backend : Type 0 where
  pub get_elections : Reply (List ElectionResponse)
  pub get_devices : String → Reply (List DeviceResponse)

abbrev got_devices : Reply (List DeviceResponse) → Page → Page
got_devices (failed m) p = record p {
  error = some (or_text (some m) "Failed to load registered hardware devices");
  loading = false;
}
got_devices (ok ds) p = record p { devices = ds; loading = false }

abbrev load_target : Backend → Option ElectionResponse → Page → Page
load_target b none p = record p { loading = false }
load_target b (some e) p =
    got_devices (b.get_devices e.id) (record p { selected_election_id = e.id })

abbrev got_elections : Backend → String → Reply (List ElectionResponse) → Page → Page
got_elections b election_id (failed m) p = record p {
  error = some (or_text (some m) "Failed to load registered hardware devices");
  loading = false;
}
got_elections b election_id (ok all) p =
    load_target b (target election_id all) (record p { elections = all })

unfoldable pub fetch_devices : Backend → String → Page → Page
fetch_devices b election_id p =
    got_elections b election_id b.get_elections (record p { loading = true; error = none })

-- The message is set before the list is fetched again, and stays whatever comes of that.
abbrev updated : Reply DeviceResponse → Backend → String → DeviceStatus → Page → Page
updated (ok _) b device_id new_status p =
    record (fetch_devices b p.selected_election_id (record p {
      success_msg =
          some
            ("Device " <> (device_id <> (" status changed to " <> device_status_text new_status)));
    })) { action_loading = false }
updated (failed m) b device_id new_status p = record p {
  error = some (or_text (some m) ("Failed to update device " <> device_id));
  action_loading = false;
}

unfoldable pub handle_update_status :
    Option String
    → Option Role
    → (String → String → DeviceStatus → Reply DeviceResponse)
    → Backend
    → String
    → DeviceStatus
    → Page
    → Page
unfolding fetch_devices
handle_update_status token role update_device_status b device_id new_status p =
    if not (truthy? token)
    then p
    else if not (is_admin role)
    then record p { error = some "Forbidden: Only ADMIN users may modify hardware device status." }
    else updated (update_device_status p.selected_election_id device_id new_status) b device_id
        new_status (record p { action_loading = true; error = none; success_msg = none })

abbrev registration : Reply DeviceResponse → Backend → Page → Page
registration (ok _) b p =
    record (fetch_devices b p.selected_election_id (record p {
      show_register_modal = false;
      success_msg = some ("Device " <> (p.new_device_id <> " successfully registered."));
    })) { action_loading = false }
registration (failed m) b p = record p {
  error = some (or_text (some m) "Device registration failed");
  action_loading = false;
}

-- The handler itself asks for no role.
unfoldable pub handle_register_device :
    Option String → (String → DeviceRegister → Reply DeviceResponse) → Backend → Page → Page
unfolding fetch_devices
handle_register_device token register_device b p =
    let body : DeviceRegister = record {
      id = p.new_device_id;
      name = p.new_device_name;
      device_hash = none;
    } in
    if not (truthy? token)
    then p
    else registration (register_device p.selected_election_id body) b
        (record p { action_loading = true; error = none })

-- The buttons of a device in the table.
unfoldable pub offered : Option Role → DeviceStatus → List DeviceStatus
offered (some admin) registered = active ∷ []
offered (some admin) active = suspended ∷ revoked ∷ []
offered (some admin) suspended = active ∷ revoked ∷ []
offered (some admin) revoked = []
offered role status = []
