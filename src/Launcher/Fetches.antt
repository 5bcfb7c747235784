-- ===== src/Launcher/Fetches.antt =====
-- dashboard/app/(evm)/evm/page.tsx: what the fetches come back with, and what is selected then.
use secure_vote.Base.{
  String, Bool, true, false, Option, none, some, List, [], ◌∷◌, map, find, keep, first,
  if◌then◌else◌, truthy, truthy?, ◌<>◌, Reply, ok, failed,
}
use secure_vote.Types.{ElectionResponse, TransparencyOverview, DeviceResponse, active, DeviceStatus}
use secure_vote.Selection.{ListedElection, of_election, of_overview, is_open}

pub record LauncherPage : Type 0 where
  pub elections : List ListedElection
  pub selected_election_id : String
  pub devices : List DeviceResponse
  pub selected_device_id : String
  pub loading : Bool
  pub seeding : Bool
  pub feedback_msg : Option String

abbrev pub initial : LauncherPage
initial = record {
  elections = [];
  selected_election_id = "";
  devices = [];
  selected_device_id = "";
  loading = true;
  seeding = false;
  feedback_msg = none;
}

-- The officer's open elections, if there is a token and the call succeeds.
abbrev my_elections : Bool → Reply (List ElectionResponse) → List ListedElection
my_elections true (ok es) = keep is_open (map of_election es)
my_elections _ _ = []

abbrev public_elections : Reply (List TransparencyOverview) → Reply (List ListedElection)
public_elections (ok os) = ok (keep is_open (map of_overview os))
public_elections (failed m) = failed m

abbrev or_public : List ListedElection → Reply (List ListedElection) → Reply (List ListedElection)
or_public [] public = public
or_public (e ∷ es) public = ok (e ∷ es)

-- What `fetchElections` comes back with.
unfoldable pub open_elections :
    Option String
    → Reply (List ElectionResponse)
    → Reply (List TransparencyOverview)
    → Reply (List ListedElection)
open_elections token mine public =
    or_public (my_elections (truthy? token) mine) (public_elections public)

abbrev my_devices : Bool → Reply (List DeviceResponse) → List DeviceResponse
my_devices true (ok ds) = ds
my_devices _ _ = []

abbrev or_public_devices :
    List DeviceResponse → Reply (List DeviceResponse) → Reply (List DeviceResponse)
or_public_devices [] public = public
or_public_devices (d ∷ ds) public = ok (d ∷ ds)

-- What `fetchDevices` comes back with.
unfoldable pub devices_of :
    Option String
    → Reply (List DeviceResponse)
    → Reply (List DeviceResponse)
    → Reply (List DeviceResponse)
devices_of token mine public = or_public_devices (my_devices (truthy? token) mine) public

-- `prev || x`
abbrev pub prev_or : String → String → String
prev_or prev x = if truthy prev then prev else x

abbrev pub is_active : DeviceStatus → Bool
is_active active = true
is_active _ = false

-- `devs.find(d => d.status === "ACTIVE") || devs[0]`
abbrev pub active_or_first : List DeviceResponse → Option DeviceResponse
active_or_first ds = elim (find (λ d. is_active d.status) ds) [ none ↦ first ds | some d ↦ some d ]

abbrev pub select_device : Option DeviceResponse → LauncherPage → LauncherPage
select_device none p = p
select_device (some d) p = record p { selected_device_id = prev_or p.selected_device_id d.id }

abbrev pub got_devices : Reply (List DeviceResponse) → LauncherPage → LauncherPage
got_devices (ok ds) p = select_device (active_or_first ds) (record p { devices = ds })
got_devices (failed m) p = p

-- Where the terminal is launched, or `none` where the button does nothing.
unfoldable pub handle_launch : LauncherPage → Option String
handle_launch p =
    if truthy p.selected_device_id
    then if truthy p.selected_election_id
      then some ("/evm/" <> (p.selected_device_id <> ("?election=" <> p.selected_election_id)))
      else none
    else none
