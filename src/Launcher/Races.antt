-- ===== src/Launcher/Races.antt =====
-- dashboard/app/(evm)/evm/page.tsx: runs that lead to a device of another election.
use secure_vote.Base.{
  String, ◌≡◌, refl, ap, ◌∙◌, Bool, true, false, Option, none, some, List, [], ◌∷◌, ◌++◌, truthy,
  ◌===◌, ◌<>◌, Reply, ok, failed,
}
use secure_vote.Types.{DeviceResponse}
use secure_vote.Selection.{ListedElection}
use secure_vote.Launcher.Fetches.{
  LauncherPage, open_elections, devices_of, active_or_first, got_devices, select_device,
  handle_launch,
}
use secure_vote.Launcher.Machine.{
  Call, World, Backend, Event, picked_election, pressed_seed, answered, devices, offers_election,
  offers_seed, seed, seed_message, step, run,
}

module _ (token : Option String) where
  picked :
      (id : String) (w : World) (ps : List Call)
      → offers_election id w.page ≡ true
      → (id === w.page.selected_election_id) ≡ false
      → truthy id ≡ true
      → w.pending ≡ ps
      → step token w (picked_election id) ≡ record {
        page = record w.page { selected_election_id = id; selected_device_id = "" };
        pending = ps ++ devices id ∷ [];
      }
  unfolding step
  picked id w ps offered new t e = rw (offered, new, t, e) refl

-- A device that is selected stays so.
select_device-selected :
    (o : Option DeviceResponse) (p : LauncherPage)
    → truthy p.selected_device_id ≡ true
    → select_device o p ≡ p
select_device-selected none p h = refl
select_device-selected (some d) p h = rw h refl

-- Two elections are picked, and their devices come in order.
abbrev pub two_picks : String → String → Backend → List Event
two_picks e1 e2 b = picked_election e1 ∷ picked_election e2 ∷ answered 0 b ∷ answered 0 b ∷ []

abbrev on_election : String → LauncherPage → LauncherPage
on_election id p = record p { selected_election_id = id; selected_device_id = "" }

abbrev two_lists : String → List DeviceResponse → List DeviceResponse → LauncherPage → LauncherPage
two_lists e2 ds1 ds2 p = got_devices (ok ds2) (got_devices (ok ds1) (on_election e2 p))

-- The second of two elections is fresh for the page and for the first one.
pub record ArePicked (w : World) (e1 e2 : String) : Type 0 where
  pub idle : w.pending ≡ []
  pub offered1 : offers_election e1 w.page ≡ true
  pub offered2 : offers_election e2 w.page ≡ true
  pub new1 : (e1 === w.page.selected_election_id) ≡ false
  pub new2 : (e2 === e1) ≡ false
  pub given1 : truthy e1 ≡ true
  pub given2 : truthy e2 ≡ true

two_picks-ends :
    (token : Option String) (w : World) (b : Backend) (e1 e2 : String)
    (ds1 ds2 : List DeviceResponse)
    → ArePicked w e1 e2
    → devices_of token (b.get_devices e1) (b.get_transparency_devices e1) ≡ ok ds1
    → devices_of token (b.get_devices e2) (b.get_transparency_devices e2) ≡ ok ds2
    → run token w (two_picks e1 e2 b) ≡ record { page = two_lists e2 ds1 ds2 w.page; pending = [] }
unfolding run
two_picks-ends token w b e1 e2 ds1 ds2 h list1 list2 =
    let after1 : World = record { page = on_election e1 w.page; pending = devices e1 ∷ [] } in
    rw
      (
        picked token e1 w [] h.offered1 h.new1 h.given1 h.idle,
        picked token e2 after1 (devices e1 ∷ []) h.offered2 h.new2 h.given2 refl,
        list1,
        list2,
      )
      refl

-- An election picked after another one is launched with the first one's device, also where the backend
-- answers in order: if no fetch is under way, both elections are offered, the first is not selected and
-- has an active or first device, then once both lists of devices are answered the second election is
-- selected with its devices, and the terminal is launched for the first one's device.
pub run-other_device :
    (token : Option String) (w : World) (b : Backend) (e1 e2 : String)
    (ds1 ds2 : List DeviceResponse) (d : DeviceResponse)
    → ArePicked w e1 e2
    → devices_of token (b.get_devices e1) (b.get_transparency_devices e1) ≡ ok ds1
    → devices_of token (b.get_devices e2) (b.get_transparency_devices e2) ≡ ok ds2
    → active_or_first ds1 ≡ some d
    → truthy d.id ≡ true
    → let v = run token w (two_picks e1 e2 b) in
      (v.pending ≡ [])
      × (v.page.selected_election_id ≡ e2)
      × (v.page.devices ≡ ds2)
      × (handle_launch v.page ≡ some ("/evm/" <> (d.id <> ("?election=" <> e2))))
unfolding handle_launch
run-other_device token w b e1 e2 ds1 ds2 d h list1 list2 first_of given =
    let chosen = record (on_election e2 w.page) { devices = ds1; selected_device_id = d.id } in
    let first_list : got_devices (ok ds1) (on_election e2 w.page) ≡ chosen = rw first_of refl in
    let ended : two_lists e2 ds1 ds2 w.page ≡ record chosen { devices = ds2 } =
      ap (got_devices (ok ds2)) first_list
      ∙ select_device-selected (active_or_first ds2) (record chosen { devices = ds2 }) given in
    rw (two_picks-ends token w b e1 e2 ds1 ds2 h list1 list2, ended)
      (refl, refl, refl, rw (given, h.given2) refl)

abbrev shown : Reply (List DeviceResponse) → List DeviceResponse → List DeviceResponse
shown (ok ds) old = ds
shown (failed m) old = old

got_devices-selected :
    (r : Reply (List DeviceResponse)) (p : LauncherPage)
    → truthy p.selected_device_id ≡ true
    → got_devices r p ≡ record p { devices = shown r p.devices }
got_devices-selected (ok ds) p h =
    select_device-selected (active_or_first ds) (record p { devices = ds }) h
got_devices-selected (failed m) p h = refl

pressed :
    (token : Option String) (reset : Bool) (w : World)
    → w.pending ≡ []
    → offers_seed reset w.page ≡ true
    → step token w (pressed_seed reset) ≡ record {
      page = record w.page { seeding = true; feedback_msg = some (seed_message reset) };
      pending = seed reset ∷ [];
    }
unfolding step
pressed token reset w idle free = rw (free, idle) refl

-- The demo election is seeded, and everything is answered in order.
abbrev pub seeding : Bool → Backend → List Event
seeding reset b =
    pressed_seed reset ∷ answered 0 b ∷ answered 0 b ∷ answered 0 b ∷ answered 0 b ∷ []

-- Seeding leads to the device of the election from before: where no fetch is under way, the page offers to
-- seed, the selected election is not the demo election, a device is selected, and the seeding and the list
-- of elections succeed, then once all is answered, whatever devices the demo election has, the terminal is
-- launched for that device in the demo election.
pub run-seeding_keeps_device :
    (token : Option String) (w : World) (b : Backend) (reset done : Bool) (es : List ListedElection)
    → w.pending ≡ []
    → offers_seed reset w.page ≡ true
    → ("EV-2026-001" === w.page.selected_election_id) ≡ false
    → truthy w.page.selected_device_id ≡ true
    → b.seed_demo_election reset ≡ ok done
    → open_elections token b.get_elections b.get_transparency_elections ≡ ok es
    → let v = run token w (seeding reset b) in
      (v.pending ≡ [])
      × (handle_launch v.page
          ≡ some ("/evm/" <> (w.page.selected_device_id <> ("?election=" <> "EV-2026-001"))))
unfolding run handle_launch
run-seeding_keeps_device token w b reset done es idle free other device seeded listed =
    let page = record w.page {
      seeding = true;
      feedback_msg = some "Demo election seeded successfully! Loading devices...";
      loading = true;
    } in
    rw (pressed token reset w idle free, seeded, listed, other)
      (rw
        (
          got_devices-selected
              (devices_of token (b.get_devices "EV-2026-001")
                (b.get_transparency_devices "EV-2026-001"))
              (record page {
                elections = es;
                selected_election_id = "EV-2026-001";
                loading = false;
                seeding = false;
              })
              device,
          device,
        )
        (refl, refl))
