-- ===== src/Launcher/Machine.antt =====
-- dashboard/app/(evm)/evm/page.tsx: the page with its calls under way.
use secure_vote.Base.{
  ℕ, String, Bool, true, false, not, ◌&&◌, ◌||◌, Option, none, some, List, [], ◌∷◌, ◌++◌, any,
  take_at, if◌then◌else◌, truthy, or_text, ◌<>◌, ◌===◌, Reply, ok, failed,
}
use secure_vote.Types.{ElectionResponse, TransparencyOverview, DeviceResponse}
use secure_vote.Selection.{ListedElection}
use secure_vote.Launcher.Fetches.{
  LauncherPage, initial, open_elections, devices_of, prev_or, got_devices,
}

-- `reseeded` is the fetch within `handleSeedDemo`, and `message` its timer.
pub data Call : Type 0 where
  elections reseeded message : Call
  devices : String → Call
  seed : Bool → Call

pub record World : Type 0 where
  pub page : LauncherPage
  pub pending : List Call

-- What the backend answers; a timer's answer is that it is due.
pub record Backend : Type 0 where
  pub get_elections : Reply (List ElectionResponse)
  pub get_transparency_elections : Reply (List TransparencyOverview)
  pub get_devices : String → Reply (List DeviceResponse)
  pub get_transparency_devices : String → Reply (List DeviceResponse)
  pub seed_demo_election : Bool → Reply Bool

pub data Event : Type 0 where
  picked_election picked_device : String → Event
  pressed_seed : Bool → Event
  answered : ℕ → Backend → Event

-- After the effects of the mount.
abbrev pub start : World
start = record { page = initial; pending = elections ∷ [] }

-- The effect runs where the selected election has changed.
unfoldable pub select_election : String → World → World
select_election id w =
    if id === w.page.selected_election_id
    then w
    else if truthy id
    then record {
      page = record w.page { selected_election_id = id };
      pending = w.pending ++ devices id ∷ [];
    }
    else record w { page = record w.page { selected_election_id = id; devices = [] } }

abbrev pub show_elections : Reply (List ListedElection) → LauncherPage → LauncherPage
show_elections (ok es) p = record p { elections = es; loading = false }
show_elections (failed m) p = record p { loading = false }

abbrev pub first_id : Reply (List ListedElection) → String → String
first_id (ok (e ∷ es)) selected = prev_or selected e.id
first_id _ selected = selected

abbrev pub got_elections : Reply (List ListedElection) → World → World
got_elections reply w =
    select_election (first_id reply w.page.selected_election_id)
      (record w { page = show_elections reply w.page })

abbrev pub got_seed : Reply Bool → World → World
got_seed (ok done) w = record {
  page = record w.page {
    feedback_msg = some "Demo election seeded successfully! Loading devices...";
    loading = true;
  };
  pending = w.pending ++ reseeded ∷ [];
}
got_seed (failed m) w = record w {
  page = record w.page {
    feedback_msg = some ("Seeding failed: " <> or_text (some m) "Unknown error");
    seeding = false;
  };
}

-- The demo election is selected, whichever device is. The selection within the fetch is not rendered
-- by itself, so its effect does not run.
abbrev pub got_reseeded : Reply (List ListedElection) → World → World
got_reseeded reply w =
    let v = select_election "EV-2026-001" (record w { page = show_elections reply w.page }) in
    record { page = record v.page { seeding = false }; pending = v.pending ++ message ∷ [] }

unfoldable pub resume : Option String → Backend → Call → World → World
unfolding select_election
resume token b elections w =
    got_elections (open_elections token b.get_elections b.get_transparency_elections) w
resume token b (devices id) w = record w {
  page = got_devices (devices_of token (b.get_devices id) (b.get_transparency_devices id)) w.page;
}
resume token b (seed reset) w = got_seed (b.seed_demo_election reset) w
resume token b reseeded w =
    got_reseeded (open_elections token b.get_elections b.get_transparency_elections) w
resume token b message w = record w { page = record w.page { feedback_msg = none } }

abbrev pub answer_call : Option String → Backend → World → Option (Call × List Call) → World
answer_call token b w none = w
answer_call token b w (some (c, cs)) = resume token b c (record w { pending = cs })

-- The two lists and the button that resets are shown where elections are listed.
abbrev pub is_listing : LauncherPage → Bool
is_listing p = if p.loading then false else any (λ e. true) p.elections

-- What the two lists offer; their first entry is the empty text.
abbrev pub offers_election : String → LauncherPage → Bool
offers_election id p =
    if is_listing p then not (truthy id) || any (λ e. e.id === id) p.elections else false

abbrev pub offers_device : String → LauncherPage → Bool
offers_device id p =
    if is_listing p
    then truthy p.selected_election_id && (not (truthy id) || any (λ d. d.id === id) p.devices)
    else false

-- Elections that are listed can be reset; where none is, the demo election can be seeded.
abbrev pub offers_seed : Bool → LauncherPage → Bool
offers_seed reset p =
    if p.loading || p.seeding then false else if reset then is_listing p else not (is_listing p)

abbrev pub seed_message : Bool → String
seed_message reset =
    if reset
    then "Resetting and seeding demo election (EV-2026-001)..."
    else "Seeding deterministic demo election (EV-2026-001)..."

unfoldable pub step : Option String → World → Event → World
unfolding select_election resume
step token w (picked_election id) =
    if offers_election id w.page
    then select_election id (record w { page = record w.page { selected_device_id = "" } })
    else w
step token w (picked_device id) =
    if offers_device id w.page
    then record w { page = record w.page { selected_device_id = id } }
    else w
step token w (pressed_seed reset) =
    if offers_seed reset w.page
    then record {
      page = record w.page { seeding = true; feedback_msg = some (seed_message reset) };
      pending = w.pending ++ seed reset ∷ [];
    }
    else w
step token w (answered n b) = answer_call token b w (take_at n w.pending)

unfoldable pub run : Option String → World → List Event → World
unfolding step
run token w [] = w
run token w (e ∷ es) = run token (step token w e) es
