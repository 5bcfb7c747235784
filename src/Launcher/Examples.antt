-- ===== src/Launcher/Examples.antt =====
-- The theorems on the launcher at single elections.
use secure_vote.Base.{◌≡◌, refl, String, true, false, none, some, List, [], ◌∷◌, ok, failed, ◌<>◌}
use secure_vote.Types.{DeviceResponse, active, opened}
use secure_vote.Types.Samples.{sample_election, sample_device}
use secure_vote.Selection.{of_election}
use secure_vote.Launcher.Fetches.{open_elections, devices_of, handle_launch}
use secure_vote.Launcher.Machine.{
  World, Backend, Event, picked_election, picked_device, answered, start, step, run,
}
use secure_vote.Launcher.Consistent.{is_listed, AreOrderly, run-selected_listed}
use secure_vote.Launcher.Races.{
  ArePicked, two_picks, run-other_device, seeding, run-seeding_keeps_device,
}

-- Each election has one device.
abbrev devices_for : String → List DeviceResponse
devices_for k = sample_device ("EVM-" <> k) k active ∷ []

abbrev backend : Backend
backend = record {
  get_elections = ok (sample_election "E1" opened ∷ sample_election "E2" opened ∷ []);
  get_transparency_elections = ok [];
  get_devices = λ k. ok (devices_for k);
  get_transparency_devices = λ k. failed "not asked";
  seed_demo_election = λ reset. ok true;
}

abbrev picks : List Event
picks =
    answered 0 backend
    ∷ answered 0 backend
    ∷ picked_election "E2"
    ∷ answered 0 backend
    ∷ picked_device "EVM-E2"
    ∷ []

picks_test : handle_launch (run (some "t") start picks).page ≡ some "/evm/EVM-E2?election=E2"
unfolding run handle_launch open_elections devices_of
picks_test = refl

picks-AreOrderly : AreOrderly (some "t") backend start picks
unfolding run step open_elections devices_of
picks-AreOrderly = (refl, (refl, (refl, (refl, (refl, tt)))))

run-selected_listed_example :
    ((run (some "t") start picks).page.devices ≡ devices_for "E2")
    × (is_listed "EVM-E2" (devices_for "E2") ≡ true)
unfolding run step open_elections devices_of
run-selected_listed_example =
    run-selected_listed (some "t") backend devices_for picks (λ k. refl) picks-AreOrderly refl refl
      refl

-- The first of three elections is selected, with its device.
abbrev loaded : World
loaded = record {
  page = record {
    elections =
        of_election (sample_election "E0" opened)
        ∷ of_election (sample_election "E1" opened)
        ∷ of_election (sample_election "E2" opened)
        ∷ [];
    selected_election_id = "E0";
    devices = devices_for "E0";
    selected_device_id = "EVM-E0";
    loading = false;
    seeding = false;
    feedback_msg = none;
  };
  pending = [];
}

loaded-ArePicked : ArePicked loaded "E1" "E2"
loaded-ArePicked = record {
  idle = refl;
  offered1 = refl;
  offered2 = refl;
  new1 = refl;
  new2 = refl;
  given1 = refl;
  given2 = refl;
}

run-other_device_example :
    let v = run (some "t") loaded (two_picks "E1" "E2" backend) in
    (v.pending ≡ [])
    × (v.page.selected_election_id ≡ "E2")
    × (v.page.devices ≡ devices_for "E2")
    × (handle_launch v.page ≡ some ("/evm/" <> ("EVM-E1" <> ("?election=" <> "E2"))))
unfolding devices_of
run-other_device_example =
    run-other_device (some "t") loaded backend "E1" "E2" (devices_for "E1") (devices_for "E2")
      (sample_device "EVM-E1" "E1" active) loaded-ArePicked refl refl refl refl

run-seeding_keeps_device_example :
    let v = run (some "t") loaded (seeding true backend) in
    (v.pending ≡ [])
    × (handle_launch v.page ≡ some ("/evm/" <> ("EVM-E0" <> ("?election=" <> "EV-2026-001"))))
unfolding open_elections
run-seeding_keeps_device_example =
    run-seeding_keeps_device (some "t") loaded backend true true
      (of_election (sample_election "E1" opened) ∷ of_election (sample_election "E2" opened) ∷ [])
      refl refl refl refl refl refl
