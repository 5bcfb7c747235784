-- ===== src/Desk/Simulation.antt =====
-- dashboard/app/(officer)/election/simulation/page.tsx, with the provider of ElectionContext.tsx, which
-- it asks for a refresh: `refresh` is that refresh with its answers. Of the answer to a simulation, the
-- page reads the identifier; the rest is a value of type `Rest`.
use secure_vote.Base.{
  String, Bool, true, false, Option, none, some, List, [], ◌∷◌, ◌<>◌, or_text, Reply, ok, failed,
}
use secure_vote.Selection.{Elections}

pub record SimulationResponse (Rest : Type 0) : Type 0 where
  pub election_id : Option String
  pub rest : Rest

pub record SimulationPage (Rest : Type 0) : Type 0 where
  pub elections : Elections
  pub loading : Bool
  pub seed_loading : Bool
  pub error : Option String
  pub success_msg : Option String
  pub preset : String
  pub result : Option (SimulationResponse Rest)

pub record Preset : Type 0 where
  pub id : String
  pub name : String
  pub voters : String
  pub stations : String
  pub devices : String
  pub candidates : String
  pub turnout : String
  pub desc : String

abbrev pub presets : List Preset
presets =
    record {
      id = "DEMO_1000";
      name = "Small Scale (DEMO_1000)";
      voters = "1,000 Voters";
      stations = "2 Stations";
      devices = "4 EVM Units";
      candidates = "4 Candidates";
      turnout = "~700 Ballots";
      desc = "Fast in-memory load test ideal for UI smoke testing and verifier benchmarks.";
    }
    ∷ record {
      id = "DEMO_10000";
      name = "Constituency Segment (DEMO_10000)";
      voters = "10,000 Voters";
      stations = "10 Stations";
      devices = "20 EVM Units";
      candidates = "6 Candidates";
      turnout = "~7,000 Ballots";
      desc =
          "Comprehensive multi-polling-station dataset for round-by-round counting verification.";
    }
    ∷ record {
      id = "DEMO_100000";
      name = "India Assembly Scale (DEMO_100000)";
      voters = "100,000 Voters";
      stations = "50 Stations";
      devices = "100 EVM Units";
      candidates = "8 Candidates";
      turnout = "~70,000 Ballots";
      desc = "High-density stress test verifying cryptographic hash chain scalability.";
    }
    ∷ []

module _ {Rest : Type 0} where
  abbrev pub simulated :
      Reply (SimulationResponse Rest)
      → (Elections → Elections)
      → SimulationPage Rest
      → SimulationPage Rest
  simulated (ok d) refresh p = record p {
    result = some d;
    success_msg =
        some ("Successfully generated simulated election: " <> or_text d.election_id "EV-2026-SIM");
    elections = refresh p.elections;
    loading = false;
  }
  simulated (failed m) refresh p = record p { error = some m; loading = false }

  -- What is sent: the preset, and the name of the election.
  unfoldable pub handle_run_simulation :
      (String → String → Reply (SimulationResponse Rest))
      → (Elections → Elections)
      → SimulationPage Rest
      → SimulationPage Rest
  handle_run_simulation run_simulation refresh p =
      simulated (run_simulation p.preset ("Simulated Election (" <> (p.preset <> ")"))) refresh
        (record p { loading = true; error = none; success_msg = none })

  abbrev pub seeded {κ} :
      {B : Type κ} → Reply B → (Elections → Elections) → SimulationPage Rest → SimulationPage Rest
  seeded (ok d) refresh p = record p {
    success_msg =
        some
          "Golden Demo Election (EV-2026-001) seeded successfully with 4 candidates and 20 eligible voters!";
    elections = refresh p.elections;
    seed_loading = false;
  }
  seeded (failed m) refresh p = record p { error = some m; seed_loading = false }

  unfoldable pub handle_seed_golden_demo {κ} :
      {B : Type κ} → Reply B → (Elections → Elections) → SimulationPage Rest → SimulationPage Rest
  handle_seed_golden_demo reply refresh p =
      seeded reply refresh (record p { seed_loading = true; error = none; success_msg = none })
