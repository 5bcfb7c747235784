-- ===== src/Officer/Examples.antt =====
-- The theorems on the officer's pages at two elections.
use secure_vote.Base.{
  ◌≡◌, ◌≢◌, refl, ap, sym, String, true, false, none, some, List, [], ◌∷◌, Reply, ok, failed, arith,
}
use secure_vote.Types.Samples.{sample_election}
use secure_vote.Types.{admin, opened, ElectionResponse}
use secure_vote.Types.Reports.{VerificationResponse}
use secure_vote.Officer.{target}
use secure_vote.Officer.Results.{Backend, initial, elections_for}
use secure_vote.Officer.Reload.{
  World, Service, Event, signing, answered, fetching, alone, pressed_verify, pressed_sign, run,
  first_world, step,
}
use secure_vote.Officer.Shown.{AreOrderly, Shows, IsHonest, run-Shows}
use secure_vote.Officer.Reload
use secure_vote.Officer.Ends.{answers, run-answers_end}

abbrev election : String → ElectionResponse
election id = sample_election id opened

-- The results of an election; shares are not read.
abbrev results_for : String → VerificationResponse Unit
results_for k = record {
  election_id = k;
  config_hash_valid = true;
  audit_chain_intact = true;
  reconciliation_passed = true;
  tally_independently_verified = true;
  overall_status = "PASSED";
  manifest = none;
  details = [];
}

abbrev backend : Backend Unit
backend = record {
  get_elections = ok (election "E1" ∷ election "E2" ∷ []);
  get_results = λ k. ok (results_for k);
  get_election_anchors = λ k. failed "Not found";
}

abbrev id_of : Reply (VerificationResponse Unit) → String
id_of (ok r) = r.election_id
id_of (failed m) = m

abbrev service : Service Unit
service = record {
  backend = backend;
  run_verification = λ k. ok (results_for k);
  sign_election_manifest = λ k. failed "No manifest";
  create_election_anchor = λ k. failed "No manifest";
}

service-IsHonest : IsHonest service
service-IsHonest = record {
  of_results = λ k r e. ap id_of (sym e);
  of_verification = λ k r e. ap id_of (sym e);
}

-- One election is loaded and verified, and another one is loaded.
abbrev two_elections : List (Event Unit)
two_elections =
    Reload.opened "E1"
    ∷ answered 0 service
    ∷ answered 0 service
    ∷ answered 0 service
    ∷ pressed_verify (some "T") (some admin)
    ∷ answered 0 service
    ∷ Reload.opened "E2"
    ∷ answered 0 service
    ∷ answered 0 service
    ∷ answered 0 service
    ∷ []

two_elections-shown :
    ((run (first_world Unit) two_elections).page.results ≡ some (results_for "E2"))
    × ((run (first_world Unit) two_elections).page.selected_election_id ≡ "E2")
unfolding run target
two_elections-shown = (refl, refl)

two_elections-elections : (run (first_world Unit) two_elections).page.elections ≢ []
unfolding run target
two_elections-elections = λ e. cc e

two_elections-AreOrderly : AreOrderly (first_world Unit) two_elections
unfolding step run target
two_elections-AreOrderly = (
  refl,
  (
    service-IsHonest,
    (
      service-IsHonest,
      (
        service-IsHonest,
        (
          refl,
          (
            service-IsHonest,
            (refl, (service-IsHonest, (service-IsHonest, (service-IsHonest, tt)))),
          ),
        ),
      ),
    ),
  ),
)

two_elections-ended :
    ((run (first_world Unit) two_elections).pending ≡ [])
    × ((run (first_world Unit) two_elections).page.error ≡ none)
unfolding run target
two_elections-ended = (refl, refl)

run-Shows_example : Shows (run (first_world Unit) two_elections).page
run-Shows_example =
    run-Shows two_elections two_elections-AreOrderly two_elections-ended.0 two_elections-ended.1
      two_elections-elections

-- The answer to a verification comes after another election has been picked and loaded: its results
-- are shown with the other one selected.
abbrev late_verification : List (Event Unit)
late_verification =
    Reload.opened "E1"
    ∷ answered 0 service
    ∷ answered 0 service
    ∷ answered 0 service
    ∷ pressed_verify (some "T") (some admin)
    ∷ Reload.opened "E2"
    ∷ answered 1 service
    ∷ answered 1 service
    ∷ answered 1 service
    ∷ answered 0 service
    ∷ []

late_verification_test :
    let w = run (first_world Unit) late_verification in
    (w.page.results ≡ some (results_for "E1"))
    × (w.page.selected_election_id ≡ "E2")
    × (w.page.error ≡ none)
    × (w.pending ≡ [])
unfolding run target
late_verification_test = (refl, refl, refl, refl)

-- Two fetches that overlap, where the backend answers with the results of the first last.
abbrev overlapping : List (Event Unit)
overlapping =
    Reload.opened "E1"
    ∷ Reload.opened "E2"
    ∷ answered 0 service
    ∷ answered 0 service
    ∷ answered 1 service
    ∷ answered 0 service
    ∷ answered 0 service
    ∷ answered 0 service
    ∷ []

overlapping_test :
    let w = run (first_world Unit) overlapping in
    (w.page.results ≡ some (results_for "E1"))
    × (w.page.selected_election_id ≡ "E2")
    × (w.page.error ≡ none)
    × (w.pending ≡ [])
unfolding run target
overlapping_test = (refl, refl, refl, refl)

-- A signature that the backend refuses.
signing_test :
    let w = run (first_world Unit) (
      Reload.opened "E1"
      ∷ answered 0 service
      ∷ answered 0 service
      ∷ answered 0 service
      ∷ pressed_sign (some "T") (some admin)
      ∷ answered 0 service
      ∷ []) in
    (w.page.error ≡ some "No manifest") × (w.page.sign_loading ≡ false)
unfolding run target
signing_test = (refl, refl)

abbrev waiting : World Unit
waiting = record {
  page = initial Unit;
  pending = fetching alone (elections_for "E1") ∷ signing "E1" ∷ [];
}

-- Three answers for the fetch, and four for the signature.
abbrev seven_answers : List (Service Unit)
seven_answers = service ∷ service ∷ service ∷ service ∷ service ∷ service ∷ service ∷ []

run-answers_end_example :
    let v = run waiting (answers seven_answers) in (v.pending ≡ []) × (v.page.loading ≡ false)
run-answers_end_example = run-answers_end waiting seven_answers (λ e. cc e) (omega arith)
