-- ===== src/Verify/Examples.antt =====
-- The theorems on the verify page at a small archive.
use secure_vote.Base.{
  ◌≡◌, refl, ◌↔◌, ◌≢◌, true, String, [], ◌∷◌, some, insert, lookup, sum_values, false, eq_iff,
  ◌===◌, ◌≤◌, none, if◌then◌else◌, List, arith,
}
use secure_vote.Verify.{passed, ballots_of, candidates_of, run_verification}
use secure_vote.Verify.Checks.{
  sequences_valid, ballot_hashes_valid, candidate_recount, device_recount, audit_chain_valid,
}
use secure_vote.Verify.Page.{tamper, deadbeef}
use secure_vote.Verify.Sequences.{sequence_of, IsIncreasing, sequences_valid_iff}
use secure_vote.Verify.Tallies.{listed}
use secure_vote.Verify.Counts.{ballots_for, lookup-candidate_recount}
use secure_vote.Verify.Verdict.{IsAccepted, run_verification-passed_iff}
use secure_vote.Verify.Tamper.{tamper-passed_iff, move_votes, move_votes-unnoticed}
use mathlib.Core.List.{Permᴰ}
use mathlib.Core.Quot
use secure_vote.Types.Export.{BallotExportItem}
use secure_vote.Verify.Box.{verdict-of_box}
use secure_vote.Verify.Samples.{ballot, archive, opened_entry, closed_entry}

sequences_valid_iff_example :
    (sequences_valid (ballots_of archive) ≡ true)
    ↔ ((dev : String) → IsIncreasing (sequence_of dev (ballots_of archive)))
sequences_valid_iff_example = sequences_valid_iff (ballots_of archive)

run_verification-passed_iff_example :
    ((run_verification archive).overall_status ≡ passed) ↔ IsAccepted archive
run_verification-passed_iff_example = run_verification-passed_iff archive

archive-accepted : (run_verification archive).overall_status ≡ passed
unfolding run_verification ballot_hashes_valid sequences_valid insert lookup sum_values
    candidate_recount device_recount audit_chain_valid
archive-accepted = refl

not_planted : (h : String) → (h === deadbeef) ≡ false → h ≢ deadbeef
not_planted h q e = cc ((eq_iff h deadbeef).1 e, q)

tamper-passed_iff_example : ((run_verification (tamper archive)).overall_status ≡ passed) ↔ (2 ≤ 1)
tamper-passed_iff_example =
    tamper-passed_iff archive (opened_entry ∷ closed_entry ∷ []) (ballots_of archive) refl refl
      (not_planted opened_entry.entry_hash refl, (not_planted closed_entry.entry_hash refl, tt))
      archive-accepted

-- Every vote goes to C001.
all_to_first : String → String
all_to_first k = "C001"

first_listed :
    (k : String)
    → listed (candidates_of archive) k ≡ true
    → listed (candidates_of archive) (all_to_first k) ≡ true
unfolding all_to_first
first_listed k h = refl

move_votes-unnoticed_example :
    (run_verification (record archive {
      ballots = some (move_votes all_to_first (ballots_of archive));
    })).overall_status
    ≡ passed
move_votes-unnoticed_example =
    move_votes-unnoticed all_to_first archive first_listed archive-accepted

lookup-candidate_recount_example :
    lookup "C001" (candidate_recount (candidates_of archive) (ballots_of archive)) ≡ (
      if listed (candidates_of archive) "C001"
      then some (ballots_for "C001" (ballots_of archive))
      else none)
lookup-candidate_recount_example =
    lookup-candidate_recount (candidates_of archive) (ballots_of archive) "C001"

abbrev other_ballot : BallotExportItem
other_ballot = record (ballot "C002" 1) { device_id = "EVM-2" }

-- One ballot each of two devices, in both orders.
abbrev two_devices : List BallotExportItem
two_devices = ballot "C001" 1 ∷ other_ballot ∷ []

abbrev turned : List BallotExportItem
turned = other_ballot ∷ ballot "C001" 1 ∷ []

apart : ("EVM-1" === "EVM-2") ≡ false
apart = refl

turned-sequences : (dev : String) → sequence_of dev two_devices ≡ sequence_of dev turned
turned-sequences dev = ground (arith, apart, eq_iff "EVM-1" dev, eq_iff "EVM-2" dev)

verdict-of_box_example :
    ((run_verification (record archive { ballots = some turned })).overall_status
      ≡ (run_verification (record archive { ballots = some two_devices })).overall_status)
    × (lookup "C001" (candidate_recount (candidates_of archive) turned)
        ≡ lookup "C001" (candidate_recount (candidates_of archive) two_devices))
verdict-of_box_example =
    verdict-of_box (record archive { ballots = some two_devices }) two_devices turned "C001" refl
      (Quot.sound (Permᴰ.swap refl refl)) turned-sequences
