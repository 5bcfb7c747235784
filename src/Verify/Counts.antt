-- ===== src/Verify/Counts.antt =====
-- The recounts of checkpoints 5 and 6 of the verify page against the count that they stand for.
use secure_vote.Base.{
  ℕ, zero, ◌+◌, ◌≡◌, refl, String, List, [], ◌∷◌, Option, none, some, arith, if◌then◌else◌, ◌===◌,
  eq_iff, get_or, lookup, insert, lookup-insert, lookup-nil, length, keep,
}
use secure_vote.Types.Export.{BallotExportItem, CandidateExportItem}
use secure_vote.Verify.Checks.{
  zero_candidates, bump_known, count_candidates, candidate_recount, count_devices, device_recount,
}
use secure_vote.Verify.Tallies.{listed}

-- How many ballots name the candidate `k`.
abbrev pub ballots_for : String → List BallotExportItem → ℕ
ballots_for k bs = length (keep (λ b. b.candidate_id === k) bs)

-- How many ballots come from the device `k`.
abbrev pub ballots_from : String → List BallotExportItem → ℕ
ballots_from k bs = length (keep (λ b. b.device_id === k) bs)

-- `n` more votes for a candidate that has an entry.
abbrev raised : ℕ → Option ℕ → Option ℕ
raised n none = none
raised n (some v) = some (v + n)

lookup-bump_known :
    (asked name : String) (m : List (String × ℕ))
    → lookup asked (bump_known name m) ≡ raised (if name === asked then 1 else 0) (lookup asked m)
unfolding bump_known
lookup-bump_known asked name m =
    ground (arith, lookup-insert name asked (get_or (lookup name m) 0 + 1) m, eq_iff name asked)

raised-raised : (a b : ℕ) (o : Option ℕ) → raised a (raised b o) ≡ raised (b + a) o
raised-raised a b none = refl
raised-raised a b (some v) = ground arith

lookup-count_candidates :
    (k : String) (m : List (String × ℕ)) (bs : List BallotExportItem)
    → lookup k (count_candidates m bs) ≡ raised (ballots_for k bs) (lookup k m)
unfolding count_candidates
lookup-count_candidates k m [] = ground arith
lookup-count_candidates k m (b ∷ bs) =
    let rest = lookup-count_candidates k (bump_known b.candidate_id m) bs in
    ground (arith, rest, lookup-bump_known k b.candidate_id m)

lookup-zero_candidates :
    (k : String) (m : List (String × ℕ)) (cs : List CandidateExportItem)
    → lookup k (zero_candidates m cs) ≡ (if listed cs k then some 0 else lookup k m)
unfolding zero_candidates
lookup-zero_candidates k m [] = refl
lookup-zero_candidates k m (c ∷ cs) =
    let rest = lookup-zero_candidates k (insert c.id 0 m) cs in
    ground (arith, rest, lookup-insert c.id k 0 m)

-- The candidate tally has, for each candidate of the roster, the number of ballots that name it, and
-- no entry for anything else.
pub lookup-candidate_recount :
    (cs : List CandidateExportItem) (bs : List BallotExportItem) (k : String)
    → lookup k (candidate_recount cs bs) ≡ (if listed cs k then some (ballots_for k bs) else none)
unfolding candidate_recount
lookup-candidate_recount cs bs k = ground (
  arith,
  lookup-count_candidates k (zero_candidates [] cs) bs,
  lookup-zero_candidates k [] cs,
  lookup-nil {V = ℕ} k,
)

-- A count as the device tally keeps it: nothing is kept before the first ballot.
abbrev pub kept_count : ℕ → Option ℕ
kept_count zero = none
kept_count n = some n

abbrev counted : ℕ → Option ℕ → Option ℕ
counted zero o = o
counted n o = some (get_or o 0 + n)

lookup-count_devices :
    (k : String) (m : List (String × ℕ)) (bs : List BallotExportItem)
    → lookup k (count_devices m bs) ≡ counted (ballots_from k bs) (lookup k m)
unfolding count_devices
lookup-count_devices k m [] = refl
lookup-count_devices k m (b ∷ bs) =
    let next = get_or (lookup b.device_id m) 0 + 1 in
    let rest = lookup-count_devices k (insert b.device_id next m) bs in
    ground (arith, rest, lookup-insert b.device_id k next m, eq_iff b.device_id k)

-- The device tally has, for each device that a ballot names, the number of its ballots, and no entry
-- for any other device.
pub lookup-device_recount :
    (bs : List BallotExportItem) (k : String)
    → lookup k (device_recount bs) ≡ kept_count (ballots_from k bs)
unfolding device_recount
lookup-device_recount bs k =
    let n = ballots_from k bs in ground (arith, lookup-count_devices k [] bs, lookup-nil {V = ℕ} k)
