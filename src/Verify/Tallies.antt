-- ===== src/Verify/Tallies.antt =====
-- What the recounts of checkpoints 5 to 7 of the verify page add up to.
use secure_vote.Base.{
  ℕ, ◌+◌, ◌≡◌, refl, ◌∙◌, ◌↔◌, String, Bool, true, ◌||◌, List, [], ◌∷◌, arith, if◌then◌else◌, ◌===◌,
  eq_iff, is_some, get_or, lookup, insert, lookup-insert, sum_values, sum_values-nil,
  sum_values-insert, length, keep, any, all, length-keep-all,
}
use secure_vote.Types.Export.{BallotExportItem, CandidateExportItem, ElectionExportResponse}
use secure_vote.Verify.Checks.{
  zero_candidates, bump_known, count_candidates, candidate_recount, count_devices, device_recount,
}
use secure_vote.Verify.{ballots_of, candidates_of, reconciliation_passed}

-- The roster has a candidate of this identifier.
abbrev pub listed : List CandidateExportItem → String → Bool
listed cs k = any (λ c. c.id === k) cs

pub is_some-insert :
    (k j : String) (v : ℕ) (m : List (String × ℕ))
    → is_some (lookup j (insert k v m)) ≡ (k === j || is_some (lookup j m))
is_some-insert k j v m = rw (lookup-insert k j v m) (ground arith)

-- Counting adds no key.
pub is_some-bump_known :
    (k j : String) (m : List (String × ℕ))
    → is_some (lookup j (bump_known k m)) ≡ is_some (lookup j m)
unfolding bump_known
is_some-bump_known k j m =
    ground (arith, is_some-insert k j (get_or (lookup k m) 0 + 1) m, eq_iff k j)

pub sum_values-bump_known :
    (k : String) (m : List (String × ℕ))
    → sum_values (bump_known k m) ≡ sum_values m + (if is_some (lookup k m) then 1 else 0)
unfolding bump_known
sum_values-bump_known k m = ground (arith, sum_values-insert k (get_or (lookup k m) 0 + 1) m)

sum_values-count_candidates :
    (known : String → Bool) (m : List (String × ℕ))
    → ((k : String) → is_some (lookup k m) ≡ known k)
    → (bs : List BallotExportItem)
    → sum_values (count_candidates m bs)
      ≡ sum_values m + length (keep (λ b. known b.candidate_id) bs)
unfolding count_candidates
sum_values-count_candidates known m h [] = omega arith
sum_values-count_candidates known m h (b ∷ bs) =
    let rest =
      sum_values-count_candidates known (bump_known b.candidate_id m)
        (λ k. is_some-bump_known b.candidate_id k m ∙ h k) bs in
    ground (arith, rest, sum_values-bump_known b.candidate_id m, h b.candidate_id)

sum_values-zero_candidates :
    (m : List (String × ℕ)) (cs : List CandidateExportItem)
    → sum_values m ≡ 0
    → sum_values (zero_candidates m cs) ≡ 0
unfolding zero_candidates
sum_values-zero_candidates m [] h = h
sum_values-zero_candidates m (c ∷ cs) h =
    sum_values-zero_candidates (insert c.id 0 m) cs (omega (arith, sum_values-insert c.id 0 m))

is_some-zero_candidates :
    (m : List (String × ℕ)) (cs : List CandidateExportItem) (k : String)
    → is_some (lookup k (zero_candidates m cs)) ≡ (is_some (lookup k m) || listed cs k)
unfolding zero_candidates
is_some-zero_candidates m [] k = ground arith
is_some-zero_candidates m (c ∷ cs) k =
    ground (arith, is_some-zero_candidates (insert c.id 0 m) cs k, is_some-insert c.id k 0 m)

-- The candidate tally counts the ballots whose candidate is on the roster.
pub sum_values-candidate_recount :
    (cs : List CandidateExportItem) (bs : List BallotExportItem)
    → sum_values (candidate_recount cs bs) ≡ length (keep (λ b. listed cs b.candidate_id) bs)
unfolding candidate_recount
sum_values-candidate_recount cs bs = omega (
  arith,
  sum_values-count_candidates (listed cs) (zero_candidates [] cs)
      (λ k. is_some-zero_candidates [] cs k ∙ unfold lookup in refl) bs,
  sum_values-zero_candidates [] cs sum_values-nil,
)

sum_values-count_devices :
    (m : List (String × ℕ)) (bs : List BallotExportItem)
    → sum_values (count_devices m bs) ≡ sum_values m + length bs
unfolding count_devices
sum_values-count_devices m [] = omega arith
sum_values-count_devices m (b ∷ bs) =
    let next = get_or (lookup b.device_id m) 0 + 1 in
    omega (
      arith,
      sum_values-count_devices (insert b.device_id next m) bs,
      sum_values-insert b.device_id next m,
    )

-- The device tally counts every ballot, whatever device it names.
pub sum_values-device_recount :
    (bs : List BallotExportItem) → sum_values (device_recount bs) ≡ length bs
unfolding device_recount
sum_values-device_recount bs = omega (arith, sum_values-count_devices [] bs, sum_values-nil)

-- Checkpoint 7 passes exactly when the roster lists the candidate of every ballot.
pub reconciliation_passed_iff :
    (d : ElectionExportResponse)
    → (reconciliation_passed d ≡ true)
      ↔ (all (λ b. listed (candidates_of d) b.candidate_id) (ballots_of d) ≡ true)
unfolding reconciliation_passed
reconciliation_passed_iff d =
    let p = λ (b : BallotExportItem). listed (candidates_of d) b.candidate_id in
    let cands = sum_values-candidate_recount (candidates_of d) (ballots_of d) in
    let devs = sum_values-device_recount (ballots_of d) in
    let (to, from) = length-keep-all p (ballots_of d) in
    (λ h. to (ground (arith, cands)), λ h. ground (arith, cands, devs, from h))
