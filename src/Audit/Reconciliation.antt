-- ===== src/Audit/Reconciliation.antt =====
-- What the officer's recount adds up to, and the checks that follow from it.
use secure_vote.Base.{
  ℕ, ◌+◌, ◌≡◌, refl, ap, fun_ext, ◌∙◌, ◌↔◌, String, Bool, true, ◌&&◌, ◌||◌, List, [], ◌∷◌, arith,
  ◌===◌, is_some, lookup, insert, sum_values, sum_values-nil, sum_values-insert, length, keep, any,
  all, length-keep-le, length-keep-all,
}
use secure_vote.Types.Export.{
  BallotExportItem, CandidateExportItem, DeviceExportItem, ElectionExportResponse,
}
use secure_vote.Verify.Checks.{bump_known}
use secure_vote.Verify.Tallies.{listed, is_some-insert, is_some-bump_known, sum_values-bump_known}
use secure_vote.Verify.{ballots_of, candidates_of}
use secure_vote.Audit.{
  Recount, zero_each, recount_step, recount_from, recount, devices_of, drift, checks, candidate_ids,
  device_ids,
}

-- `ks` has the key `k`.
abbrev among : List String → String → Bool
among ks k = any (λ j. j === k) ks

sum_values-zero_each :
    (ks : List String) (m : List (String × ℕ)) → sum_values m ≡ 0 → sum_values (zero_each ks m) ≡ 0
unfolding zero_each
sum_values-zero_each [] m h = h
sum_values-zero_each (k ∷ ks) m h =
    sum_values-zero_each ks (insert k 0 m) (omega (arith, sum_values-insert k 0 m))

is_some-zero_each :
    (ks : List String) (m : List (String × ℕ)) (k : String)
    → is_some (lookup k (zero_each ks m)) ≡ (is_some (lookup k m) || among ks k)
unfolding zero_each
is_some-zero_each [] m k = ground arith
is_some-zero_each (j ∷ ks) m k =
    ground (arith, is_some-zero_each ks (insert j 0 m) k, is_some-insert j k 0 m)

-- A tally that counts each ballot under the key `key b` where that is known.
module _ (key : BallotExportItem → String) where
  counts_from : List (String × ℕ) → List BallotExportItem → List (String × ℕ)
  counts_from m [] = m
  counts_from m (b ∷ bs) = counts_from (bump_known (key b) m) bs

  sum_values-counts_from :
      (known : String → Bool) (m : List (String × ℕ))
      → ((k : String) → is_some (lookup k m) ≡ known k)
      → (bs : List BallotExportItem)
      → sum_values (counts_from m bs) ≡ sum_values m + length (keep (λ b. known (key b)) bs)
  unfolding counts_from
  sum_values-counts_from known m h [] = omega arith
  sum_values-counts_from known m h (b ∷ bs) =
      let rest =
        sum_values-counts_from known (bump_known (key b) m)
          (λ k. is_some-bump_known (key b) k m ∙ h k) bs in
      ground (arith, rest, sum_values-bump_known (key b) m, h (key b))

  sum_values-counts_from_zero :
      (ks : List String) (bs : List BallotExportItem)
      → sum_values (counts_from (zero_each ks []) bs) ≡ length (keep (λ b. among ks (key b)) bs)
  sum_values-counts_from_zero ks bs = omega (
    arith,
    sum_values-counts_from (among ks) (zero_each ks [])
        (λ k. is_some-zero_each ks [] k ∙ unfold lookup in refl) bs,
    sum_values-zero_each ks [] sum_values-nil,
  )

recount_from-counted_cand :
    (r : Recount) (bs : List BallotExportItem)
    → (recount_from r bs).counted_cand ≡ counts_from (λ b. b.candidate_id) r.counted_cand bs
unfolding recount_from recount_step counts_from
recount_from-counted_cand r [] = refl
recount_from-counted_cand r (b ∷ bs) = recount_from-counted_cand (recount_step r b) bs

recount_from-counted_dev :
    (r : Recount) (bs : List BallotExportItem)
    → (recount_from r bs).counted_dev ≡ counts_from (λ b. b.device_id) r.counted_dev bs
unfolding recount_from recount_step counts_from
recount_from-counted_dev r [] = refl
recount_from-counted_dev r (b ∷ bs) = recount_from-counted_dev (recount_step r b) bs

-- The archive lists a device of this identifier.
abbrev pub registered : List DeviceExportItem → String → Bool
registered ds k = any (λ d. d.id === k) ds

among-candidate_ids :
    (cs : List CandidateExportItem) (k : String) → among (candidate_ids cs) k ≡ listed cs k
among-candidate_ids [] k = refl
among-candidate_ids (c ∷ cs) k = rw (among-candidate_ids cs k)

among-device_ids :
    (ds : List DeviceExportItem) (k : String) → among (device_ids ds) k ≡ registered ds k
among-device_ids [] k = refl
among-device_ids (d ∷ ds) k = rw (among-device_ids ds k)

abbrev pub candidate_listed : ElectionExportResponse → BallotExportItem → Bool
candidate_listed d b = listed (candidates_of d) b.candidate_id

abbrev pub device_registered : ElectionExportResponse → BallotExportItem → Bool
device_registered d b = registered (devices_of d) b.device_id

sum_values-counted_cand :
    (d : ElectionExportResponse)
    → sum_values (recount d).counted_cand ≡ length (keep (candidate_listed d) (ballots_of d))
unfolding recount
sum_values-counted_cand d =
    rw
      (
        recount_from-counted_cand _ (ballots_of d),
        sum_values-counts_from_zero (λ b. b.candidate_id) (candidate_ids (candidates_of d))
            (ballots_of d),
      )
      (ap (λ p. length (keep p (ballots_of d)))
        (fun_ext (λ b. among-candidate_ids (candidates_of d) b.candidate_id)))

sum_values-counted_dev :
    (d : ElectionExportResponse)
    → sum_values (recount d).counted_dev ≡ length (keep (device_registered d) (ballots_of d))
unfolding recount
sum_values-counted_dev d =
    rw
      (
        recount_from-counted_dev _ (ballots_of d),
        sum_values-counts_from_zero (λ b. b.device_id) (device_ids (devices_of d)) (ballots_of d),
      )
      (ap (λ p. length (keep p (ballots_of d)))
        (fun_ext (λ b. among-device_ids (devices_of d) b.device_id)))

module _ (d : ElectionExportResponse) where
  -- The total passes if and only if each ballot is counted.
  pub candidate_totals_iff :
      ((checks d).candidate_totals ≡ true) ↔ (all (candidate_listed d) (ballots_of d) ≡ true)
  unfolding checks
  candidate_totals_iff =
      let (to, from) = length-keep-all (candidate_listed d) (ballots_of d) in
      let sum = sum_values-counted_cand d in
      (λ h. to (ground (arith, sum)), λ h. ground (arith, sum, from h))

  pub device_totals_iff :
      ((checks d).device_totals ≡ true) ↔ (all (device_registered d) (ballots_of d) ≡ true)
  unfolding checks
  device_totals_iff =
      let (to, from) = length-keep-all (device_registered d) (ballots_of d) in
      let sum = sum_values-counted_dev d in
      (λ h. to (ground (arith, sum)), λ h. ground (arith, sum, from h))

  reconciliation-and :
      (checks d).reconciliation ≡ ((checks d).candidate_totals && (checks d).device_totals)
  unfolding checks drift
  reconciliation-and = ground arith

-- The officer's reconciliation passes exactly when every ballot names a listed candidate and a
-- listed device.
pub reconciliation_iff :
    (d : ElectionExportResponse)
    → ((checks d).reconciliation ≡ true) ↔ (
        (all (candidate_listed d) (ballots_of d) ≡ true)
        × (all (device_registered d) (ballots_of d) ≡ true))
reconciliation_iff d =
    let (to_cand, from_cand) = candidate_totals_iff d in
    let (to_dev, from_dev) = device_totals_iff d in
    let both = reconciliation-and d in
    (
      λ h. (to_cand (ground (arith, both)), to_dev (ground (arith, both))),
      λ (hc, hd). ground (arith, both, from_cand hc, from_dev hd),
    )

-- The reported drift is the number of ballots whose candidate is not listed and the number of those
-- whose device is not, added up.
drift_lem :
    (d : ElectionExportResponse)
    → drift d
        + length (keep (candidate_listed d) (ballots_of d))
        + length (keep (device_registered d) (ballots_of d))
      ≡ length (ballots_of d) + length (ballots_of d)
unfolding drift
drift_lem d = ground (
  arith,
  sum_values-counted_cand d,
  sum_values-counted_dev d,
  length-keep-le (candidate_listed d) (ballots_of d),
  length-keep-le (device_registered d) (ballots_of d),
)
