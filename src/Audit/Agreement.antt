-- ===== src/Audit/Agreement.antt =====
-- The officer's verifier against the public one.
use secure_vote.Base.{
  ℕ, ◌≡◌, ◌∙◌, String, ◌&&◌, Option, none, List, [], ◌∷◌, arith, lookup, lookup-insert, lookup-nil,
  and_assoc, Bool-eq_of_iff,
}
use secure_vote.Types.Export.{BallotExportItem, ElectionExportResponse}
use secure_vote.Verify.Checks.{sequences_valid}
use secure_vote.Verify.{ballots_of, reconciliation_passed}
use secure_vote.Verify.Sequences.{follows, after_ballot, replay_free, sequences_valid-replay_free}
use secure_vote.Verify.Tallies.{reconciliation_passed_iff}
use secure_vote.Audit.{Recount, recount_step, recount_from, recount, checks}
use secure_vote.Audit.Reconciliation.{candidate_totals_iff}

recount_step-sequence_valid :
    (r : Recount) (b : BallotExportItem)
    → (recount_step r b).sequence_valid
      ≡ (r.sequence_valid && follows (lookup b.device_id r.dev_last_seq) b.sequence_number)
unfolding recount_step
recount_step-sequence_valid r b = ground arith

recount_step-dev_last_seq :
    (r : Recount) (b : BallotExportItem) (dev : String)
    → lookup dev (recount_step r b).dev_last_seq ≡ after_ballot (λ d. lookup d r.dev_last_seq) b dev
unfolding recount_step
recount_step-dev_last_seq r b dev = lookup-insert b.device_id dev b.sequence_number r.dev_last_seq

recount_from-sequence_valid :
    (r : Recount) (seen : String → Option ℕ)
    → ((dev : String) → lookup dev r.dev_last_seq ≡ seen dev)
    → (bs : List BallotExportItem)
    → (recount_from r bs).sequence_valid ≡ (r.sequence_valid && replay_free seen bs)
unfolding recount_from
recount_from-sequence_valid r seen h [] = ground arith
recount_from-sequence_valid r seen h (b ∷ bs) =
    rw
      (
        recount_from-sequence_valid (recount_step r b) (after_ballot seen b)
            (λ dev. recount_step-dev_last_seq r b dev ∙ ground (arith, h dev)) bs,
        recount_step-sequence_valid r b,
        h b.device_id,
      )
      (and_assoc r.sequence_valid _ _)

-- On every archive the officer's replay check has the result of the public verifier's, and the
-- officer's check of the candidate totals has the result of the public verifier's reconciliation.
pub checks-agree :
    (d : ElectionExportResponse)
    → ((checks d).ballot_sequence ≡ sequences_valid (ballots_of d))
      × ((checks d).candidate_totals ≡ reconciliation_passed d)
unfolding checks recount
checks-agree d = (
  recount_from-sequence_valid _ (λ _. none) lookup-nil (ballots_of d)
      ∙ ground (arith, sequences_valid-replay_free (ballots_of d)),
  Bool-eq_of_iff _ _ (
    λ h. (reconciliation_passed_iff d).1 ((candidate_totals_iff d).0 h),
    λ h. (candidate_totals_iff d).1 ((reconciliation_passed_iff d).0 h),
  ),
)
