-- ===== src/Verify/Box.antt =====
-- dashboard/app/(public)/verify/page.tsx: the ballots of an archive as a box, without their order.
use secure_vote.Base.{
  ℕ, ◌+◌, ◌≡◌, refl, sym, ap, ◌∙◌, ◌↔◌, subst, String, Bool, true, false, not, List, [], ◌∷◌,
  Option, some, arith, if◌then◌else◌, ◌===◌, get_or, lookup, insert, all,
}
use mathlib.Core.List.{Permᴰ}
use mathlib.Core.Quot
use mathlib.Core.Quot.{Quot}
use secure_vote.Types.Export.{ElectionExportResponse, BallotExportItem, CandidateExportItem}
use secure_vote.Verify.Checks.{
  bad_hash, ballot_hashes_valid, sequences_valid, bump_known, count_candidates, candidate_recount,
  zero_candidates,
}
use secure_vote.Verify.{
  ballots_of, candidates_of, has_envelope, reconciliation_passed, all_passed, run_verification,
}
use secure_vote.Verify.Sequences.{sequence_of, IsIncreasing, sequences_valid_iff}
use secure_vote.Verify.Tallies.{listed, reconciliation_passed_iff}

-- Ballots that are put together in whatever order.
abbrev pub BallotBox : Type 0
BallotBox = Quot (λ (xs ys : List BallotExportItem). Permᴰ xs ys)

abbrev pub box : List BallotExportItem → BallotBox
box bs = Quot.mk bs

-- One more for the key, in place.
bump : String → List (String × ℕ) → List (String × ℕ)
bump k [] = []
bump k ((j, v) ∷ m) = let rest = bump k m in if j === k then (j, v + 1) ∷ m else (j, v) ∷ rest

bump_known-bump : (k : String) (m : List (String × ℕ)) → bump_known k m ≡ bump k m
unfolding bump_known bump lookup insert
bump_known-bump k [] = refl
bump_known-bump k ((j, v) ∷ m) = ground (arith, bump_known-bump k m)

bump_comm : (k l : String) (m : List (String × ℕ)) → bump k (bump l m) ≡ bump l (bump k m)
unfolding bump
bump_comm k l [] = refl
bump_comm k l ((j, v) ∷ m) = ground (arith, bump_comm k l m)

bump_known_comm :
    (k l : String) (m : List (String × ℕ))
    → bump_known k (bump_known l m) ≡ bump_known l (bump_known k m)
bump_known_comm k l m =
    rw
      (
        bump_known-bump l m,
        bump_known-bump k m,
        bump_known-bump k (bump l m),
        bump_known-bump l (bump k m),
      )
      (bump_comm k l m)

count_candidates-eq_of_perm :
    {xs ys : List BallotExportItem}
    → Permᴰ xs ys
    → (m : List (String × ℕ)) → count_candidates m xs ≡ count_candidates m ys
unfolding count_candidates
count_candidates-eq_of_perm Permᴰ.nil m = refl
count_candidates-eq_of_perm (Permᴰ.cons {a} {b} {l₁} {l₂} e p) m =
    rw e (count_candidates-eq_of_perm p (bump_known b.candidate_id m))
count_candidates-eq_of_perm (Permᴰ.swap {a} {b} {a'} {b'} {l} e f) m =
    rw (← e, ← f) (ap (λ t. count_candidates t l) (bump_known_comm b.candidate_id a.candidate_id m))
count_candidates-eq_of_perm (Permᴰ.trans p q) m =
    count_candidates-eq_of_perm p m ∙ count_candidates-eq_of_perm q m

all-eq_of_perm :
    (f : BallotExportItem → Bool) {xs ys : List BallotExportItem}
    → Permᴰ xs ys
    → all f xs ≡ all f ys
all-eq_of_perm f Permᴰ.nil = refl
all-eq_of_perm f (Permᴰ.cons {a} {b} {l₁} {l₂} e p) = rw (e, all-eq_of_perm f p) refl
all-eq_of_perm f (Permᴰ.swap {a} {b} {a'} {b'} {l} e f₁) = rw (← e, ← f₁) (ground arith)
all-eq_of_perm f (Permᴰ.trans p q) = all-eq_of_perm f p ∙ all-eq_of_perm f q

Bool-set : IsSet Bool
Bool-set = hlevel

Count-set : IsSet (Option ℕ)
Count-set = hlevel

-- Whether all ballots in the box pass a test.
unfoldable all_in : (BallotExportItem → Bool) → BallotBox → Bool
all_in f = Quot.lift Bool-set (all f) (λ xs ys p. all-eq_of_perm f p)

-- The recount of a box, for one candidate.
unfoldable recount_of : List CandidateExportItem → String → BallotBox → Option ℕ
recount_of cs k =
    Quot.lift Count-set (λ bs. lookup k (count_candidates (zero_candidates [] cs) bs))
      (λ xs ys p. ap (lookup k) (count_candidates-eq_of_perm p (zero_candidates [] cs)))

ballot_hashes_valid-all :
    (bs : List BallotExportItem)
    → ballot_hashes_valid bs ≡ all (λ b. not (bad_hash b.ballot_hash)) bs
unfolding ballot_hashes_valid
ballot_hashes_valid-all [] = refl
ballot_hashes_valid-all (b ∷ bs) = ground (arith, ballot_hashes_valid-all bs)

-- Tests that decide properties of which each implies the other agree.
agree : {P Q : Type 0} (a b : Bool) → (a ≡ true) ↔ P → (b ≡ true) ↔ Q → (P → Q) → (Q → P) → a ≡ b
agree true true h k f g = refl
agree true false h k f g = sym (k.1 (f (h.0 refl)))
agree false true h k f g = h.1 (g (k.0 refl))
agree false false h k f g = refl

ballot_hashes_valid-of_box :
    (bs other : List BallotExportItem)
    → box bs ≡ box other
    → ballot_hashes_valid bs ≡ ballot_hashes_valid other
unfolding all_in
ballot_hashes_valid-of_box bs other h =
    ballot_hashes_valid-all bs
    ∙ ap (all_in (λ b. not (bad_hash b.ballot_hash))) h
    ∙ sym (ballot_hashes_valid-all other)

sequences_valid-of_sequences :
    (bs other : List BallotExportItem)
    → ((dev : String) → sequence_of dev bs ≡ sequence_of dev other)
    → sequences_valid bs ≡ sequences_valid other
sequences_valid-of_sequences bs other same =
    agree (sequences_valid bs) (sequences_valid other) (sequences_valid_iff bs)
      (sequences_valid_iff other) (λ h dev. subst IsIncreasing (same dev) (h dev))
      (λ h dev. subst IsIncreasing (sym (same dev)) (h dev))

reconciliation_passed-of_box :
    (d : ElectionExportResponse) (bs other : List BallotExportItem)
    → d.ballots ≡ some bs
    → box bs ≡ box other
    → reconciliation_passed d ≡ reconciliation_passed (record d { ballots = some other })
unfolding all_in
reconciliation_passed-of_box d bs other e h =
    let on : BallotExportItem → Bool = λ b. listed (candidates_of d) b.candidate_id in
    let on_roster : all on (ballots_of d) ≡ all on other =
      ap (λ o. all on (get_or o [])) e ∙ ap (all_in on) h in
    agree (reconciliation_passed d) (reconciliation_passed (record d { ballots = some other }))
      (reconciliation_passed_iff d) (reconciliation_passed_iff (record d { ballots = some other }))
      (λ q. sym on_roster ∙ q) (λ q. on_roster ∙ q)

-- The order of the ballots matters to the public verifier within each device only: an archive with the
-- same box of ballots, in which each device has its sequence numbers in the same order, gets the same
-- verdict, and the same recount for every candidate.
pub verdict-of_box :
    (d : ElectionExportResponse) (bs other : List BallotExportItem) (k : String)
    → d.ballots ≡ some bs
    → box bs ≡ box other
    → ((dev : String) → sequence_of dev bs ≡ sequence_of dev other)
    → ((run_verification (record d { ballots = some other })).overall_status
        ≡ (run_verification d).overall_status)
      × (lookup k (candidate_recount (candidates_of d) other)
          ≡ lookup k (candidate_recount (candidates_of d) bs))
unfolding run_verification all_passed has_envelope candidate_recount recount_of
verdict-of_box d bs other k e h same = (
  rw
      (
        ← reconciliation_passed-of_box d bs other e h,
        ← ballot_hashes_valid-of_box bs other h,
        ← sequences_valid-of_sequences bs other same,
        e,
      )
      refl,
  sym (ap (recount_of (candidates_of d) k) h),
)
