-- ===== src/Counting/Margin.antt =====
-- dashboard/app/(officer)/election/counting/page.tsx: the leading candidate and the margin.
use secure_vote.Base.{
  ℕ, ◌+◌, ◌≤◌, ◌≡◌, refl, List, [], ◌∷◌, arith, All, sum_by, leb, Bool, true, false, if◌then◌else◌,
  subst, sym,
}
use secure_vote.Counting.{CandidateResult, votes_of, place_by_votes, sorted_candidates, margin}

-- Each has at least the votes of every later one.
abbrev pub IsRanked : List CandidateResult → Type 0
IsRanked [] = Unit
IsRanked (c ∷ cs) = All (λ d. votes_of d ≤ votes_of c) cs × IsRanked cs

All-weaken :
    (n m : ℕ) (cs : List CandidateResult)
    → n ≤ m
    → All (λ d. votes_of d ≤ n) cs
    → All (λ d. votes_of d ≤ m) cs
All-weaken n m [] le h = tt
All-weaken n m (c ∷ cs) le (h, hs) = (omega (arith, le, h), All-weaken n m cs le hs)

All-place :
    (n : ℕ) (c : CandidateResult) (cs : List CandidateResult)
    → votes_of c ≤ n
    → All (λ d. votes_of d ≤ n) cs
    → All (λ d. votes_of d ≤ n) (place_by_votes c cs)
unfolding place_by_votes
All-place n c [] h hs = (h, tt)
All-place n c (d ∷ ds) h (k, hs) = ground (arith, All-place n c ds h hs)

place_by_votes-IsRanked :
    (c : CandidateResult) (cs : List CandidateResult) → IsRanked cs → IsRanked (place_by_votes c cs)
unfolding place_by_votes
place_by_votes-IsRanked c [] r = (tt, tt)
place_by_votes-IsRanked c (d ∷ ds) (h, r) =
    place-if (leb (votes_of d) (votes_of c)) (λ q. ground arith) (λ q. ground arith)
      (place_by_votes-IsRanked c ds r)
  where
    place-if :
        (b : Bool)
        → (b ≡ true → votes_of d ≤ votes_of c)
        → (b ≡ false → votes_of c ≤ votes_of d)
        → IsRanked (place_by_votes c ds)
        → IsRanked (if b then c ∷ d ∷ ds else d ∷ place_by_votes c ds)
    place-if true le gt k = ((le refl, All-weaken _ _ ds (le refl) h), (h, r))
    place-if false le gt k = (All-place _ c ds (gt refl) h, k)

sorted_candidates-IsRanked : (cs : List CandidateResult) → IsRanked (sorted_candidates cs)
unfolding sorted_candidates
sorted_candidates-IsRanked [] = tt
sorted_candidates-IsRanked (c ∷ cs) = place_by_votes-IsRanked c _ (sorted_candidates-IsRanked cs)

place_by_votes-sum :
    (c : CandidateResult) (cs : List CandidateResult)
    → sum_by votes_of (place_by_votes c cs) ≡ votes_of c + sum_by votes_of cs
unfolding place_by_votes
place_by_votes-sum c [] = refl
place_by_votes-sum c (d ∷ ds) = ground (arith, place_by_votes-sum c ds)

pub sorted_candidates-sum :
    (cs : List CandidateResult) → sum_by votes_of (sorted_candidates cs) ≡ sum_by votes_of cs
unfolding sorted_candidates
sorted_candidates-sum [] = refl
sorted_candidates-sum (c ∷ cs) =
    omega (arith, place_by_votes-sum c (sorted_candidates cs), sorted_candidates-sum cs)

-- Where the sorted results begin with a leading candidate and a runner-up: nobody has more votes than
-- the leading candidate, nobody else more than the runner-up, the margin and the runner-up's votes
-- add up to the leading candidate's, and the sorted votes add up to all votes.
pub margin_lem :
    (cs : List CandidateResult) (c d : CandidateResult) (rest : List CandidateResult)
    → sorted_candidates cs ≡ c ∷ d ∷ rest
    → All (λ x. votes_of x ≤ votes_of c) (d ∷ rest)
      × All (λ x. votes_of x ≤ votes_of d) rest
      × (margin (sorted_candidates cs) + votes_of d ≡ votes_of c)
      × (votes_of c + (votes_of d + sum_by votes_of rest) ≡ sum_by votes_of cs)
unfolding margin
margin_lem cs c d rest e =
    let r : IsRanked (c ∷ d ∷ rest) = rw e at (sorted_candidates-IsRanked cs) in
    let total : sum_by votes_of (c ∷ d ∷ rest) ≡ sum_by votes_of cs =
      rw e at (sorted_candidates-sum cs) in
    (
      r.0,
      r.1.0,
      subst (λ l. margin l + votes_of d ≡ votes_of c) (sym e) (omega (arith, r.0.0)),
      total,
    )
