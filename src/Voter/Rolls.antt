-- ===== src/Voter/Rolls.antt =====
-- dashboard/app/(public)/voter/roll/page.tsx: the roll that is shown has no number twice.
use secure_vote.Base.{
  String, ◌≡◌, refl, Bool, true, false, ◌&&◌, not, Option, none, some, List, [], ◌∷◌, any, Reply,
  ok, failed, arith, if◌then◌else◌, trim,
}
use secure_vote.Types.Registers.{VoterResponse}
use secure_vote.Voter.Roll.{
  Page, initial, demo_voters, has_number, add_voter, found, handle_lookup, Event, typed, picked,
  looked_up, step, run,
}

-- No two voters have one number.
abbrev pub are_distinct : List VoterResponse → Bool
are_distinct [] = true
are_distinct (v ∷ vs) = not (any (has_number v.voter_id_number) vs) && are_distinct vs

-- No number is twice on the roll of the page, and the number `n` is on it.
record IsRoll (n : String) (p : Page) : Type 0 where
  distinct : are_distinct p.voters ≡ true
  kept : any (has_number n) p.voters ≡ true

found-IsRoll :
    (n q : String) (r : Reply (Option VoterResponse)) (p : Page)
    → IsRoll n p
    → IsRoll n (found q r p)
unfolding found add_voter
found-IsRoll n q (ok none) p h = record { distinct = h.distinct; kept = h.kept }
found-IsRoll n q (ok (some v)) p h = record {
  distinct = ground (arith, h.distinct);
  kept = ground (arith, h.kept);
}
found-IsRoll n q (failed m) p h = record { distinct = h.distinct; kept = h.kept }

IsRoll-if :
    (n : String) (b : Bool) (p q : Page) → IsRoll n p → IsRoll n q → IsRoll n (if b then p else q)
IsRoll-if n true p q h k = h
IsRoll-if n false p q h k = k

step-IsRoll : (n : String) (p : Page) (e : Event) → IsRoll n p → IsRoll n (step p e)
unfolding step handle_lookup
step-IsRoll n p (typed q) h = record { distinct = h.distinct; kept = h.kept }
step-IsRoll n p (picked c) h = record { distinct = h.distinct; kept = h.kept }
step-IsRoll n p (looked_up election_id lookup_voter) h =
    IsRoll-if n _ _ _ (record { distinct = h.distinct; kept = h.kept })
      (found-IsRoll n (trim p.search_query) _ _ (record { distinct = h.distinct; kept = h.kept }))

run-IsRoll : (n : String) (p : Page) (es : List Event) → IsRoll n p → IsRoll n (run p es)
unfolding run
run-IsRoll n p [] h = h
run-IsRoll n p (e ∷ es) h = run-IsRoll n (step p e) es (step-IsRoll n p e h)

-- Whatever a visitor types, picks and looks up, and whatever the backend answers: no number is twice
-- on the roll, and every number of the demonstration roll stays on it.
pub run-are_distinct :
    (now n : String) (es : List Event)
    → any (has_number n) (demo_voters now) ≡ true
    → (are_distinct (run (initial now) es).voters ≡ true)
      × (any (has_number n) (run (initial now) es).voters ≡ true)
run-are_distinct now n es h =
    let roll = run-IsRoll n (initial now) es (record { distinct = refl; kept = h }) in
    (roll.distinct, roll.kept)
