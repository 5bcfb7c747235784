-- ===== src/Counting/Progress.antt =====
-- dashboard/app/(officer)/election/counting/page.tsx: the round shown stays in bounds, the auto-play
-- comes to its end, and the last round shows the whole count.
use secure_vote.Base.{ℕ, zero, suc, ◌+◌, ◌*◌, ◌≤◌, ◌<◌, ◌≡◌, true, false, List, [], ◌∷◌, arith}
use secure_vote.Counting.{cumulative_votes, round_increment}
use secure_vote.Counting.Rounds.{
  Rounds, Event, press_reset, press_play, press_next, timeout, step, run, first_round, timeouts,
}

pub record Inv (r : Rounds) : Type 0 where
  pub from_one : 1 ≤ r.current_round
  pub to_five : r.current_round ≤ 5
  pub timed : r.timer ≡ true → r.current_round < 5

step-Inv : (r : Rounds) (e : Event) → Inv r → Inv (step r e)
unfolding step
step-Inv r press_reset v = ground arith
step-Inv r press_play v = ground arith
step-Inv r press_next v = ground arith
step-Inv r timeout v = ground arith

run-Inv : (r : Rounds) (es : List Event) → Inv r → Inv (run r es)
unfolding run
run-Inv r [] v = v
run-Inv r (e ∷ es) v = run-Inv (step r e) es (step-Inv r e v)

-- Whatever buttons are pressed and timeouts pass, the round shown is one of 1 to 5.
run-current_round :
    (es : List Event)
    → (1 ≤ (run first_round es).current_round) × ((run first_round es).current_round ≤ 5)
run-current_round es =
    let start : Inv first_round = record {
      from_one = omega arith;
      to_five = omega arith;
      timed = λ q. cc;
    } in
    let v = run-Inv first_round es start in (v.from_one, v.to_five)

-- One timeout before the last but one round.
played :
    (left : ℕ) (r : Rounds)
    → r.current_round + suc (suc left) ≡ 5
    → r.is_auto_playing ≡ true
    → r.timer ≡ true
    → ((step r timeout).current_round + suc left ≡ 5)
      × ((step r timeout).is_auto_playing ≡ true)
      × ((step r timeout).timer ≡ true)
unfolding step
played left r e p t = ground arith

-- While it plays, with a timeout running before the last round, as many timeouts as there are rounds
-- left lead to the last round, and the auto-play stops there.
pub run-timeouts :
    (left : ℕ) (r : Rounds)
    → r.current_round + suc left ≡ 5
    → r.is_auto_playing ≡ true
    → r.timer ≡ true
    → ((run r (timeouts (suc left))).current_round ≡ 5)
      × ((run r (timeouts (suc left))).is_auto_playing ≡ false)
unfolding run timeouts
run-timeouts zero r e p t = ground arith
run-timeouts (suc left) r e p t =
    let (later, playing, timed) = played left r e p t in
    run-timeouts left (step r timeout) later playing timed

-- The counts shown grow from round to round, the last round shows the whole count, and five times the
-- "this round" column differs from it by two votes at most.
pub cumulative_votes_lem :
    (votes round : ℕ)
    → (cumulative_votes votes round ≤ cumulative_votes votes (round + 1))
      × (cumulative_votes votes 5 ≡ votes)
      × (5 * round_increment votes ≤ votes + 2)
      × (votes ≤ 5 * round_increment votes + 2)
cumulative_votes_lem votes round = (omega arith, omega arith, omega arith, omega arith)
