-- ===== src/Attacks/Examples.antt =====
-- The theorems on the attack page at short runs.
use secure_vote.Base.{◌≡◌, refl, true, false, [], ◌∷◌, all, length}
use secure_vote.Attacks.Page.{
  initial, is_defended, defended_count, filtered_attacks, simulate, execute_all, reset, due, ids,
  run,
}
use secure_vote.Attacks.Runs.{first_world}
use secure_vote.Attacks.Ends.{dues, run-execute_all}

-- A reset does not stop the timer of a scenario, which is then shown as defended against.
late_timer_test : defended_count (run first_world (simulate 3 ∷ reset ∷ due 0 ∷ [])).page ≡ 1
unfolding run defended_count
late_timer_test = refl

filtered_attacks_test : length (filtered_attacks (record initial { active_filter = "Device" })) ≡ 2
unfolding filtered_attacks
filtered_attacks_test = refl

run-execute_all_example :
    let w = run first_world (execute_all ∷ dues (ids initial.attacks)) in
    (w.timers ≡ [])
    × (w.page.running_all ≡ false)
    × (all is_defended w.page.attacks ≡ true)
    × (defended_count w.page ≡ length initial.attacks)
run-execute_all_example = run-execute_all initial refl
