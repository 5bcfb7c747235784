-- ===== src/Attacks/Runs.antt =====
-- dashboard/app/(officer)/election/attacks/page.tsx: what the page can show, and that running all
-- scenarios comes to an end.
use secure_vote.Base.{
  ℕ, ◌≡◌, ◌≢◌, refl, Bool, true, false, Option, none, some, List, [], ◌∷◌, map, all, All, ◌==◌,
  if◌then◌else◌, arith,
}
use secure_vote.Attacks.{AttackScenario, Status, idle, running, defended, failed}
use secure_vote.Attacks.Scenarios.{initial_attacks}
use secure_vote.Attacks.Page.{
  Page, initial, set_running, set_defended, as_defended, is_defended, defended?, Timer, single,
  among, World, Event, simulate, execute_all, reset, pick_filter, due, update_attacks, next_of_all,
  resume_timer, ids, run_all_attacks, take_timer, with_timers, fire, step, run,
}

-- A scenario has not failed, and one that is shown as defended against has the result expected of it.
pub record IsSound (a : AttackScenario) : Type 0 where
  pub unfailed : a.status ≢ failed
  pub as_expected : is_defended a ≡ true → a.observed_result ≡ some a.expected_result

IsSound-if :
    (b : Bool) (a d : AttackScenario) → IsSound a → IsSound d → IsSound (if b then a else d)
IsSound-if true a d h k = h
IsSound-if false a d h k = k

set_running-IsSound : (k : ℕ) (a : AttackScenario) → IsSound a → IsSound (set_running k a)
unfolding set_running
set_running-IsSound k a h =
    IsSound-if (a.id == k) (record a { status = running }) a
      (record { unfailed = λ e. cc e; as_expected = λ e. cc e }) h

set_defended-IsSound : (k : ℕ) (a : AttackScenario) → IsSound a → IsSound (set_defended k a)
unfolding set_defended
set_defended-IsSound k a h =
    IsSound-if (a.id == k) (as_defended a) a
      (record { unfailed = λ e. cc e; as_expected = λ e. refl }) h

All-map :
    (f : AttackScenario → AttackScenario) (xs : List AttackScenario)
    → ((a : AttackScenario) → IsSound a → IsSound (f a))
    → All IsSound xs
    → All IsSound (map f xs)
All-map f [] h hs = tt
All-map f (x ∷ xs) h (p, ps) = (h x p, All-map f xs h ps)

abbrev Sound : Page → Type 0
Sound p = All IsSound p.attacks

next_of_all-Sound : (ks : List ℕ) (p : Page) → Sound p → Sound (next_of_all ks p).0
unfolding next_of_all
next_of_all-Sound [] p h = h
next_of_all-Sound (k ∷ ks) p h = All-map (set_running k) p.attacks (set_running-IsSound k) h

resume_timer-Sound : (t : Timer) (p : Page) → Sound p → Sound (resume_timer t p).0
unfolding resume_timer
resume_timer-Sound (single k) p h = All-map (set_defended k) p.attacks (set_defended-IsSound k) h
resume_timer-Sound (among k ks) p h =
    next_of_all-Sound ks (update_attacks (set_defended k) p)
      (All-map (set_defended k) p.attacks (set_defended-IsSound k) h)

abbrev idle? : Status → Bool
idle? idle = true
idle? _ = false

idle-unfailed : (s : Status) → idle? s ≡ true → s ≢ failed
idle-unfailed idle e = λ f. cc f
idle-unfailed running e = λ f. cc f
idle-unfailed defended e = λ f. cc f
idle-unfailed failed e = cc e

idle-undefended : (s : Status) → idle? s ≡ true → defended? s ≡ false
idle-undefended idle e = refl
idle-undefended running e = refl
idle-undefended defended e = cc e
idle-undefended failed e = refl

abbrev is_idle : AttackScenario → Bool
is_idle a = idle? a.status

idle-IsSound : (a : AttackScenario) → is_idle a ≡ true → IsSound a
idle-IsSound a e = record {
  unfailed = idle-unfailed a.status e;
  as_expected = λ d. cc (idle-undefended a.status e, d);
}

idle-All : (xs : List AttackScenario) → all is_idle xs ≡ true → All IsSound xs
idle-All [] h = tt
idle-All (x ∷ xs) h = (idle-IsSound x (ground (arith, h)), idle-All xs (ground (arith, h)))

initial-Sound : Sound initial
initial-Sound = idle-All initial_attacks refl

page-if : (b : Bool) (v w : World) → Sound v.page → Sound w.page → Sound (if b then v else w).page
page-if true v w h k = h
page-if false v w h k = k

fire-Sound : (w : World) (o : Option (Timer × List Timer)) → Sound w.page → Sound (fire w o).page
fire-Sound w none h = h
fire-Sound w (some (t, ts)) h = resume_timer-Sound t w.page h

step-Sound : (w : World) (e : Event) → Sound w.page → Sound (step w e).page
unfolding step run_all_attacks
step-Sound w (simulate k) h = All-map (set_running k) w.page.attacks (set_running-IsSound k) h
step-Sound w execute_all h =
    page-if w.page.running_all w (with_timers w.timers (run_all_attacks w.page)) h
      (next_of_all-Sound (ids w.page.attacks) (record w.page { running_all = true }) h)
step-Sound w reset h =
    page-if w.page.running_all w (record w { page = record w.page { attacks = initial_attacks } }) h
      initial-Sound
step-Sound w (pick_filter c) h = h
step-Sound w (due n) h = fire-Sound w (take_timer n w.timers) h

abbrev pub first_world : World
first_world = record { page = initial; timers = [] }

run-Sound : (w : World) (es : List Event) → Sound w.page → Sound (run w es).page
unfolding run
run-Sound w [] h = h
run-Sound w (e ∷ es) h = run-Sound (step w e) es (step-Sound w e h)

-- Whatever is pressed, and in whatever order the timers are due: no scenario is ever shown as failed,
-- and one that is shown as defended against has exactly the result that was expected of it.
run-IsSound : (es : List Event) → All IsSound (run first_world es).page.attacks
run-IsSound es = run-Sound first_world es initial-Sound
