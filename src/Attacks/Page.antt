-- ===== src/Attacks/Page.antt =====
-- dashboard/app/(officer)/election/attacks/page.tsx: the handlers, in the pieces between two timers,
-- and what is computed for display.
use secure_vote.Base.{
  ℕ, zero, suc, String, Bool, true, false, Option, none, some, List, [], ◌∷◌, ◌++◌, map, keep,
  length, ◌==◌, ◌===◌, if◌then◌else◌,
}
use secure_vote.Attacks.{AttackScenario, Status, running, defended, category_text}
use secure_vote.Attacks.Scenarios.{initial_attacks}

pub record Page : Type 0 where
  pub attacks : List AttackScenario
  pub running_all : Bool
  pub active_filter : String

abbrev pub initial : Page
initial = record { attacks = initial_attacks; running_all = false; active_filter = "ALL" }

unfoldable pub set_running : ℕ → AttackScenario → AttackScenario
set_running id a = if a.id == id then record a { status = running } else a

abbrev pub as_defended : AttackScenario → AttackScenario
as_defended a = record a {
  status = defended;
  observed_result = some a.expected_result;
  details =
      some
        "Defense verified: backend security boundary successfully identified and repelled simulated anomaly.";
}

unfoldable pub set_defended : ℕ → AttackScenario → AttackScenario
set_defended id a = if a.id == id then as_defended a else a

-- `status === "DEFENDED"`
abbrev pub defended? : Status → Bool
defended? defended = true
defended? _ = false

abbrev pub is_defended : AttackScenario → Bool
is_defended a = defended? a.status

unfoldable pub filtered_attacks : Page → List AttackScenario
filtered_attacks p =
    if p.active_filter === "ALL"
    then p.attacks
    else keep (λ a. category_text a.category === p.active_filter) p.attacks

unfoldable pub defended_count : Page → ℕ
defended_count p = length (keep is_defended p.attacks)

-- What a timer goes on with: a scenario, or a scenario of "run all" and those after it.
pub data Timer : Type 0 where
  single : ℕ → Timer
  among : ℕ → List ℕ → Timer

pub record World : Type 0 where
  pub page : Page
  pub timers : List Timer

pub data Event : Type 0 where
  simulate : ℕ → Event
  execute_all reset : Event
  pick_filter : String → Event
  due : ℕ → Event

-- `setAttacks((prev) => prev.map(f))`
abbrev pub update_attacks : (AttackScenario → AttackScenario) → Page → Page
update_attacks f p = record p { attacks = map f p.attacks }

-- The head of the loop of `runAllAttacks`, up to its timer or to its end.
unfoldable pub next_of_all : List ℕ → Page → Page × List Timer
unfolding set_running
next_of_all [] p = (record p { running_all = false }, [])
next_of_all (k ∷ ks) p = (update_attacks (set_running k) p, among k ks ∷ [])

unfoldable pub resume_timer : Timer → Page → Page × List Timer
unfolding set_defended next_of_all
resume_timer (single k) p = (update_attacks (set_defended k) p, [])
resume_timer (among k ks) p = next_of_all ks (update_attacks (set_defended k) p)

abbrev pub ids : List AttackScenario → List ℕ
ids xs = map (λ a. a.id) xs

-- `runAllAttacks` up to its first timer, for the scenarios that the page has when it is called.
unfoldable pub run_all_attacks : Page → Page × List Timer
unfolding next_of_all
run_all_attacks p = next_of_all (ids p.attacks) (record p { running_all = true })

abbrev pub take_timer : ℕ → List Timer → Option (Timer × List Timer)
take_timer n [] = none
take_timer zero (t ∷ ts) = some (t, ts)
take_timer (suc n) (t ∷ ts) = elim (take_timer n ts) [ none ↦ none | some p ↦ some (p.0, t ∷ p.1) ]

abbrev pub with_timers : List Timer → Page × List Timer → World
with_timers ts x = record { page = x.0; timers = ts ++ x.1 }

abbrev pub fire : World → Option (Timer × List Timer) → World
fire w none = w
fire w (some (t, ts)) = with_timers ts (resume_timer t w.page)

-- The buttons for all scenarios are disabled while all of them run.
unfoldable pub step : World → Event → World
unfolding set_running resume_timer run_all_attacks
step w (simulate k) = record {
  page = update_attacks (set_running k) w.page;
  timers = w.timers ++ single k ∷ [];
}
step w execute_all = if w.page.running_all then w else with_timers w.timers (run_all_attacks w.page)
step w reset =
    if w.page.running_all
    then w
    else record w { page = record w.page { attacks = initial_attacks } }
step w (pick_filter c) = record w { page = record w.page { active_filter = c } }
step w (due n) = fire w (take_timer n w.timers)

unfoldable pub run : World → List Event → World
unfolding step
run w [] = w
run w (e ∷ es) = run (step w e) es
