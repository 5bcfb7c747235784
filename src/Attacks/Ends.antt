-- ===== src/Attacks/Ends.antt =====
-- dashboard/app/(officer)/election/attacks/page.tsx: running all scenarios comes to an end.
use secure_vote.Base.{
  ℕ, ◌≡◌, refl, ◌∙◌, Bool, true, false, ◌||◌, List, [], ◌∷◌, map, length, length-map,
  length-keep-all, all, ◌==◌, arith, any, ==_iff,
}
use secure_vote.Attacks.{AttackScenario}
use secure_vote.Attacks.Page.{
  Page, set_running, set_defended, is_defended, defended_count, World, Event, execute_all, due,
  update_attacks, next_of_all, resume_timer, ids, run_all_attacks, with_timers, run,
}

-- The timers come due, one for each of the scenarios.
abbrev pub dues : List ℕ → List Event
dues [] = []
dues (k ∷ ks) = due 0 ∷ dues ks

abbrev among? : ℕ → List ℕ → Bool
among? k ks = any (λ j. j == k) ks

-- Defended against, or still to come.
abbrev covered : List ℕ → AttackScenario → Bool
covered ks a = is_defended a || among? a.id ks

-- One turn of the loop.
abbrev turn : ℕ → AttackScenario → AttackScenario
turn k a = set_defended k (set_running k a)

turn-covered :
    (k : ℕ) (ks : List ℕ) (a : AttackScenario)
    → covered (k ∷ ks) a ≡ true
    → covered ks (turn k a) ≡ true
unfolding set_defended set_running
turn-covered k ks a h = ground (arith, h)

all-turn :
    (k : ℕ) (ks : List ℕ) (xs : List AttackScenario)
    → all (covered (k ∷ ks)) xs ≡ true
    → all (covered ks) (map (set_defended k) (map (set_running k) xs)) ≡ true
all-turn k ks [] h = refl
all-turn k ks (x ∷ xs) h =
    let here = turn-covered k ks x (ground (arith, h)) in
    let later = all-turn k ks xs (ground (arith, h)) in ground (arith, here, later)

all-widen :
    (k : ℕ) (ks : List ℕ) (xs : List AttackScenario)
    → all (covered ks) xs ≡ true
    → all (covered (k ∷ ks)) xs ≡ true
all-widen k ks [] h = refl
all-widen k ks (x ∷ xs) h = ground (arith, h, all-widen k ks xs)

all-covered-ids : (xs : List AttackScenario) → all (covered (ids xs)) xs ≡ true
all-covered-ids [] = refl
all-covered-ids (x ∷ xs) =
    let later = all-widen x.id (ids xs) xs (all-covered-ids xs) in
    ground (arith, later, ==_iff x.id x.id)

-- No timer runs, and every one of the `n` scenarios is defended against.
record IsDone (n : ℕ) (w : World) : Type 0 where
  defended : all is_defended w.page.attacks ≡ true
  counted : length w.page.attacks ≡ n
  stopped : w.page.running_all ≡ false
  quiet : w.timers ≡ []

all-covered_nil :
    (xs : List AttackScenario) → all (covered []) xs ≡ true → all is_defended xs ≡ true
all-covered_nil [] h = refl
all-covered_nil (x ∷ xs) h = ground (arith, h, all-covered_nil xs)

run-IsDone :
    (ks : List ℕ) (p : Page) (n : ℕ)
    → all (covered ks) p.attacks ≡ true
    → length p.attacks ≡ n
    → IsDone n (run (with_timers [] (next_of_all ks p)) (dues ks))
unfolding run next_of_all resume_timer
run-IsDone [] p n h e = record {
  defended = all-covered_nil p.attacks h;
  counted = e;
  stopped = refl;
  quiet = refl;
}
run-IsDone (k ∷ ks) p n h e =
    run-IsDone ks (update_attacks (set_defended k) (update_attacks (set_running k) p)) n
      (all-turn k ks p.attacks h)
      (length-map (set_defended k) (map (set_running k) p.attacks)
        ∙ length-map (set_running k) p.attacks
        ∙ e)

-- From any page on which not all run and no timer runs, all scenarios run one after the other, each
-- with one timer, and then they have come to an end: no timer runs, the buttons work again, all
-- scenarios are shown as defended against, and that many are counted.
pub run-execute_all :
    (p : Page)
    → p.running_all ≡ false
    → let w = run (record { page = p; timers = [] }) (execute_all ∷ dues (ids p.attacks)) in
      (w.timers ≡ [])
      × (w.page.running_all ≡ false)
      × (all is_defended w.page.attacks ≡ true)
      × (defended_count w.page ≡ length p.attacks)
unfolding run run_all_attacks defended_count
run-execute_all p still =
    let ks = ids p.attacks in
    let done =
      run-IsDone ks (record p { running_all = true }) (length p.attacks) (all-covered-ids p.attacks)
        refl in
    let (_, count) = length-keep-all is_defended _ in
    rw still (done.quiet, done.stopped, done.defended, count done.defended ∙ done.counted)
