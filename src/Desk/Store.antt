-- ===== src/Desk/Store.antt =====
-- dashboard/app/(officer)/election/candidates/page.tsx: the page over a backend that keeps a state.
use secure_vote.Base.{
  String, ◌≡◌, refl, ap, sym, ◌∙◌, Bool, Option, none, some, List, [], ◌∷◌, Bool-cases, inl, inr,
  if◌then◌else◌, Reply, ok, failed,
}
use secure_vote.Types.{ElectionResponse, CandidateResponse}
use secure_vote.Selection.{Elections, refresh_elections}
use secure_vote.Desk.Candidates.{
  CandidatesDesk, CandidateBody, candidate_body, is_locked, Refresh, refreshed,
  handle_add_candidate, handle_delete, added, deleted,
}

-- A backend of elections: what it answers to a change and keeps of it, and what it has. A change that
-- it refuses changes no election, and an election is found by its identifier.
pub record CandidateStore : Type 1 where
  pub State : Type 0
  pub add : String → CandidateBody → State → (Reply CandidateResponse × State)
  pub delete : String → String → State → (Reply Bool × State)
  pub elections : State → List ElectionResponse
  pub election : String → State → ElectionResponse
  pub refused_add :
      (id : String) (body : CandidateBody) (s : State) (m k : String)
      → (add id body s).0 ≡ failed m
      → election k (add id body s).1 ≡ election k s
  pub refused_delete :
      (id candidate : String) (s : State) (m k : String)
      → (delete id candidate s).0 ≡ failed m
      → election k (delete id candidate s).1 ≡ election k s
  pub named : (k : String) (s : State) → (election k s).id ≡ k

-- The fields are filled in, or a button is pressed.
pub data Event : Type 0 where
  filled_in : CandidatesDesk → Event
  pressed_add : Event
  pressed_delete : String → Event

module _ (store : CandidateStore) where
  pub record World : Type 0 where
    pub backend : store.State
    pub context : Elections
    pub desk : CandidatesDesk

  abbrev pub refresh_of : store.State → Refresh
  refresh_of b = record {
    get_elections = ok (store.elections b);
    get_election = λ k. ok (store.election k b);
  }

  abbrev of_change : store.State → (Elections × CandidatesDesk) → World
  of_change b r = record { backend = b; context = r.0; desk = r.1 }

  abbrev add_to : ElectionResponse → World → World
  add_to e w =
      let r = store.add e.id (candidate_body w.desk) w.backend in
      of_change r.1 (handle_add_candidate (λ id body. r.0) (refresh_of r.1) w.context w.desk)

  abbrev delete_from : ElectionResponse → String → World → World
  delete_from e candidate w =
      let r = store.delete e.id candidate w.backend in
      of_change r.1 (handle_delete (λ id c. r.0) (refresh_of r.1) candidate w.context w.desk)

  -- The buttons are not shown where no election is selected, or the selected one is locked.
  abbrev on_selected : Option ElectionResponse → (ElectionResponse → World → World) → World → World
  on_selected none change w = w
  on_selected (some e) change w = if is_locked e then w else change e w

  unfoldable pub step : World → Event → World
  step w (filled_in p) = record w { desk = p }
  step w pressed_add = on_selected w.context.selected_election add_to w
  step w (pressed_delete c) = on_selected w.context.selected_election (λ e. delete_from e c) w

  unfoldable pub run : World → List Event → World
  unfolding step
  run w [] = w
  run w (e ∷ es) = run (step w e) es

  -- The selected election is shown as the backend has it.
  abbrev pub Shows : String → World → Type 0
  Shows id w = w.context.selected_election ≡ some (store.election id w.backend)

  refreshed-selected :
      (b : store.State) (e : ElectionResponse) (s : Elections)
      → s.selected_election ≡ some e
      → (refreshed (refresh_of b) s).selected_election ≡ some (store.election e.id b)
  unfolding refresh_elections
  refreshed-selected b e s h = rw h refl

  added-Shows :
      (id : String) (w : World) (e : ElectionResponse) (r : Reply CandidateResponse)
      (b : store.State)
      → w.context.selected_election ≡ some e
      → e.id ≡ id
      → ((m : String) → r ≡ failed m → some e ≡ some (store.election id b))
      → (added r (refresh_of b) w.context w.desk).0.selected_election ≡ some (store.election id b)
  added-Shows id w e (ok c) b h k f = rw (← k) (refreshed-selected b e w.context h)
  added-Shows id w e (failed m) b h k f = h ∙ f m refl

  deleted-Shows :
      (id : String) (w : World) (e : ElectionResponse) (r : Reply Bool) (b : store.State)
      → w.context.selected_election ≡ some e
      → e.id ≡ id
      → ((m : String) → r ≡ failed m → some e ≡ some (store.election id b))
      → (deleted r (refresh_of b) w.context w.desk).0.selected_election ≡ some (store.election id b)
  deleted-Shows id w e (ok c) b h k f = rw (← k) (refreshed-selected b e w.context h)
  deleted-Shows id w e (failed m) b h k f = h ∙ f m refl

  step-Shows : (id : String) (w : World) (e : Event) → Shows id w → Shows id (step w e)
  unfolding step handle_add_candidate handle_delete
  step-Shows id w (filled_in p) h = h
  step-Shows id w pressed_add h =
      let e : ElectionResponse = store.election id w.backend in
      let v : World = record w { context = record w.context { selected_election = some e } } in
      let body = candidate_body w.desk in
      elim (Bool-cases (is_locked e)) [
        | inl locked ↦ rw (h, locked) refl
        | inr free ↦
            rw (h, free)
              (added-Shows id v e (store.add e.id body w.backend).0
                (store.add e.id body w.backend).1 refl (store.named id w.backend)
                (λ m q. ap some (sym (store.refused_add e.id body w.backend m id q))))
      ]
  step-Shows id w (pressed_delete c) h =
      let e : ElectionResponse = store.election id w.backend in
      let v : World = record w { context = record w.context { selected_election = some e } } in
      elim (Bool-cases (is_locked e)) [
        | inl locked ↦ rw (h, locked) refl
        | inr free ↦
            rw (h, free)
              (deleted-Shows id v e (store.delete e.id c w.backend).0
                (store.delete e.id c w.backend).1 refl (store.named id w.backend)
                (λ m q. ap some (sym (store.refused_delete e.id c w.backend m id q))))
      ]

  -- Whatever is filled in and pressed, the page shows the election as the backend has it, candidates
  -- and state included: if the backend answers the refreshes, changes nothing where it refuses, and finds
  -- an election by its identifier, then a selected election stays selected and is the backend's.
  pub run-Shows_store :
      (id : String) (w : World) (es : List Event) → Shows id w → Shows id (run w es)
  unfolding run
  run-Shows_store id w [] h = h
  run-Shows_store id w (e ∷ es) h = run-Shows_store id (step w e) es (step-Shows id w e h)
