-- ===== src/Portal/InOrder.antt =====
-- dashboard/app/(public)/map/page.tsx: the page where the backend answers in the order of the fetches.
use secure_vote.Base.{
  String, ◌≡◌, refl, true, Option, none, some, List, [], ◌∷◌, ◌++◌, truthy, eq_iff, inl, inr, ap,
  Bool-cases, ◌===◌, take_at, Reply, ok, failed,
}
use secure_vote.Portal.Map.{
  StateDetails, Call, whole_map, state_of, constituency_of, Page, Backend, Event, picked_state,
  picked_constituency, answered, initial, select_state, select_constituency, select_first, answer,
  got_map, Feature, step, run,
}

module _ {Rest : Type 0} (b : Backend Rest) where
  -- An answer is that of the backend to the oldest call.
  abbrev pub IsInOrder : Event Rest → Type 0
  IsInOrder (picked_state c) = Unit
  IsInOrder (picked_constituency k) = Unit
  IsInOrder (answered n c) = (n ≡ 0) × (c ≡ b)

  abbrev pub AreInOrder : List (Event Rest) → Type 0
  AreInOrder [] = Unit
  AreInOrder (e ∷ es) = IsInOrder e × AreInOrder es

module _ {Rest : Type 0} (b : Backend Rest) (states : String → StateDetails Rest)
    (constituencies : String → Rest) where
  -- The backend has details of every state and every constituency.
  abbrev pub HasAll : Type 0
  HasAll =
      ((c : String) → b.get_geography_state c ≡ ok (states c))
      × ((k : String) → b.get_geography_pc k ≡ ok (constituencies k))

  -- The details that are shown in the end, where the calls are answered in order.
  abbrev state_after : Option (StateDetails Rest) → List Call → Option (StateDetails Rest)
  state_after d [] = d
  state_after d (whole_map ∷ cs) = state_after d cs
  state_after d (state_of c ∷ cs) = state_after (some (states c)) cs
  state_after d (constituency_of k ∷ cs) = state_after d cs

  abbrev constituency_after : Option Rest → List Call → Option Rest
  constituency_after d [] = d
  constituency_after d (whole_map ∷ cs) = constituency_after d cs
  constituency_after d (state_of c ∷ cs) = constituency_after d cs
  constituency_after d (constituency_of k ∷ cs) = constituency_after (some (constituencies k)) cs

  -- What is selected is what the calls under way lead to.
  abbrev Inv : Page Rest → List Call → Type 0
  Inv p q =
      (truthy p.selected_state_code ≡ true
        → state_after p.state_details q ≡ some (states p.selected_state_code))
      × (truthy p.selected_pc_id ≡ true
          → constituency_after p.pc_details q ≡ some (constituencies p.selected_pc_id))

  state_after-state :
      (d : Option (StateDetails Rest)) (c : String) (q : List Call)
      → state_after d (q ++ state_of c ∷ []) ≡ some (states c)
  state_after-state d c [] = refl
  state_after-state d c (whole_map ∷ q) = state_after-state d c q
  state_after-state d c (state_of k ∷ q) = state_after-state (some (states k)) c q
  state_after-state d c (constituency_of k ∷ q) = state_after-state d c q

  state_after-constituency :
      (d : Option (StateDetails Rest)) (c : String) (q : List Call)
      → state_after d (q ++ constituency_of c ∷ []) ≡ state_after d q
  state_after-constituency d c [] = refl
  state_after-constituency d c (whole_map ∷ q) = state_after-constituency d c q
  state_after-constituency d c (state_of k ∷ q) = state_after-constituency (some (states k)) c q
  state_after-constituency d c (constituency_of k ∷ q) = state_after-constituency d c q

  constituency_after-constituency :
      (d : Option Rest) (c : String) (q : List Call)
      → constituency_after d (q ++ constituency_of c ∷ []) ≡ some (constituencies c)
  constituency_after-constituency d c [] = refl
  constituency_after-constituency d c (whole_map ∷ q) = constituency_after-constituency d c q
  constituency_after-constituency d c (state_of k ∷ q) = constituency_after-constituency d c q
  constituency_after-constituency d c (constituency_of k ∷ q) =
      constituency_after-constituency (some (constituencies k)) c q

  constituency_after-state :
      (d : Option Rest) (c : String) (q : List Call)
      → constituency_after d (q ++ state_of c ∷ []) ≡ constituency_after d q
  constituency_after-state d c [] = refl
  constituency_after-state d c (whole_map ∷ q) = constituency_after-state d c q
  constituency_after-state d c (state_of k ∷ q) = constituency_after-state d c q
  constituency_after-state d c (constituency_of k ∷ q) =
      constituency_after-state (some (constituencies k)) c q

  abbrev Holds : Page Rest → Type 0
  Holds p = Inv p p.pending

  select_state-Holds : (c : String) (p : Page Rest) → Holds p → Holds (select_state c p)
  unfolding select_state
  select_state-Holds c p h = elim (Bool-cases (c === p.selected_state_code)) [
    | inl e ↦ rw e h
    | inr e ↦ elim (Bool-cases (truthy c)) [
      | inl t ↦
          rw (e, t)
            (
              λ q. state_after-state p.state_details c p.pending,
              rw (constituency_after-state p.pc_details c p.pending) h.1,
            )
      | inr t ↦ rw (e, t) (λ q. cc, h.1)
    ]
  ]

  select_constituency-Holds :
      (k : String) (p : Page Rest) → Holds p → Holds (select_constituency k p)
  unfolding select_constituency
  select_constituency-Holds k p h = elim (Bool-cases (k === p.selected_pc_id)) [
    | inl e ↦ rw e h
    | inr e ↦ elim (Bool-cases (truthy k)) [
      | inl t ↦
          rw (e, t)
            (
              rw (state_after-constituency p.state_details k p.pending) h.0,
              λ q. constituency_after-constituency p.pc_details k p.pending,
            )
      | inr t ↦ rw (e, t) (h.0, λ q. cc)
    ]
  ]

  none_selected-Holds :
      (p : Page Rest) → Holds p → Holds (record (select_constituency "" p) { pc_details = none })
  unfolding select_constituency
  none_selected-Holds p h = elim (Bool-cases ("" === p.selected_pc_id)) [
    | inl e ↦ rw e (h.0, λ q. absurd (cc (q, ap truthy ((eq_iff "" p.selected_pc_id).0 e))))
    | inr e ↦ rw e (h.0, λ q. cc)
  ]

  select_first-Holds :
      (o : Option (List String)) (p : Page Rest) → Holds p → Holds (select_first o p)
  select_first-Holds none p h = none_selected-Holds p h
  select_first-Holds (some []) p h = none_selected-Holds p h
  select_first-Holds (some (k ∷ ks)) p h = select_constituency-Holds k p h

  got_map-Holds : (r : Reply (List (Feature Rest))) (p : Page Rest) → Holds p → Holds (got_map r p)
  got_map-Holds (ok fs) p h = h
  got_map-Holds (failed m) p h = h

  answered-Holds :
      HasAll
      → (p : Page Rest) (q : List Call) → p.pending ≡ q
      → Inv p q
      → Holds (answer b p (take_at 0 q))
  answered-Holds all p [] e h = rw e h
  answered-Holds all p (whole_map ∷ q) e h =
      got_map-Holds b.get_geography_map_data (record p { pending = q }) h
  answered-Holds all p (state_of c ∷ q) e h = rw (all.0 c) (
      select_first-Holds (states c).parliamentary_constituencies
        (record p { pending = q; state_details = some (states c) }) h)
  answered-Holds all p (constituency_of k ∷ q) e h = rw (all.1 k) h

  step-Holds :
      HasAll → (p : Page Rest) (e : Event Rest) → IsInOrder b e → Holds p → Holds (step p e)
  unfolding step
  step-Holds all p (picked_state c) o h = select_state-Holds c p h
  step-Holds all p (picked_constituency k) o h = select_constituency-Holds k p h
  step-Holds all p (answered n c) o h = rw (o.0, o.1) (answered-Holds all p p.pending refl h)

  run-Holds :
      HasAll
      → (p : Page Rest) (es : List (Event Rest)) → AreInOrder b es
      → Holds p
      → Holds (run p es)
  unfolding run
  run-Holds all p [] o h = h
  run-Holds all p (e ∷ es) (o, os) h = run-Holds all (step p e) es os (step-Holds all p e o h)

-- Answers in the order of the calls leave the map with what is selected: if the backend has details of
-- every state and constituency, and whatever is picked meanwhile every answer is that to the oldest call,
-- then whenever no call is under way, a selected state's details are shown, and a selected
-- constituency's.
pub run-shows_selected :
    {Rest : Type 0} (b : Backend Rest) (states : String → StateDetails Rest)
    (constituencies : String → Rest) (es : List (Event Rest))
    → HasAll b states constituencies
    → AreInOrder b es
    → let p = run (initial Rest) es in
      p.pending ≡ []
      → (truthy p.selected_state_code ≡ true
          → p.state_details ≡ some (states p.selected_state_code))
        × (truthy p.selected_pc_id ≡ true → p.pc_details ≡ some (constituencies p.selected_pc_id))
run-shows_selected {Rest} b states constituencies es all o idle =
    let h = run-Holds b states constituencies all (initial Rest) es o (λ q. refl, λ q. refl) in
    rw idle at h
