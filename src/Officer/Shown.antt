-- ===== src/Officer/Shown.antt =====
-- dashboard/app/(officer)/results/page.tsx: that the results shown are those of the selected election,
-- where the handlers of the page run one after the other.
use secure_vote.Base.{
  ℕ, zero, suc, String, ◌≡◌, ◌≢◌, refl, Option, none, some, List, [], ◌∷◌, Reply, ok, failed, subst,
  truthy?, if_holds, Bool-cases, inl, inr,
}
use secure_vote.Types.{ElectionResponse, Role}
use secure_vote.Types.Reports.{VerificationResponse, AuditAnchorResponse, SignedManifestResponse}
use secure_vote.Officer.{target, target-cons}
use secure_vote.Officer.Results.{
  Page, Call, elections_for, results_of, anchors_of, may_verify, got_elections, got_results,
  got_anchors, resume, begin_verification, verified, begin_signing, begin_anchoring,
}
use secure_vote.Officer.Reload.{
  Tail, alone, after_signing, after_anchoring, Waiting, fetching, verifying, signing, anchoring,
  World, Service, Event, opened, pressed_refresh, dismissed, pressed_verify, pressed_sign,
  pressed_anchor, answered, offers_verification, offers_signing, offers_anchoring, pass_on,
  got_signed, got_anchored, wake, go_on, waits, step, run, first_world, fetch_for,
}

module _ {Number : Type 0} where
  -- The results shown, if any, are those of the selected election.
  abbrev pub Shows : Page Number → Type 0
  Shows p =
      (r : VerificationResponse Number)
      → p.results ≡ some r
      → r.election_id ≡ p.selected_election_id

  -- The backend gives the results of the election that it is asked for, and verifies that one.
  pub record IsHonest (s : Service Number) : Type 0 where
    pub of_results :
        (k : String) (r : VerificationResponse Number)
        → s.backend.get_results k ≡ ok r
        → r.election_id ≡ k
    pub of_verification :
        (k : String) (r : VerificationResponse Number)
        → s.run_verification k ≡ ok r
        → r.election_id ≡ k

  -- Nothing is picked or pressed while a handler waits, no error is dismissed, and the backend is
  -- honest.
  abbrev pub MayHappen : World Number → Event Number → Type 0
  MayHappen w (opened k) = w.pending ≡ []
  MayHappen w pressed_refresh = w.pending ≡ []
  MayHappen w dismissed = ⊥
  MayHappen w (pressed_verify token role) = w.pending ≡ []
  MayHappen w (pressed_sign token role) = w.pending ≡ []
  MayHappen w (pressed_anchor token role) = w.pending ≡ []
  MayHappen w (answered n s) = IsHonest s

  abbrev pub AreOrderly : World Number → List (Event Number) → Type 0
  AreOrderly w [] = Unit
  AreOrderly w (e ∷ es) = MayHappen w e × AreOrderly (step w e) es

  -- What holds of the page while a handler waits.
  abbrev At : Page Number → List Waiting → Type 0
  At p [] = p.error ≡ none → p.elections ≢ [] → Shows p
  At p (fetching tail (elections_for k) ∷ []) = Unit
  At p (fetching tail (results_of k) ∷ []) = p.selected_election_id ≡ k
  At p (fetching tail (anchors_of k) ∷ []) = Shows p
  At p (verifying k ∷ []) = p.selected_election_id ≡ k
  At p (signing k ∷ []) = Unit
  At p (anchoring k ∷ []) = Unit
  At p (_ ∷ _ ∷ _) = ⊥

  abbrev Holds : Page Number × List Waiting → Type 0
  Holds x = At x.0 x.1

  abbrev AtCall : Tail → Page Number × Option Call → Type 0
  AtCall tail x = Holds (pass_on tail x)

  got_elections-At :
      (tail : Tail) (k : String) (r : Reply (List ElectionResponse)) (p : Page Number)
      → AtCall tail (got_elections k r p)
  unfolding got_elections target
  got_elections-At alone k (failed m) p = λ e. absurd (cc e)
  got_elections-At after_signing k (failed m) p = λ e. absurd (cc e)
  got_elections-At after_anchoring k (failed m) p = λ e. absurd (cc e)
  got_elections-At alone k (ok []) p = λ e n. absurd (n refl)
  got_elections-At after_signing k (ok []) p = λ e n. absurd (n refl)
  got_elections-At after_anchoring k (ok []) p = λ e n. absurd (n refl)
  got_elections-At alone k (ok (f ∷ fs)) p = let (e, q) = target-cons k f fs in rw q refl
  got_elections-At after_signing k (ok (f ∷ fs)) p = let (e, q) = target-cons k f fs in rw q refl
  got_elections-At after_anchoring k (ok (f ∷ fs)) p = let (e, q) = target-cons k f fs in rw q refl

  got_results-At :
      (tail : Tail) (k : String) (r : Reply (VerificationResponse Number)) (p : Page Number)
      → ((v : VerificationResponse Number) → r ≡ ok v → v.election_id ≡ k)
      → p.selected_election_id ≡ k
      → AtCall tail (got_results k r p)
  unfolding got_results
  got_results-At alone k (failed m) p honest h = λ e. absurd (cc e)
  got_results-At after_signing k (failed m) p honest h = λ e. absurd (cc e)
  got_results-At after_anchoring k (failed m) p honest h = λ e. absurd (cc e)
  got_results-At alone k (ok v) p honest h = λ r shown. cc (honest v refl, shown, h)
  got_results-At after_signing k (ok v) p honest h = λ r shown. cc (honest v refl, shown, h)
  got_results-At after_anchoring k (ok v) p honest h = λ r shown. cc (honest v refl, shown, h)

  got_anchors-At :
      (tail : Tail) (r : Reply (List AuditAnchorResponse)) (p : Page Number)
      → Shows p
      → AtCall tail (got_anchors r p)
  unfolding got_anchors
  got_anchors-At alone r p h = λ _ _. h
  got_anchors-At after_signing r p h = λ _ _. h
  got_anchors-At after_anchoring r p h = λ _ _. h

  verified-At :
      (k : String) (r : Reply (VerificationResponse Number)) (p : Page Number)
      → ((v : VerificationResponse Number) → r ≡ ok v → v.election_id ≡ k)
      → p.selected_election_id ≡ k
      → At (verified r p) []
  verified-At k (failed m) p honest h = λ e. absurd (cc e)
  verified-At k (ok v) p honest h = λ _ _ r shown. cc (honest v refl, shown, h)

  got_signed-At :
      (k : String) (r : Reply SignedManifestResponse) (p : Page Number) → Holds (got_signed k r p)
  got_signed-At k (ok _) p = tt
  got_signed-At k (failed m) p = λ e. absurd (cc e)

  got_anchored-At :
      (k : String) (r : Reply AuditAnchorResponse) (p : Page Number) → Holds (got_anchored k r p)
  got_anchored-At k (ok _) p = tt
  got_anchored-At k (failed m) p = λ e. absurd (cc e)

  wake-At :
      (s : Service Number) (c : Waiting) (p : Page Number)
      → IsHonest s
      → At p (c ∷ [])
      → Holds (wake s c p)
  unfolding wake resume
  wake-At s (fetching tail (elections_for k)) p honest h =
      got_elections-At tail k s.backend.get_elections p
  wake-At s (fetching tail (results_of k)) p honest h =
      got_results-At tail k (s.backend.get_results k) p (honest.of_results k) h
  wake-At s (fetching tail (anchors_of k)) p honest h =
      got_anchors-At tail (s.backend.get_election_anchors k) p h
  wake-At s (verifying k) p honest h =
      verified-At k (s.run_verification k) p (honest.of_verification k) h
  wake-At s (signing k) p honest h = got_signed-At k (s.sign_election_manifest k) p
  wake-At s (anchoring k) p honest h = got_anchored-At k (s.create_election_anchor k) p

  answered-At :
      (n : ℕ) (s : Service Number) (p : Page Number) (cs : List Waiting)
      → IsHonest s
      → At p cs
      → let w = step (record { page = p; pending = cs }) (answered n s) in At w.page w.pending
  unfolding step
  answered-At n s p [] honest h = h
  answered-At zero s p (c ∷ []) honest h = wake-At s c p honest h
  answered-At (suc n) s p (c ∷ []) honest h = h
  answered-At n s p (c ∷ d ∷ cs) honest h = absurd h

  abbrev Inv : World Number → Type 0
  Inv w = At w.page w.pending

  go_on-At :
      (w : World Number) (x : Page Number × List Waiting)
      → w.pending ≡ []
      → Holds x
      → Inv (go_on w x)
  go_on-At w x quiet h = rw quiet h

  verification-At :
      (token : Option String) (role : Option Role) (p : Page Number)
      → At p []
      → Holds (waits verifying (begin_verification token role p))
  unfolding begin_verification
  verification-At token role p h = elim (Bool-cases (truthy? token)) [
    | inr e ↦ rw e h
    | inl e ↦ elim (Bool-cases (may_verify role)) [
      | inr f ↦ rw (e, f) (λ q. absurd (cc q))
      | inl f ↦ rw (e, f) refl
    ]
  ]

  signing-At :
      (token : Option String) (p : Page Number)
      → At p []
      → Holds (waits signing (begin_signing token p))
  unfolding begin_signing
  signing-At token p h = elim (Bool-cases (truthy? token)) [ inr e ↦ rw e h | inl e ↦ rw e tt ]

  anchoring-At :
      (token : Option String) (p : Page Number)
      → At p []
      → Holds (waits anchoring (begin_anchoring token p))
  unfolding begin_anchoring
  anchoring-At token p h = elim (Bool-cases (truthy? token)) [ inr e ↦ rw e h | inl e ↦ rw e tt ]

  step-At : (w : World Number) (e : Event Number) → MayHappen w e → Inv w → Inv (step w e)
  unfolding step
  step-At w (opened k) quiet h =
      go_on-At w (fetch_for alone k (record w.page { selected_election_id = k })) quiet tt
  step-At w pressed_refresh quiet h =
      let x = fetch_for alone w.page.selected_election_id w.page in
      if_holds Inv w.page.loading w (go_on w x) h (go_on-At w x quiet tt)
  step-At w dismissed never h = absurd never
  step-At w (pressed_verify token role) quiet h =
      let x = waits verifying (begin_verification token role w.page) in
      if_holds Inv (offers_verification role w.page) (go_on w x) w
        (go_on-At w x quiet (verification-At token role w.page (subst (At w.page) quiet h))) h
  step-At w (pressed_sign token role) quiet h =
      let x = waits signing (begin_signing token w.page) in
      if_holds Inv (offers_signing role w.page) (go_on w x) w
        (go_on-At w x quiet (signing-At token w.page (subst (At w.page) quiet h))) h
  step-At w (pressed_anchor token role) quiet h =
      let x = waits anchoring (begin_anchoring token w.page) in
      if_holds Inv (offers_anchoring role w.page) (go_on w x) w
        (go_on-At w x quiet (anchoring-At token w.page (subst (At w.page) quiet h))) h
  step-At w (answered n s) honest h = answered-At n s w.page w.pending honest h

  run-At : (w : World Number) (es : List (Event Number)) → AreOrderly w es → Inv w → Inv (run w es)
  unfolding run
  run-At w [] o h = h
  run-At w (e ∷ es) (may, o) h = run-At (step w e) es o (step-At w e may h)

  -- If nothing is picked or pressed while an answer is awaited, no error is dismissed, and the backend
  -- gives for an election its own results and verifies the one that it is asked to, then, whatever is
  -- picked, refreshed, verified, signed and anchored: whenever nothing waits, no error is shown and
  -- there are elections, the results that the page shows, if any, are those of the selected election.
  pub run-Shows :
      (es : List (Event Number))
      → AreOrderly (first_world Number) es
      → (run (first_world Number) es).pending ≡ []
      → (run (first_world Number) es).page.error ≡ none
      → (run (first_world Number) es).page.elections ≢ []
      → Shows (run (first_world Number) es).page
  run-Shows es o done =
      let w = run (first_world Number) es in
      subst (At w.page) done (run-At (first_world Number) es o (λ _ _ r q. absurd (cc q)))
