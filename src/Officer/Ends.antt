-- ===== src/Officer/Ends.antt =====
-- dashboard/app/(officer)/results/page.tsx: that the handlers come to an end, and what they amount to
-- where nothing else runs.
use secure_vote.Base.{
  ℕ, suc, ◌≤◌, String, ◌≡◌, refl, Bool, true, false, Option, none, some, List, [], ◌∷◌, ◌++◌, map,
  Reply, ok, failed, arith, length, sum_by, sum_by-append, ap, ◌∙◌, any,
}
use secure_vote.Types.{ElectionResponse}
use secure_vote.Types.Reports.{VerificationResponse, AuditAnchorResponse, SignedManifestResponse}
use secure_vote.Officer.{target}
use secure_vote.Officer.Results.{
  Page, Backend, Call, elections_for, results_of, anchors_of, begin_fetch, to_target, got_elections,
  got_results, got_anchors, resume, fetch_results, resume_next, verified,
}
use secure_vote.Officer.Reload.{
  Tail, alone, after_signing, after_anchoring, Waiting, fetching, verifying, signing, anchoring,
  World, Service, Event, opened, answered, of_next, pass_page, pass_on, got_signed, got_anchored,
  wake, step, run,
}

-- How many answers a handler still needs, at most.
abbrev pub answers_for : Waiting → ℕ
answers_for (fetching tail (elections_for k)) = 3
answers_for (fetching tail (results_of k)) = 2
answers_for (fetching tail (anchors_of k)) = 1
answers_for (verifying k) = 1
answers_for (signing k) = 4
answers_for (anchoring k) = 4

abbrev pub is_fetch : Waiting → Bool
is_fetch (fetching tail c) = true
is_fetch _ = false

answers_for_pos : (c : Waiting) → 1 ≤ answers_for c
answers_for_pos (fetching tail (elections_for k)) = omega arith
answers_for_pos (fetching tail (results_of k)) = omega arith
answers_for_pos (fetching tail (anchors_of k)) = omega arith
answers_for_pos (verifying k) = omega arith
answers_for_pos (signing k) = omega arith
answers_for_pos (anchoring k) = omega arith

-- Where none of two lists has a fetch, neither has one.
any-fetch_concat :
    (cs ds : List Waiting)
    → any is_fetch (cs ++ ds) ≡ false
    → (any is_fetch cs ≡ false) × (any is_fetch ds ≡ false)
any-fetch_concat [] ds h = (refl, h)
any-fetch_concat (fetching tail c ∷ cs) ds h = absurd (cc h)
any-fetch_concat (verifying k ∷ cs) ds h = any-fetch_concat cs ds h
any-fetch_concat (signing k ∷ cs) ds h = any-fetch_concat cs ds h
any-fetch_concat (anchoring k ∷ cs) ds h = any-fetch_concat cs ds h

any-fetch_cons :
    (c : Waiting) (cs : List Waiting)
    → is_fetch c ≡ false
    → any is_fetch cs ≡ false
    → any is_fetch (c ∷ cs) ≡ false
any-fetch_cons c cs p q = rw (p, q) refl

module _ {Number : Type 0} where
  -- A piece of a handler ends it, or leaves something that needs fewer answers; and a fetch that ends
  -- ends the loading.
  record Goes (c : Waiting) (p : Page Number) (x : Page Number × List Waiting) : Type 0 where
    fewer : suc (sum_by answers_for x.1) ≤ answers_for c
    ended :
        any is_fetch x.1 ≡ false → (is_fetch c ≡ false → p.loading ≡ false) → x.0.loading ≡ false

  -- What the pieces of a fetch have in common.
  record Fetches (c : Call) (x : Page Number × Option Call) : Type 0 where
    fewer :
        (tail : Tail) → suc (sum_by answers_for (of_next tail x.1)) ≤ answers_for (fetching tail c)
    ended : x.1 ≡ none → x.0.loading ≡ false

  to_target-Fetches :
      (k : String) (o : Option ElectionResponse) (p : Page Number)
      → Fetches (elections_for k) (to_target o p)
  to_target-Fetches k none p = record { fewer = λ _. omega arith; ended = λ _. refl }
  to_target-Fetches k (some e) p = record { fewer = λ _. omega arith; ended = λ q. absurd (cc q) }

  got_elections-Fetches :
      (k : String) (r : Reply (List ElectionResponse)) (p : Page Number)
      → Fetches (elections_for k) (got_elections k r p)
  unfolding got_elections
  got_elections-Fetches k (failed m) p = record { fewer = λ _. omega arith; ended = λ _. refl }
  got_elections-Fetches k (ok es) p =
      to_target-Fetches k (target k es) (record p { elections = es })

  got_results-Fetches :
      (k : String) (r : Reply (VerificationResponse Number)) (p : Page Number)
      → Fetches (results_of k) (got_results k r p)
  unfolding got_results
  got_results-Fetches k (failed m) p = record { fewer = λ _. omega arith; ended = λ _. refl }
  got_results-Fetches k (ok r) p = record { fewer = λ _. omega arith; ended = λ q. absurd (cc q) }

  resume-Fetches : (b : Backend Number) (c : Call) (p : Page Number) → Fetches c (resume b c p)
  unfolding resume got_anchors
  resume-Fetches b (elections_for k) p = got_elections-Fetches k b.get_elections p
  resume-Fetches b (results_of k) p = got_results-Fetches k (b.get_results k) p
  resume-Fetches b (anchors_of k) p = record { fewer = λ _. omega arith; ended = λ _. refl }

  pass_page-ended :
      (tail : Tail) (next : Option Call) (p : Page Number)
      → any is_fetch (of_next tail next) ≡ false
      → (next ≡ none → p.loading ≡ false)
      → (pass_page tail next p).loading ≡ false
  pass_page-ended tail (some c) p h ended = absurd (cc h)
  pass_page-ended alone none p h ended = ended refl
  pass_page-ended after_signing none p h ended = ended refl
  pass_page-ended after_anchoring none p h ended = ended refl

  pass_on-Goes :
      (tail : Tail) (c : Call) (p : Page Number) (x : Page Number × Option Call)
      → Fetches c x
      → Goes (fetching tail c) p (pass_on tail x)
  pass_on-Goes tail c p x f = record {
    fewer = f.fewer tail;
    ended = λ h _. pass_page-ended tail x.1 x.0 h f.ended;
  }

  verified-Goes :
      (k : String) (r : Reply (VerificationResponse Number)) (p : Page Number)
      → Goes (verifying k) p (verified r p, [])
  verified-Goes k (ok r) p = record { fewer = omega arith; ended = λ _ h. h refl }
  verified-Goes k (failed m) p = record { fewer = omega arith; ended = λ _ h. h refl }

  got_signed-Goes :
      (k : String) (r : Reply SignedManifestResponse) (p : Page Number)
      → Goes (signing k) p (got_signed k r p)
  unfolding begin_fetch
  got_signed-Goes k (ok r) p = record { fewer = omega arith; ended = λ q _. absurd (cc q) }
  got_signed-Goes k (failed m) p = record { fewer = omega arith; ended = λ _ h. h refl }

  got_anchored-Goes :
      (k : String) (r : Reply AuditAnchorResponse) (p : Page Number)
      → Goes (anchoring k) p (got_anchored k r p)
  unfolding begin_fetch
  got_anchored-Goes k (ok r) p = record { fewer = omega arith; ended = λ q _. absurd (cc q) }
  got_anchored-Goes k (failed m) p = record { fewer = omega arith; ended = λ _ h. h refl }

  wake-Goes : (s : Service Number) (c : Waiting) (p : Page Number) → Goes c p (wake s c p)
  unfolding wake
  wake-Goes s (fetching tail c) p =
      pass_on-Goes tail c p (resume s.backend c p) (resume-Fetches s.backend c p)
  wake-Goes s (verifying k) p = verified-Goes k (s.run_verification k) p
  wake-Goes s (signing k) p = got_signed-Goes k (s.sign_election_manifest k) p
  wake-Goes s (anchoring k) p = got_anchored-Goes k (s.create_election_anchor k) p

  -- The backend answers the oldest of those that wait, again and again.
  abbrev pub answers : List (Service Number) → List (Event Number)
  answers ss = map (answered 0) ss

  -- Nothing waits, and the page does not show that it loads.
  record IsIdle (w : World Number) : Type 0 where
    idle : w.pending ≡ []
    loaded : w.page.loading ≡ false

  run-IsIdle :
      (p : Page Number) (cs : List Waiting) (ss : List (Service Number))
      → (any is_fetch cs ≡ false → p.loading ≡ false)
      → sum_by answers_for cs ≤ length ss
      → IsIdle (run (record { page = p; pending = cs }) (answers ss))
  unfolding run step
  run-IsIdle p [] [] quiet enough = record { idle = refl; loaded = quiet refl }
  run-IsIdle p (c ∷ cs) [] quiet enough = absurd (omega (arith, answers_for_pos c))
  run-IsIdle p [] (s ∷ ss) quiet enough = run-IsIdle p [] ss quiet (omega arith)
  run-IsIdle p (c ∷ cs) (s ∷ ss) quiet enough =
      let x = wake s c p in
      let goes = wake-Goes s c p in
      run-IsIdle x.0 (cs ++ x.1) ss
        (λ q.
          let (rest, next) = any-fetch_concat cs x.1 q in
          goes.ended next (λ other. quiet (any-fetch_cons c cs other rest)))
        (omega (arith, goes.fewer, sum_by-append answers_for cs x.1))

  -- From any moment at which the page shows that it loads only where a fetch is under way: as many
  -- answers as the waiting handlers need, three for a fetch that begins, one for a verification and four
  -- for a signature or an anchor, whatever they say, end all the handlers, and then the page does not
  -- show that it loads.
  pub run-answers_end :
      (w : World Number) (ss : List (Service Number))
      → (any is_fetch w.pending ≡ false → w.page.loading ≡ false)
      → sum_by answers_for w.pending ≤ length ss
      → let v = run w (answers ss) in (v.pending ≡ []) × (v.page.loading ≡ false)
  run-answers_end w ss quiet enough =
      let done = run-IsIdle w.page w.pending ss quiet enough in (done.idle, done.loaded)

  abbrev pub world_of : Page Number × Option Call → World Number
  world_of x = record { page = x.0; pending = of_next alone x.1 }

  run-resume_next :
      (s : Service Number) (x : Page Number × Option Call) (es : List (Event Number))
      → run (world_of x) (answered 0 s ∷ es) ≡ run (world_of (resume_next s.backend x)) es
  unfolding run step wake
  run-resume_next s (p, none) es = refl
  run-resume_next s (p, some c) es = refl

  -- A fetch on its own, in three steps of the machine, is the whole of `fetchResults`, whatever the
  -- backend answers, and leaves no call pending.
  run-fetch_results :
      (s : Service Number) (k : String) (p : Page Number)
      → let v = run (world_of (p, none)) (opened k ∷ answers (s ∷ s ∷ s ∷ [])) in
        (v.page ≡ fetch_results s.backend k (record p { selected_election_id = k }))
        × (v.pending ≡ [])
  unfolding run fetch_results
  run-fetch_results s k p =
      let begun = begin_fetch (record p { selected_election_id = k }) in
      let x = resume s.backend (elections_for k) begun in
      let steps =
        run-resume_next s (begun, some (elections_for k)) (answers (s ∷ s ∷ []))
        ∙ run-resume_next s x (answers (s ∷ []))
        ∙ run-resume_next s (resume_next s.backend x) [] in
      let ended =
        run-IsIdle begun (fetching alone (elections_for k) ∷ []) (s ∷ s ∷ s ∷ [])
          (λ q. absurd (cc q)) (omega arith) in
      (ap (λ v. v.page) steps, ended.idle)
