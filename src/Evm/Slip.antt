-- ===== src/Evm/Slip.antt =====
-- dashboard/components/evm/EvmTerminal.tsx: the slip in the window and the ballot that was accepted.
use secure_vote.Base.{
  ℕ, ◌≡◌, refl, subst, Bool, true, false, Option, none, some, find_sound, eq_iff, if◌then◌else◌,
  List, [], ◌∷◌, arith,
}
use secure_vote.Types.{CandidateResponse}
use secure_vote.Evm.Setup.{candidate_slate}
use secure_vote.Evm.View.{is_selected, selected_cand_data, vvpat_slip}
use secure_vote.Evm.State.{
  ready, Props, Terminal, Vote, Pending, logging_in, authorizing, casting, session_failed,
  vote_rejected, diagnostic_done, vote_done, cleared, Answer, logged_in, authorized, recorded,
}
use secure_vote.Evm.Loop.{
  Machine, Event, press_ballot, cancel_login, press_cancel, press_toggle, press_clear, submit_login,
  press_candidate, press_cast, settle, settle_pending, step, run,
}
use secure_vote.Evm.Sequence.{
  Inv, IsOrderly, AreOrderly, opening, opening-Inv, settle_keeps, step-Inv,
}

-- The newest accepted ballot is for the selected candidate.
abbrev pub IsForSelected : Machine → List Vote → Type 0
IsForSelected m [] = ⊥
IsForSelected m (v ∷ vs) = m.terminal.selected_candidate ≡ some v.candidate_id

-- The newest of the ballots is for the candidate.
abbrev pub IsFor : CandidateResponse → List Vote → Type 0
IsFor c [] = ⊥
IsFor c (v ∷ vs) = c.id ≡ v.candidate_id

shown_slip :
    (b : Bool) (o : Option CandidateResponse) (c : CandidateResponse)
    → (if b then o else none) ≡ some c
    → (b ≡ true) × (o ≡ some c)
shown_slip true o c h = (refl, h)
shown_slip false o c h = cc h

-- The slip, and the candidate of the ballot that is under way or was accepted last.
abbrev Slip : Machine → List Pending → Type 0
Slip m (casting v ∷ []) =
    (m.terminal.show_vvpat ≡ false) × (m.terminal.selected_candidate ≡ some v.candidate_id)
Slip m (vote_done ∷ []) = IsForSelected m m.accepted
Slip m _ = m.terminal.show_vvpat ≡ false

abbrev SlipInv : Machine → Type 0
SlipInv m = Slip m m.pending

module _ (start : ℕ) (props : Props) (now : ℕ) where
  resume-Slip :
      (m : Machine) (p : Pending) (a : Answer)
      → m.pending ≡ p ∷ []
      → Inv start m
      → SlipInv m
      → SlipInv (settle_pending props now a m (p, []))
  unfolding settle_pending
  resume-Slip m (logging_in mock) (logged_in tok) e v s = ground arith
  resume-Slip m (logging_in mock) a e v s = ground arith
  resume-Slip m authorizing (authorized tok) e v s = ground arith
  resume-Slip m authorizing a e v s = ground arith
  resume-Slip m (casting b) (recorded hash) e v s = ground arith
  resume-Slip m (casting b) a e v s = ground arith
  resume-Slip m session_failed a e v s = ground arith
  resume-Slip m vote_rejected a e v s = ground arith
  resume-Slip m diagnostic_done a e v s = ground arith
  resume-Slip m vote_done a e v s = ground arith
  resume-Slip m (cleared mock) a e v s = ground arith

  step-Slip :
      (m : Machine) (e : Event)
      → IsOrderly m e
      → Inv start m
      → SlipInv m
      → SlipInv (step props now m e)
  unfolding step
  step-Slip m press_ballot o v s = ground arith
  step-Slip m cancel_login o v s = ground arith
  step-Slip m press_cancel o v s = ground arith
  step-Slip m press_toggle o v s = absurd o
  step-Slip m press_clear o v s = ground arith
  step-Slip m (submit_login creds) o v s = ground arith
  step-Slip m (press_candidate id) o v s = ground arith
  step-Slip m (press_cast stamp) o v s = ground arith
  step-Slip m (settle i a) o v s =
      settle_keeps start props now SlipInv m i a v s (λ p e. resume-Slip m p a e v s)

run-Slip :
    (start : ℕ) (props : Props) (m : Machine) (es : List (ℕ × Event))
    → AreOrderly props m es
    → Inv start m
    → SlipInv m
    → SlipInv (run props m es)
unfolding run
run-Slip start props m [] o v s = s
run-Slip start props m ((now, e) ∷ es) (o, os) v s =
    run-Slip start props (step props now m e) es os (step-Inv start props now m e o v)
      (step-Slip start props now m e o v s)

-- A slip in the window comes with the continuation that drops it.
Slip-IsForSelected :
    (m : Machine) (ps : List Pending)
    → Slip m ps
    → m.terminal.show_vvpat ≡ true
    → IsForSelected m m.accepted
Slip-IsForSelected m [] s h = cc (s, h)
Slip-IsForSelected m (casting v ∷ []) s h = cc (s.0, h)
Slip-IsForSelected m (vote_done ∷ []) s h = s
Slip-IsForSelected m (p ∷ ps) s h = cc (s, h)

-- The candidate whose data are found has the identifier.
selected-id :
    (m : Machine) (vs : List Vote) (c : CandidateResponse)
    → IsForSelected m vs
    → selected_cand_data m.terminal ≡ some c
    → IsFor c vs
selected-id m [] c s h = s
selected-id m (v ∷ vs) c s h =
    let chosen : is_selected (some v.candidate_id) c ≡ true =
      subst (λ o. is_selected o c ≡ true) s
        (find_sound (is_selected m.terminal.selected_candidate)
          (candidate_slate m.terminal.election) c h) in
    (eq_iff c.id v.candidate_id).0 chosen

-- The slip is true to the vote: from a terminal at READY, outside diagnostic mode and without a slip,
-- after any events in which diagnostic mode is not switched and a session is asked for only while
-- nothing is pending, a slip that is in the window is that of the candidate whom the newest ballot
-- names that the backend accepted.
pub run-IsFor :
    (props : Props) (t : Terminal) (es : List (ℕ × Event)) (c : CandidateResponse)
    → t.state ≡ ready
    → t.is_mock_poll ≡ false
    → t.show_vvpat ≡ false
    → AreOrderly props (opening t) es
    → let m = run props (opening t) es in vvpat_slip m.terminal ≡ some c → IsFor c m.accepted
unfolding vvpat_slip
run-IsFor props t es c at_ready live hidden orderly h =
    let m = run props (opening t) es in
    let s =
      run-Slip t.sequence_number props (opening t) es orderly (opening-Inv t at_ready live)
        hidden in
    let (shown, found) = shown_slip m.terminal.show_vvpat (selected_cand_data m.terminal) c h in
    selected-id m m.accepted c (Slip-IsForSelected m m.pending s shown) found
