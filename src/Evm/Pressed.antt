-- ===== src/Evm/Pressed.antt =====
-- dashboard/components/evm/EvmTerminal.tsx: the candidates that ballots name and the buttons pressed.
use secure_vote.Base.{
  if_holds, ℕ, ◌≡◌, refl, String, Bool, true, false, not, ◌&&◌, ◌||◌, Option, none, some, List, [],
  ◌∷◌, ◌++◌, arith, length, keep, all, truthy?,
}
use secure_vote.Evm.State.{
  Props, Terminal, Vote, Pending, logging_in, Answer, logged_in, authorized, recorded, refused,
  elapsed, Outcome, done, Creds,
}
use secure_vote.Evm.Handlers.{
  authorize, handle_init_session, handle_confirm, handle_clear_mock_poll, is_confirmed, is_ready,
  selecting, handle_candidate_select, handle_cancel, toggle_diagnostic,
}
use secure_vote.Evm.Resume.{resume}
use secure_vote.Evm.Loop.{
  Machine, Event, press_ballot, cancel_login, press_cancel, press_toggle, press_clear, submit_login,
  press_candidate, press_cast, settle, votes_in, after, handle_init, handle_login_submit, take_out,
  confirmed, settle_pending, settle_found, step, run,
}
use secure_vote.Evm.Sequence.{opening}
use secure_vote.Evm.Conserved.{run-accepted_le_sent}

module _ (p : String → Bool) where
  -- A candidate is pressed only if it satisfies `p`.
  abbrev pub IsPressed : Event → Type 0
  IsPressed (press_candidate id) = p id ≡ true
  IsPressed _ = Unit

  abbrev pub ArePressed : List (ℕ × Event) → Type 0
  ArePressed [] = Unit
  ArePressed ((now, e) ∷ es) = IsPressed e × ArePressed es

  abbrev names : Vote → Bool
  names v = p v.candidate_id

  abbrev may_be_selected : Option String → Bool
  may_be_selected none = true
  may_be_selected (some c) = p c

  abbrev Selects : Terminal → Type 0
  Selects t = may_be_selected t.selected_candidate ≡ true

  abbrev Inv : Machine → Type 0
  Inv m = Selects m.terminal × (all names m.sent ≡ true)

  abbrev IsFine : Outcome → Type 0
  IsFine o = Selects o.terminal × (all names (votes_in o.calls) ≡ true)

  all-concat :
      (vs ws : List Vote) → all names vs ≡ true → all names ws ≡ true → all names (vs ++ ws) ≡ true
  all-concat [] ws h k = k
  all-concat (v ∷ vs) ws h k = ground (arith, h, all-concat vs ws)

  after-Inv : (m : Machine) (o : Outcome) → IsFine o → all names m.sent ≡ true → Inv (after m o)
  unfolding after
  after-Inv m o f h = (f.0, all-concat (votes_in o.calls) m.sent f.1 h)

  authorize-IsFine :
      (props : Props) (mock : Bool) (current : Option String) (now : ℕ) (t : Terminal)
      → Selects t
      → IsFine (authorize props mock current now t)
  unfolding authorize votes_in
  authorize-IsFine props mock current now t h = ground arith

  init-IsFine :
      (props : Props) (creds : Option Creds) (now : ℕ) (t : Terminal)
      → Selects t
      → IsFine (handle_init_session props creds now t)
  unfolding handle_init_session votes_in
  init-IsFine props none now t h = authorize-IsFine props t.is_mock_poll props.token now t h
  init-IsFine props (some c) now t h =
      ground (arith, authorize-IsFine props t.is_mock_poll props.token now t h)

  confirm-IsFine :
      (props : Props) (stamp : String) (t : Terminal)
      → Selects t
      → IsFine (handle_confirm props stamp t)
  unfolding handle_confirm votes_in
  confirm-IsFine props stamp t h = ground arith

  select-IsFine :
      (id : String) (t : Terminal)
      → p id ≡ true
      → Selects t
      → IsFine (done (handle_candidate_select id t))
  unfolding handle_candidate_select votes_in
  select-IsFine id t e h = ground arith

  cancel-IsFine : (t : Terminal) → Selects t → IsFine (done (handle_cancel t))
  unfolding handle_cancel votes_in
  cancel-IsFine t h = ground arith

  toggle-IsFine : (t : Terminal) → IsFine (done (toggle_diagnostic t))
  unfolding toggle_diagnostic votes_in
  toggle-IsFine t = (refl, refl)

  clear-IsFine : (t : Terminal) → Selects t → IsFine (handle_clear_mock_poll t)
  unfolding handle_clear_mock_poll votes_in
  clear-IsFine t h = (h, refl)

  resume-IsFine :
      (props : Props) (now : ℕ) (q : Pending) (a : Answer) (t : Terminal)
      → Selects t
      → IsFine (resume props now q a t)
  unfolding resume votes_in
  resume-IsFine props now (logging_in mock) (logged_in tok) t h =
      authorize-IsFine props mock (some tok) now t h
  resume-IsFine props now q (logged_in tok) t h = ground arith
  resume-IsFine props now q (authorized tok) t h = ground arith
  resume-IsFine props now q (recorded hash) t h = ground arith
  resume-IsFine props now q refused t h = ground arith
  resume-IsFine props now q elapsed t h = ground arith

  settle-Inv :
      (props : Props) (now : ℕ) (a : Answer) (m : Machine) (o : Option (Pending × List Pending))
      → Inv m
      → Inv (settle_found props now a m o)
  unfolding settle_found settle_pending
  settle-Inv props now a m none h = h
  settle-Inv props now a m (some (q, rest)) h =
      after-Inv (record m { pending = rest; accepted = confirmed q a ++ m.accepted })
        (resume props now q a m.terminal) (resume-IsFine props now q a m.terminal h.0) h.1

  init-Inv : (props : Props) (now : ℕ) (m : Machine) → Inv m → Inv (handle_init props now m)
  unfolding handle_init
  init-Inv props now m h =
      let o = handle_init_session props none now m.terminal in
      if_holds Inv (truthy? props.token || m.terminal.is_mock_poll) (after m o)
        (record m { show_login = true })
        (after-Inv m o (init-IsFine props none now m.terminal h.0) h.1) h

  step-Inv :
      (props : Props) (now : ℕ) (m : Machine) (e : Event)
      → IsPressed e
      → Inv m
      → Inv (step props now m e)
  unfolding step handle_login_submit
  step-Inv props now m press_ballot u h =
      if_holds Inv (not m.show_login && is_ready m.terminal.state) (handle_init props now m) m
        (init-Inv props now m h) h
  step-Inv props now m cancel_login u h = h
  step-Inv props now m (submit_login creds) u h =
      let n : Machine = record m { show_login = false } in
      let o = handle_init_session props (some creds) now m.terminal in
      if_holds Inv m.show_login (after n o) m
        (after-Inv n o (init-IsFine props (some creds) now m.terminal h.0) h.1) h
  step-Inv props now m (press_candidate id) u h =
      let o = done (handle_candidate_select id m.terminal) in
      if_holds Inv (selecting m.terminal.state) (after m o) m
        (after-Inv m o (select-IsFine id m.terminal u h.0) h.1) h
  step-Inv props now m press_cancel u h =
      let o = done (handle_cancel m.terminal) in
      if_holds Inv (is_confirmed m.terminal.state) (after m o) m
        (after-Inv m o (cancel-IsFine m.terminal h.0) h.1) h
  step-Inv props now m (press_cast stamp) u h =
      let o = handle_confirm props stamp m.terminal in
      if_holds Inv (is_confirmed m.terminal.state) (after m o) m
        (after-Inv m o (confirm-IsFine props stamp m.terminal h.0) h.1) h
  step-Inv props now m press_toggle u h =
      after-Inv m (done (toggle_diagnostic m.terminal)) (toggle-IsFine m.terminal) h.1
  step-Inv props now m press_clear u h =
      let o = handle_clear_mock_poll m.terminal in
      if_holds Inv m.terminal.is_mock_poll (after m o) m
        (after-Inv m o (clear-IsFine m.terminal h.0) h.1) h
  step-Inv props now m (settle i a) u h = settle-Inv props now a m (take_out i m.pending) h

  run-Inv :
      (props : Props) (m : Machine) (es : List (ℕ × Event))
      → ArePressed es
      → Inv m
      → Inv (run props m es)
  unfolding run
  run-Inv props m [] u h = h
  run-Inv props m ((now, e) ∷ es) (u, us) h =
      run-Inv props (step props now m e) es us (step-Inv props now m e u h)

  others : Vote → Bool
  others v = not (names v)

  number-others : (vs : List Vote) → all names vs ≡ true → length (keep others vs) ≡ 0
  unfolding others
  number-others [] h = refl
  number-others (v ∷ vs) h = ground (arith, number-others vs)

  all-others : (vs : List Vote) → length (keep others vs) ≡ 0 → all names vs ≡ true
  unfolding others
  all-others [] h = refl
  all-others (v ∷ vs) h = ground (arith, all-others vs)

-- No ballot is accepted for a candidate whose button was not pressed: from a terminal without calls under
-- way and without a selection, where every button pressed is of a candidate that satisfies `p`, every
-- ballot that the backend accepted names a candidate that satisfies `p`, whatever else is pressed and in
-- whatever order the continuations run.
pub run-accepted_pressed :
    (p : String → Bool) (props : Props) (t : Terminal) (es : List (ℕ × Event))
    → t.selected_candidate ≡ none
    → ArePressed p es
    → all (λ v. p v.candidate_id) (run props (opening t) es).accepted ≡ true
run-accepted_pressed p props t es free pressed =
    let m = run props (opening t) es in
    let sent = (run-Inv p props (opening t) es pressed (rw free refl, refl)).1 in
    all-others p m.accepted
      (omega (arith, number-others p m.sent sent, run-accepted_le_sent (others p) props t es))
