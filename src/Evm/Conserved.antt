-- ===== src/Evm/Conserved.antt =====
-- dashboard/components/evm/EvmTerminal.tsx: the ballots that are handed over and those that the backend
-- accepts, in whatever order the continuations run.
use secure_vote.Base.{
  if_holds, ℕ, zero, suc, ◌+◌, ◌≤◌, ◌≡◌, String, Bool, true, false, Option, none, some, List, [],
  ◌∷◌, ◌++◌, arith, length, keep, truthy?, not, ◌&&◌, ◌||◌,
}
use secure_vote.Evm.State.{
  Props, Terminal, Vote, Pending, casting, logging_in, authorizing, session_failed, vote_rejected,
  diagnostic_done, vote_done, cleared, Answer, logged_in, authorized, recorded, refused, elapsed,
  Outcome, done, Creds,
}
use secure_vote.Evm.Handlers.{
  authorize, handle_init_session, handle_confirm, handle_clear_mock_poll, is_confirmed, is_ready,
  selecting, handle_candidate_select, handle_cancel, toggle_diagnostic,
}
use secure_vote.Evm.Resume.{resume}
use secure_vote.Evm.Loop.{
  Machine, Event, press_ballot, cancel_login, press_cancel, press_toggle, press_clear, submit_login,
  press_candidate, press_cast, settle, votes_in, after, handle_init, handle_login_submit, take_out,
  confirmed, settle_pending, settle_found, step, run,
}
use secure_vote.Evm.Sequence.{opening}

-- The ballots whose answers are awaited.
abbrev pub awaited : List Pending → List Vote
awaited [] = []
awaited (casting v ∷ ps) = v ∷ awaited ps
awaited (_ ∷ ps) = awaited ps

module _ (f : Vote → Bool) where
  abbrev number : List Vote → ℕ
  number vs = length (keep f vs)

  number-concat : (vs ws : List Vote) → number (vs ++ ws) ≡ number vs + number ws
  number-concat [] ws = omega arith
  number-concat (v ∷ vs) ws = ground (arith, number-concat vs ws)

  number-awaited :
      (ps qs : List Pending)
      → number (awaited (ps ++ qs)) ≡ number (awaited ps) + number (awaited qs)
  number-awaited [] qs = omega arith
  number-awaited (casting v ∷ ps) qs = ground (arith, number-awaited ps qs)
  number-awaited (logging_in b ∷ ps) qs = number-awaited ps qs
  number-awaited (authorizing ∷ ps) qs = number-awaited ps qs
  number-awaited (session_failed ∷ ps) qs = number-awaited ps qs
  number-awaited (vote_rejected ∷ ps) qs = number-awaited ps qs
  number-awaited (diagnostic_done ∷ ps) qs = number-awaited ps qs
  number-awaited (vote_done ∷ ps) qs = number-awaited ps qs
  number-awaited (cleared b ∷ ps) qs = number-awaited ps qs

  -- A handler awaits no ballot that it did not hand over.
  abbrev IsBalanced : Outcome → Type 0
  IsBalanced o = number (awaited o.later) ≤ number (votes_in o.calls)

  abbrev Inv : Machine → Type 0
  Inv m = number m.accepted + number (awaited m.pending) ≤ number m.sent

  after-Inv : (m : Machine) (o : Outcome) → IsBalanced o → Inv m → Inv (after m o)
  unfolding after
  after-Inv m o b h =
      omega (arith, b, h, number-awaited m.pending o.later, number-concat (votes_in o.calls) m.sent)

  authorize-IsBalanced :
      (props : Props) (mock : Bool) (current : Option String) (now : ℕ) (t : Terminal)
      → IsBalanced (authorize props mock current now t)
  unfolding authorize votes_in
  authorize-IsBalanced props mock current now t = ground arith

  init-IsBalanced :
      (props : Props) (creds : Option Creds) (now : ℕ) (t : Terminal)
      → IsBalanced (handle_init_session props creds now t)
  unfolding handle_init_session votes_in
  init-IsBalanced props none now t = authorize-IsBalanced props t.is_mock_poll props.token now t
  init-IsBalanced props (some c) now t =
      ground (arith, authorize-IsBalanced props t.is_mock_poll props.token now t)

  confirm-IsBalanced :
      (props : Props) (stamp : String) (t : Terminal) → IsBalanced (handle_confirm props stamp t)
  unfolding handle_confirm votes_in
  confirm-IsBalanced props stamp t = ground arith

  -- Of the ballot that a continuation awaits, either the answer is still awaited or it is accepted.
  resume-IsBalanced :
      (props : Props) (now : ℕ) (p : Pending) (a : Answer) (t : Terminal)
      → let o = resume props now p a t in
        number (confirmed p a) + number (awaited o.later)
        ≤ number (awaited (p ∷ [])) + number (votes_in o.calls)
  unfolding resume votes_in
  resume-IsBalanced props now (logging_in mock) (logged_in tok) t =
      omega (arith, authorize-IsBalanced props mock (some tok) now t)
  resume-IsBalanced props now p (logged_in tok) t = ground arith
  resume-IsBalanced props now p (authorized tok) t = ground arith
  resume-IsBalanced props now p (recorded hash) t = ground arith
  resume-IsBalanced props now p refused t = ground arith
  resume-IsBalanced props now p elapsed t = ground arith

  -- The continuation that is taken out and the rest await what all of them await.
  abbrev Splits : List Pending → Option (Pending × List Pending) → Type 0
  Splits ps none = Unit
  Splits ps (some (q, qs)) = number (awaited ps) ≡ number (awaited (q ∷ [])) + number (awaited qs)

  behind-Splits :
      (p : Pending) (ps : List Pending) (o : Option (Pending × List Pending))
      → Splits ps o
      → Splits (p ∷ ps) (elim o [ none ↦ none | some (q, qs) ↦ some (q, p ∷ qs) ])
  behind-Splits p ps none h = tt
  behind-Splits p ps (some (q, qs)) h =
      omega (arith, h, number-awaited (p ∷ []) ps, number-awaited (p ∷ []) qs)

  take_out-Splits : (i : ℕ) (ps : List Pending) → Splits ps (take_out i ps)
  unfolding take_out
  take_out-Splits i [] = tt
  take_out-Splits zero (p ∷ ps) = number-awaited (p ∷ []) ps
  take_out-Splits (suc i) (p ∷ ps) = behind-Splits p ps (take_out i ps) (take_out-Splits i ps)

  settle-Inv :
      (props : Props) (now : ℕ) (a : Answer) (m : Machine) (o : Option (Pending × List Pending))
      → Splits m.pending o
      → Inv m
      → Inv (settle_found props now a m o)
  unfolding settle_found settle_pending after
  settle-Inv props now a m none s h = h
  settle-Inv props now a m (some (p, rest)) s h =
      let o = resume props now p a m.terminal in
      omega (
        arith,
        s,
        h,
        resume-IsBalanced props now p a m.terminal,
        number-concat (confirmed p a) m.accepted,
        number-awaited rest o.later,
        number-concat (votes_in o.calls) m.sent,
      )

  quiet-IsBalanced : (t : Terminal) → IsBalanced (done t)
  unfolding votes_in
  quiet-IsBalanced t = omega arith

  clear-IsBalanced : (t : Terminal) → IsBalanced (handle_clear_mock_poll t)
  unfolding handle_clear_mock_poll votes_in
  clear-IsBalanced t = omega arith

  init-Inv : (props : Props) (now : ℕ) (m : Machine) → Inv m → Inv (handle_init props now m)
  unfolding handle_init
  init-Inv props now m h =
      if_holds Inv (truthy? props.token || m.terminal.is_mock_poll)
        (after m (handle_init_session props none now m.terminal)) (record m { show_login = true })
        (after-Inv m (handle_init_session props none now m.terminal)
          (init-IsBalanced props none now m.terminal) h)
        h

  step-Inv : (props : Props) (now : ℕ) (m : Machine) (e : Event) → Inv m → Inv (step props now m e)
  unfolding step handle_login_submit
  step-Inv props now m press_ballot h =
      if_holds Inv (not m.show_login && is_ready m.terminal.state) (handle_init props now m) m
        (init-Inv props now m h) h
  step-Inv props now m cancel_login h = h
  step-Inv props now m (submit_login creds) h =
      if_holds Inv m.show_login
        (after (record m { show_login = false })
          (handle_init_session props (some creds) now m.terminal))
        m
        (after-Inv (record m { show_login = false })
          (handle_init_session props (some creds) now m.terminal)
          (init-IsBalanced props (some creds) now m.terminal) h)
        h
  step-Inv props now m (press_candidate id) h =
      if_holds Inv (selecting m.terminal.state)
        (after m (done (handle_candidate_select id m.terminal))) m
        (after-Inv m (done (handle_candidate_select id m.terminal))
          (quiet-IsBalanced (handle_candidate_select id m.terminal)) h)
        h
  step-Inv props now m press_cancel h =
      if_holds Inv (is_confirmed m.terminal.state) (after m (done (handle_cancel m.terminal))) m
        (after-Inv m (done (handle_cancel m.terminal)) (quiet-IsBalanced (handle_cancel m.terminal))
          h)
        h
  step-Inv props now m (press_cast stamp) h =
      if_holds Inv (is_confirmed m.terminal.state) (after m (handle_confirm props stamp m.terminal))
        m
        (after-Inv m (handle_confirm props stamp m.terminal)
          (confirm-IsBalanced props stamp m.terminal) h)
        h
  step-Inv props now m press_toggle h =
      after-Inv m (done (toggle_diagnostic m.terminal))
        (quiet-IsBalanced (toggle_diagnostic m.terminal)) h
  step-Inv props now m press_clear h =
      if_holds Inv m.terminal.is_mock_poll (after m (handle_clear_mock_poll m.terminal)) m
        (after-Inv m (handle_clear_mock_poll m.terminal) (clear-IsBalanced m.terminal) h) h
  step-Inv props now m (settle i a) h =
      settle-Inv props now a m (take_out i m.pending) (take_out-Splits i m.pending) h

  run-Inv : (props : Props) (m : Machine) (es : List (ℕ × Event)) → Inv m → Inv (run props m es)
  unfolding run
  run-Inv props m [] h = h
  run-Inv props m ((now, e) ∷ es) h =
      run-Inv props (step props now m e) es (step-Inv props now m e h)

-- No ballot is accepted that was not handed over, nor more often than it was: from a terminal without calls
-- under way, whatever is pressed and in whatever order the continuations run, there are at most as many
-- accepted ballots of any kind as there were handed to the backend.
pub run-accepted_le_sent :
    (f : Vote → Bool) (props : Props) (t : Terminal) (es : List (ℕ × Event))
    → let m = run props (opening t) es in length (keep f m.accepted) ≤ length (keep f m.sent)
run-accepted_le_sent f props t es = omega (arith, run-Inv f props (opening t) es (omega arith))
