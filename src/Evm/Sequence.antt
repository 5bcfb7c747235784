-- ===== src/Evm/Sequence.antt =====
-- Accepted ballots and sequence numbers, when diagnostic mode is left alone and a session is asked for
-- only while nothing is pending.
use secure_vote.Base.{
  ℕ, zero, suc, ◌+◌, ◌≡◌, refl, sym, ap, subst, ◌⊎◌, inl, inr, Bool, true, false, List, [], ◌∷◌,
  arith,
}
use secure_vote.Evm.State.{
  EvmState, ready, vote_submitted, vote_complete, Props, Terminal, Vote, Pending, logging_in,
  authorizing, casting, session_failed, vote_rejected, diagnostic_done, vote_done, cleared, Answer,
  logged_in, authorized, recorded,
}
use secure_vote.Evm.Loop.{
  Machine, Event, press_ballot, cancel_login, press_cancel, press_toggle, press_clear, submit_login,
  press_candidate, press_cast, settle, take_out, settle_pending, settle_found, step, run,
}

-- `vs`, newest first, are numbered without a gap from `start` up to below `next`.
abbrev pub IsNumbered : ℕ → ℕ → List Vote → Type 0
IsNumbered start next [] = next ≡ start
IsNumbered start next (v ∷ vs) =
    (next ≡ v.sequence_number + 1) × IsNumbered start v.sequence_number vs

-- The events that the property allows in a machine.
abbrev pub IsOrderly : Machine → Event → Type 0
IsOrderly m press_toggle = ⊥
IsOrderly m press_ballot = m.pending ≡ []
IsOrderly m (submit_login creds) = m.pending ≡ []
IsOrderly m _ = Unit

abbrev pub at_rest : EvmState → Bool
at_rest vote_submitted = false
at_rest vote_complete = false
at_rest _ = true

-- How the state goes with what is pending.
abbrev pub Phase : ℕ → Machine → List Pending → Type 0
Phase start m [] =
    (at_rest m.terminal.state ≡ true) × IsNumbered start m.terminal.sequence_number m.accepted
Phase start m (logging_in mock ∷ []) =
    (m.terminal.state ≡ ready) × IsNumbered start m.terminal.sequence_number m.accepted
Phase start m (authorizing ∷ []) =
    (m.terminal.state ≡ ready) × IsNumbered start m.terminal.sequence_number m.accepted
Phase start m (session_failed ∷ []) =
    (m.terminal.state ≡ ready) × IsNumbered start m.terminal.sequence_number m.accepted
Phase start m (casting v ∷ []) =
    (m.terminal.state ≡ vote_submitted)
    × (v.sequence_number ≡ m.terminal.sequence_number)
    × IsNumbered start m.terminal.sequence_number m.accepted
Phase start m (vote_rejected ∷ []) =
    (m.terminal.state ≡ vote_submitted) × IsNumbered start m.terminal.sequence_number m.accepted
Phase start m (vote_done ∷ []) =
    (m.terminal.state ≡ vote_complete)
    × IsNumbered start (m.terminal.sequence_number + 1) m.accepted
Phase start m _ = ⊥

pub record Inv (start : ℕ) (m : Machine) : Type 0 where
  pub live : m.terminal.is_mock_poll ≡ false
  pub form : m.show_login ≡ true → (m.terminal.state ≡ ready) × (m.pending ≡ [])
  pub phase : Phase start m m.pending

module _ (props : Props) (now : ℕ) (m : Machine) where
  settle_none : (i : ℕ) (a : Answer) → m.pending ≡ [] → step props now m (settle i a) ≡ m
  unfolding step take_out
  settle_none i a e = ap (λ ps. settle_found props now a m (take_out i ps)) e

  settle_zero :
      (p : Pending) (a : Answer)
      → m.pending ≡ p ∷ []
      → step props now m (settle zero a) ≡ settle_pending props now a m (p, [])
  unfolding step take_out
  settle_zero p a e = ap (λ ps. settle_found props now a m (take_out zero ps)) e

  settle_suc :
      (i : ℕ) (p : Pending) (a : Answer)
      → m.pending ≡ p ∷ []
      → step props now m (settle (suc i) a) ≡ m
  unfolding step take_out
  settle_suc i p a e = ap (λ ps. settle_found props now a m (take_out (suc i) ps)) e

module _ (start : ℕ) (props : Props) (now : ℕ) where
  -- Whatever answers the one pending continuation.
  resume-Inv :
      (m : Machine) (p : Pending) (a : Answer)
      → m.pending ≡ p ∷ []
      → Inv start m
      → Inv start (settle_pending props now a m (p, []))
  unfolding settle_pending
  resume-Inv m (logging_in mock) (logged_in tok) e v = ground arith
  resume-Inv m (logging_in mock) a e v = ground arith
  resume-Inv m authorizing (authorized s) e v = ground arith
  resume-Inv m authorizing a e v = ground arith
  resume-Inv m (casting b) (recorded hash) e v = ground arith
  resume-Inv m (casting b) a e v = ground arith
  resume-Inv m session_failed a e v = ground arith
  resume-Inv m vote_rejected a e v = ground arith
  resume-Inv m diagnostic_done a e v = ground arith
  resume-Inv m vote_done a e v = ground arith
  resume-Inv m (cleared mock) a e v = ground arith

  one_pending :
      (m : Machine) (ps : List Pending)
      → Phase start m ps
      → (ps ≡ []) ⊎ ((p : Pending) × (ps ≡ p ∷ []))
  one_pending m [] h = inl refl
  one_pending m (p ∷ []) h = inr (p, refl)
  one_pending m (logging_in mock ∷ q ∷ ps) h = absurd h
  one_pending m (p ∷ q ∷ ps) h = absurd h

  settle_one :
      (P : Machine → Type 0) (m : Machine) (i : ℕ) (p : Pending) (a : Answer)
      → m.pending ≡ p ∷ []
      → P m
      → P (settle_pending props now a m (p, []))
      → P (step props now m (settle i a))
  settle_one P m zero p a e h k = subst P (sym (settle_zero props now m p a e)) k
  settle_one P m (suc i) p a e h k = subst P (sym (settle_suc props now m i p a e)) h

  -- In such a machine, what every answer to the one pending continuation keeps, an answer keeps.
  pub settle_keeps :
      (P : Machine → Type 0) (m : Machine) (i : ℕ) (a : Answer)
      → Inv start m
      → P m
      → ((p : Pending) → m.pending ≡ p ∷ [] → P (settle_pending props now a m (p, [])))
      → P (step props now m (settle i a))
  settle_keeps P m i a v h keeps = elim (one_pending m m.pending v.phase) [
    | inl e ↦ subst P (sym (settle_none props now m i a e)) h
    | inr (p, e) ↦ settle_one P m i p a e h (keeps p e)
  ]

  settle-Inv :
      (m : Machine) (i : ℕ) (a : Answer) → Inv start m → Inv start (step props now m (settle i a))
  settle-Inv m i a v = settle_keeps (Inv start) m i a v v (λ p e. resume-Inv m p a e v)

  pub step-Inv :
      (m : Machine) (e : Event) → IsOrderly m e → Inv start m → Inv start (step props now m e)
  unfolding step
  step-Inv m press_ballot o v = ground arith
  step-Inv m cancel_login o v = ground arith
  step-Inv m press_cancel o v = ground arith
  step-Inv m press_toggle o v = absurd o
  step-Inv m press_clear o v = ground arith
  step-Inv m (submit_login creds) o v = ground arith
  step-Inv m (press_candidate id) o v = ground arith
  step-Inv m (press_cast stamp) o v = ground arith
  step-Inv m (settle i a) o v = settle-Inv m i a v

-- Orderly events, each at its time.
abbrev pub AreOrderly : Props → Machine → List (ℕ × Event) → Type 0
AreOrderly props m [] = Unit
AreOrderly props m ((now, e) ∷ es) = IsOrderly m e × AreOrderly props (step props now m e) es

pub run-Inv :
    (start : ℕ) (props : Props) (m : Machine) (es : List (ℕ × Event))
    → AreOrderly props m es
    → Inv start m
    → Inv start (run props m es)
unfolding run
run-Inv start props m [] o v = v
run-Inv start props m ((now, e) ∷ es) (o, os) v =
    run-Inv start props (step props now m e) es os (step-Inv start props now m e o v)

-- A terminal at which nobody has voted yet.
abbrev pub opening : Terminal → Machine
opening t = record { terminal = t; show_login = false; pending = []; sent = []; accepted = [] }

pub opening-Inv :
    (t : Terminal) → t.state ≡ ready → t.is_mock_poll ≡ false → Inv t.sequence_number (opening t)
opening-Inv t at_ready live = record {
  live = live;
  form = λ q. cc;
  phase = (rw at_ready refl, refl);
}

-- What a run has accepted is numbered up to the next number, or to the one that the slip shows.
IsNumbered-Inv :
    (start : ℕ) (m : Machine) (ps : List Pending)
    → Phase start m ps
    → (IsNumbered start m.terminal.sequence_number m.accepted)
      ⊎ (IsNumbered start (m.terminal.sequence_number + 1) m.accepted)
IsNumbered-Inv start m [] h = inl h.1
IsNumbered-Inv start m (logging_in mock ∷ []) h = inl h.1
IsNumbered-Inv start m (authorizing ∷ []) h = inl h.1
IsNumbered-Inv start m (session_failed ∷ []) h = inl h.1
IsNumbered-Inv start m (casting v ∷ []) h = inl h.2
IsNumbered-Inv start m (vote_rejected ∷ []) h = inl h.1
IsNumbered-Inv start m (vote_done ∷ []) h = inr h.1
IsNumbered-Inv start m (diagnostic_done ∷ []) h = absurd h
IsNumbered-Inv start m (cleared mock ∷ []) h = absurd h
IsNumbered-Inv start m (logging_in mock ∷ q ∷ ps) h = absurd h
IsNumbered-Inv start m (p ∷ q ∷ ps) h = absurd h

-- The sequence numbers of accepted ballots never repeat: from a terminal at READY, outside
-- diagnostic mode, after any events in which diagnostic mode is not switched and a session is asked
-- for only while nothing is pending, the ballots that the backend accepted are numbered
-- consecutively, oldest first, from the terminal's first number on, and the number of the last one
-- is below the terminal's next number or, until the slip is dropped, equal to it.
pub run-IsNumbered :
    (props : Props) (t : Terminal) (es : List (ℕ × Event))
    → t.state ≡ ready
    → t.is_mock_poll ≡ false
    → AreOrderly props (opening t) es
    → let m = run props (opening t) es in
      (IsNumbered t.sequence_number m.terminal.sequence_number m.accepted)
      ⊎ (IsNumbered t.sequence_number (m.terminal.sequence_number + 1) m.accepted)
run-IsNumbered props t es at_ready live orderly =
    let v = run-Inv t.sequence_number props (opening t) es orderly (opening-Inv t at_ready live) in
    let m = run props (opening t) es in IsNumbered-Inv t.sequence_number m m.pending v.phase
