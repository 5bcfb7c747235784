-- ===== src/Evm/Loop.antt =====
-- The event loop over the terminal and its control panel (dashboard/components/evm/EvmTerminal.tsx
-- and EvmControlPanel.tsx). `sent` and `accepted` record the ballots that were handed to
-- `api.castVote` and those that it confirmed, newest first. The token does not change meanwhile.
use secure_vote.Base.{
  ℕ, zero, suc, String, Bool, true, false, not, ◌&&◌, ◌||◌, Option, none, some, List, [], ◌∷◌, ◌++◌,
  if◌then◌else◌, truthy?,
}
use secure_vote.Evm.State.{
  Props, Terminal, Vote, Creds, Call, cast_vote, Pending, casting, Answer, recorded, Outcome, done,
}
use secure_vote.Evm.Handlers.{
  handle_init_session, selecting, is_confirmed, is_ready, handle_candidate_select, handle_cancel,
  handle_confirm, toggle_diagnostic, handle_clear_mock_poll,
}
use secure_vote.Evm.Resume.{resume}

pub record Machine : Type 0 where
  pub terminal : Terminal
  pub show_login : Bool
  pub pending : List Pending
  pub sent : List Vote
  pub accepted : List Vote

-- `settle i a` answers the `i`-th pending continuation; the other events are clicks.
pub data Event : Type 0 where
  press_ballot cancel_login press_cancel press_toggle press_clear : Event
  submit_login : Creds → Event
  press_candidate press_cast : String → Event
  settle : ℕ → Answer → Event

unfoldable pub votes_in : List Call → List Vote
votes_in [] = []
votes_in (cast_vote v ∷ cs) = v ∷ votes_in cs
votes_in (_ ∷ cs) = votes_in cs

-- The machine after a handler.
unfoldable pub after : Machine → Outcome → Machine
unfolding votes_in
after m o = record m {
  terminal = o.terminal;
  pending = m.pending ++ o.later;
  sent = votes_in o.calls ++ m.sent;
}

-- `handleInit` of the control panel; its button is shown while the login form is not.
unfoldable pub handle_init : Props → ℕ → Machine → Machine
unfolding after handle_init_session
handle_init props now m =
    if truthy? props.token || m.terminal.is_mock_poll
    then after m (handle_init_session props none now m.terminal)
    else record m { show_login = true }

unfoldable pub handle_login_submit : Props → Creds → ℕ → Machine → Machine
unfolding after handle_init_session
handle_login_submit props creds now m =
    after (record m { show_login = false }) (handle_init_session props (some creds) now m.terminal)

-- The continuation at a position, and the others.
unfoldable pub take_out : ℕ → List Pending → Option (Pending × List Pending)
take_out i [] = none
take_out zero (p ∷ ps) = some (p, ps)
take_out (suc i) (p ∷ ps) = elim (take_out i ps) [ none ↦ none | some (q, qs) ↦ some (q, p ∷ qs) ]

-- The ballot that an answer confirms.
abbrev pub confirmed : Pending → Answer → List Vote
confirmed (casting v) (recorded hash) = v ∷ []
confirmed _ _ = []

unfoldable pub settle_pending : Props → ℕ → Answer → Machine → Pending × List Pending → Machine
unfolding after resume
settle_pending props now a m (p, rest) =
    after (record m { pending = rest; accepted = confirmed p a ++ m.accepted })
      (resume props now p a m.terminal)

unfoldable pub settle_found :
    Props → ℕ → Answer → Machine → Option (Pending × List Pending) → Machine
unfolding settle_pending
settle_found props now a m none = m
settle_found props now a m (some chosen) = settle_pending props now a m chosen

unfoldable pub step : Props → ℕ → Machine → Event → Machine
unfolding handle_init handle_login_submit settle_found take_out handle_candidate_select
    handle_cancel handle_confirm toggle_diagnostic handle_clear_mock_poll
step props now m press_ballot =
    if not m.show_login && is_ready m.terminal.state then handle_init props now m else m
step props now m cancel_login = record m { show_login = false }
step props now m (submit_login creds) =
    if m.show_login then handle_login_submit props creds now m else m
step props now m (press_candidate id) =
    if selecting m.terminal.state then after m (done (handle_candidate_select id m.terminal)) else m
step props now m press_cancel =
    if is_confirmed m.terminal.state then after m (done (handle_cancel m.terminal)) else m
step props now m (press_cast stamp) =
    if is_confirmed m.terminal.state then after m (handle_confirm props stamp m.terminal) else m
step props now m press_toggle = after m (done (toggle_diagnostic m.terminal))
step props now m press_clear =
    if m.terminal.is_mock_poll then after m (handle_clear_mock_poll m.terminal) else m
step props now m (settle i a) = settle_found props now a m (take_out i m.pending)

-- Events one after another, each with its time.
unfoldable pub run : Props → Machine → List (ℕ × Event) → Machine
unfolding step
run props m [] = m
run props m ((now, e) ∷ es) = run props (step props now m e) es
