-- ===== src/Evm/Handlers.antt =====
-- dashboard/components/evm/EvmTerminal.tsx: the handlers up to their first `await` or `setTimeout`.
use secure_vote.Base.{
  ℕ, ◌+◌, String, Bool, true, false, not, Option, none, some, [], ◌∷◌, if◌then◌else◌, truthy,
  truthy?, or_text, ◌<>◌, get_or, lookup, insert, decimal,
}
use secure_vote.Evm.State.{
  EvmState, ready, candidate_selection, vote_confirmed, vote_submitted, vote_complete, Props,
  Terminal, Vote, Creds, login, authorize_session, cast_vote, logging_in, authorizing, casting,
  diagnostic_done, cleared, Outcome, done, waiting,
}

-- `handleInitSession` once `currentToken` is known; `now` is `Date.now()`, and `mock` is the value of
-- `isMockPoll` when the handler was called.
unfoldable pub authorize : Props → Bool → Option String → ℕ → Terminal → Outcome
authorize props mock current now t =
    if truthy? current
    then record {
      terminal = record t { lcd_message = "AUTHORIZING SESSION..." };
      later = authorizing ∷ [];
      calls =
          authorize_session ("VOTER-EVM-" <> decimal now) props.device_id (or_text current "") ∷ [];
    }
    else if mock
    then done (record t { state = candidate_selection; lcd_message = "SELECT CANDIDATE" })
    else done (record t { lcd_message = "OFFICER LOGIN REQUIRED" })

unfoldable pub handle_init_session : Props → Option Creds → ℕ → Terminal → Outcome
unfolding authorize
handle_init_session props none now t = authorize props t.is_mock_poll props.token now t
handle_init_session props (some creds) now t =
    if truthy? props.token then authorize props t.is_mock_poll props.token now t else record {
      terminal = record t { lcd_message = "AUTHENTICATING..." };
      later = logging_in t.is_mock_poll ∷ [];
      calls = login creds ∷ [];
    }

abbrev pub selecting : EvmState → Bool
selecting candidate_selection = true
selecting vote_confirmed = true
selecting _ = false

abbrev pub is_confirmed : EvmState → Bool
is_confirmed vote_confirmed = true
is_confirmed _ = false

abbrev pub is_ready : EvmState → Bool
is_ready ready = true
is_ready _ = false

unfoldable pub handle_candidate_select : String → Terminal → Terminal
handle_candidate_select id t =
    if selecting t.state
    then record t {
      selected_candidate = some id;
      state = vote_confirmed;
      lcd_message = "CANDIDATE SELECTED";
    }
    else t

unfoldable pub handle_cancel : Terminal → Terminal
handle_cancel t =
    if is_confirmed t.state
    then record t {
      selected_candidate = none;
      state = candidate_selection;
      lcd_message = "SELECT CANDIDATE";
    }
    else t

-- `handleConfirm` in diagnostic mode. `stamp` is the time in upper-case hexadecimal.
confirm_diagnostic : String → String → Terminal → Outcome
confirm_diagnostic c stamp t =
    waiting
      (record t {
        state = vote_complete;
        lcd_message = "UI DIAGNOSTIC — LOCAL ONLY (NO BACKEND)";
        mock_votes = insert c (get_or (lookup c t.mock_votes) 0 + 1) t.mock_votes;
        last_vote_hash = "DIAG-SLIP-" <> stamp;
        show_vvpat = true;
      })
      diagnostic_done

confirm_vote : Props → String → Option String → Terminal → Outcome
confirm_vote props c none t = done t
confirm_vote props c (some s) t =
    let vote : Vote = record {
      session_token = s;
      candidate_id = c;
      device_id = props.device_id;
      sequence_number = t.sequence_number;
    } in
    if truthy s
    then record {
      terminal = record t { state = vote_submitted; lcd_message = "RECORDING VOTE..." };
      later = casting vote ∷ [];
      calls = cast_vote vote ∷ [];
    }
    else done t

confirm_candidate : Props → String → Option String → Terminal → Outcome
unfolding confirm_diagnostic confirm_vote
confirm_candidate props stamp none t = done t
confirm_candidate props stamp (some c) t =
    if truthy c
    then if t.is_mock_poll
      then confirm_diagnostic c stamp t
      else confirm_vote props c t.session_token t
    else done t

unfoldable pub handle_confirm : Props → String → Terminal → Outcome
unfolding confirm_candidate
handle_confirm props stamp t =
    if is_confirmed t.state then confirm_candidate props stamp t.selected_candidate t else done t

-- The button that switches diagnostic mode.
unfoldable pub toggle_diagnostic : Terminal → Terminal
toggle_diagnostic t = record t {
  is_mock_poll = not t.is_mock_poll;
  state = ready;
  selected_candidate = none;
  lcd_message = if t.is_mock_poll then "READY - AWAITING SESSION" else "UI DIAGNOSTIC MODE - READY";
}

unfoldable pub handle_clear_mock_poll : Terminal → Outcome
handle_clear_mock_poll t =
    waiting
      (record t {
        mock_votes = [];
        mock_cleared = true;
        lcd_message = "UI DIAGNOSTIC MODE - DATA CLEARED";
      })
      (cleared t.is_mock_poll)
