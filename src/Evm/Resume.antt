-- ===== src/Evm/Resume.antt =====
-- dashboard/components/evm/EvmTerminal.tsx: the parts of the handlers behind an `await` or in a
-- `setTimeout`.
use secure_vote.Base.{ℕ, ◌+◌, true, false, none, some, if◌then◌else◌, or_text}
use secure_vote.Evm.State.{
  ready, candidate_selection, vote_complete, Props, Terminal, Pending, logging_in, authorizing,
  casting, session_failed, vote_rejected, diagnostic_done, vote_done, cleared, Answer, logged_in,
  authorized, recorded, refused, elapsed, Outcome, done, waiting,
}
use secure_vote.Evm.Handlers.{authorize}

-- The rest of a handler, with the answer that it waited for. An answer of another kind does not
-- come: it leaves all as it is.
unfoldable pub resume : Props → ℕ → Pending → Answer → Terminal → Outcome
unfolding authorize
resume props now (logging_in mock) (logged_in tok) t = authorize props mock (some tok) now t
resume props now (logging_in mock) refused t =
    waiting (record t { lcd_message = "SESSION FAILED" }) session_failed
resume props now authorizing (authorized s) t = done (record t {
  session_token = some s;
  state = candidate_selection;
  lcd_message = "SELECT CANDIDATE";
})
resume props now authorizing refused t =
    waiting (record t { lcd_message = "SESSION FAILED" }) session_failed
resume props now (casting v) (recorded hash) t =
    waiting
      (record t {
        last_vote_hash = or_text hash "TEST-HASH";
        state = vote_complete;
        lcd_message = "VOTE RECORDED - VVPAT SLIP PRINTED";
        show_vvpat = true;
      })
      vote_done
resume props now (casting v) refused t =
    waiting (record t { lcd_message = "VOTE REJECTED" }) vote_rejected
resume props now session_failed elapsed t =
    done (record t { lcd_message = "READY - AWAITING SESSION" })
resume props now vote_rejected elapsed t =
    done (record t { state = candidate_selection; lcd_message = "SELECT CANDIDATE" })
resume props now diagnostic_done elapsed t = done (record t {
  show_vvpat = false;
  state = ready;
  selected_candidate = none;
  lcd_message = "UI DIAGNOSTIC MODE - READY";
})
resume props now vote_done elapsed t = done (record t {
  show_vvpat = false;
  state = ready;
  session_token = none;
  selected_candidate = none;
  sequence_number = t.sequence_number + 1;
  lcd_message = "READY - AWAITING SESSION";
})
resume props now (cleared mock) elapsed t = done (record t {
  lcd_message = if mock then "UI DIAGNOSTIC MODE - READY" else "READY - AWAITING SESSION";
})
resume props now p _ t = waiting t p
