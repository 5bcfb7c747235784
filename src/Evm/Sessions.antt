-- ===== src/Evm/Sessions.antt =====
-- dashboard/components/evm/EvmTerminal.tsx: the ballots that are accepted and the sessions that were
-- authorized, in whatever order the continuations run.
use secure_vote.Base.{ℕ, ◌+◌, List, [], ◌∷◌}
use secure_vote.Evm.Loop.{Event, press_toggle, settle}
use secure_vote.Evm.Budget.{grants}

-- The answers that authorize a session.
abbrev pub grants_in : List (ℕ × Event) → ℕ
grants_in [] = 0
grants_in ((now, settle i a) ∷ es) = grants a + grants_in es
grants_in ((now, _) ∷ es) = grants_in es

-- The event does not switch diagnostic mode.
abbrev pub KeepsMode : ℕ × Event → Type 0
KeepsMode (now, press_toggle) = ⊥
KeepsMode _ = Unit
