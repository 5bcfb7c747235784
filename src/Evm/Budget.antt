-- ===== src/Evm/Budget.antt =====
-- dashboard/components/evm/EvmTerminal.tsx: how many ballots the handlers and the continuations leave to
-- come.
use secure_vote.Base.{
  if_holds, ℕ, zero, suc, ◌+◌, ◌≤◌, ◌≡◌, refl, String, Bool, true, false, Option, none, some, List,
  [], ◌∷◌, arith, length, length-append, truthy?, sum_by, sum_by-append, if◌then◌else◌,
}
use secure_vote.Evm.State.{
  EvmState, Props, Terminal, Pending, casting, logging_in, vote_rejected, Answer, logged_in,
  authorized, recorded, refused, elapsed, Outcome, done, Creds,
}
use secure_vote.Evm.Handlers.{
  handle_clear_mock_poll, authorize, handle_init_session, handle_confirm, selecting,
  handle_candidate_select, handle_cancel,
}
use secure_vote.Evm.Resume.{resume}
use secure_vote.Evm.Loop.{Machine, after, take_out, confirmed, settle_pending, settle_found}

-- The ballots that a continuation can still bring to be accepted.
abbrev pub weight : Pending → ℕ
weight (casting v) = 1
weight vote_rejected = 1
weight _ = 0

-- The logins for diagnostic mode that are under way.
abbrev pub diagnostic : Pending → ℕ
diagnostic (logging_in true) = 1
diagnostic _ = 0

-- The ballots that can be cast before the next session.
abbrev pub to_cast : EvmState → ℕ
to_cast s = if selecting s then 1 else 0

-- The sessions that an answer authorizes.
abbrev pub grants : Answer → ℕ
grants (authorized s) = 1
grants _ = 0

-- A handler outside diagnostic mode leaves at most so many ballots to come.
pub record Leaves (n : ℕ) (o : Outcome) : Type 0 where
  live : o.terminal.is_mock_poll ≡ false
  no_login : sum_by diagnostic o.later ≡ 0
  bounded : sum_by weight o.later + to_cast o.terminal.state ≤ n

pub record Inv (n : ℕ) (m : Machine) : Type 0 where
  pub live : m.terminal.is_mock_poll ≡ false
  pub no_login : sum_by diagnostic m.pending ≡ 0
  pub bounded : length m.accepted + (sum_by weight m.pending + to_cast m.terminal.state) ≤ n

pub after-Inv :
    (n : ℕ) (m : Machine) (o : Outcome)
    → Leaves (to_cast m.terminal.state) o
    → Inv n m
    → Inv n (after m o)
unfolding after
after-Inv n m o l h = record {
  live = l.live;
  no_login = omega (arith, h.no_login, l.no_login, sum_by-append diagnostic m.pending o.later);
  bounded = omega (arith, h.bounded, l.bounded, sum_by-append weight m.pending o.later);
}

authorize-Leaves :
    (props : Props) (mock : Bool) (current : Option String) (now : ℕ) (t : Terminal)
    → mock ≡ false
    → t.is_mock_poll ≡ false
    → Leaves (to_cast t.state) (authorize props mock current now t)
unfolding authorize
authorize-Leaves props mock current now t off live = record {
  live = ground arith;
  no_login = ground arith;
  bounded = ground arith;
}

pub init-Leaves :
    (props : Props) (creds : Option Creds) (now : ℕ) (t : Terminal)
    → t.is_mock_poll ≡ false
    → Leaves (to_cast t.state) (handle_init_session props creds now t)
unfolding handle_init_session
init-Leaves props none now t live =
    authorize-Leaves props t.is_mock_poll props.token now t live live
init-Leaves props (some c) now t live =
    if_holds (Leaves (to_cast t.state)) (truthy? props.token)
      (authorize props t.is_mock_poll props.token now t) _
      (authorize-Leaves props t.is_mock_poll props.token now t live live)
      (record { live = live; no_login = rw live refl; bounded = omega arith })

pub confirm-Leaves :
    (props : Props) (stamp : String) (t : Terminal)
    → t.is_mock_poll ≡ false
    → Leaves (to_cast t.state) (handle_confirm props stamp t)
unfolding handle_confirm
confirm-Leaves props stamp t live = record {
  live = ground arith;
  no_login = ground arith;
  bounded = ground arith;
}

pub select-Leaves :
    (id : String) (t : Terminal)
    → t.is_mock_poll ≡ false
    → Leaves (to_cast t.state) (done (handle_candidate_select id t))
unfolding handle_candidate_select
select-Leaves id t live = record { live = ground arith; no_login = refl; bounded = ground arith }

pub cancel-Leaves :
    (t : Terminal) → t.is_mock_poll ≡ false → Leaves (to_cast t.state) (done (handle_cancel t))
unfolding handle_cancel
cancel-Leaves t live = record { live = ground arith; no_login = refl; bounded = ground arith }

pub clear-Leaves :
    (t : Terminal) → t.is_mock_poll ≡ false → Leaves (to_cast t.state) (handle_clear_mock_poll t)
unfolding handle_clear_mock_poll
clear-Leaves t live = record { live = live; no_login = refl; bounded = omega arith }

-- A ballot that is accepted was among those to come, and so is one that is still to come, unless the
-- answer authorizes a session.
record Resumes (p : Pending) (a : Answer) (t : Terminal) (o : Outcome) : Type 0 where
  live : o.terminal.is_mock_poll ≡ false
  no_login : sum_by diagnostic o.later ≡ 0
  bounded :
      length (confirmed p a) + (sum_by weight o.later + to_cast o.terminal.state)
      ≤ weight p + to_cast t.state + grants a

resume-Resumes :
    (props : Props) (now : ℕ) (p : Pending) (a : Answer) (t : Terminal)
    → t.is_mock_poll ≡ false
    → diagnostic p ≡ 0
    → Resumes p a t (resume props now p a t)
unfolding resume
resume-Resumes props now (logging_in false) (logged_in tok) t live quiet =
    let l = authorize-Leaves props false (some tok) now t refl live in
    record { live = l.live; no_login = l.no_login; bounded = omega (arith, l.bounded) }
resume-Resumes props now (logging_in true) a t live quiet = absurd (omega (arith, quiet))
resume-Resumes props now p (logged_in tok) t live quiet = record {
  live = ground arith;
  no_login = ground arith;
  bounded = ground arith;
}
resume-Resumes props now p (authorized tok) t live quiet = record {
  live = ground arith;
  no_login = ground arith;
  bounded = ground arith;
}
resume-Resumes props now p (recorded hash) t live quiet = record {
  live = ground arith;
  no_login = ground arith;
  bounded = ground arith;
}
resume-Resumes props now p refused t live quiet = record {
  live = ground arith;
  no_login = ground arith;
  bounded = ground arith;
}
resume-Resumes props now p elapsed t live quiet = record {
  live = ground arith;
  no_login = ground arith;
  bounded = ground arith;
}

-- The continuation that is taken out and the rest make up all of them.
abbrev pub Splits : (Pending → ℕ) → List Pending → Option (Pending × List Pending) → Type 0
Splits f ps none = Unit
Splits f ps (some (q, qs)) = sum_by f ps ≡ f q + sum_by f qs

behind-Splits :
    (f : Pending → ℕ) (p : Pending) (ps : List Pending) (o : Option (Pending × List Pending))
    → Splits f ps o
    → Splits f (p ∷ ps) (elim o [ none ↦ none | some (q, qs) ↦ some (q, p ∷ qs) ])
behind-Splits f p ps none h = tt
behind-Splits f p ps (some (q, qs)) h = omega (arith, h)

pub take_out-Splits : (f : Pending → ℕ) (i : ℕ) (ps : List Pending) → Splits f ps (take_out i ps)
unfolding take_out
take_out-Splits f i [] = tt
take_out-Splits f zero (p ∷ ps) = refl
take_out-Splits f (suc i) (p ∷ ps) = behind-Splits f p ps (take_out i ps) (take_out-Splits f i ps)

pub settle-Inv :
    (n : ℕ) (props : Props) (now : ℕ) (a : Answer) (m : Machine)
    (o : Option (Pending × List Pending))
    → Splits weight m.pending o
    → Splits diagnostic m.pending o
    → Inv n m
    → Inv (grants a + n) (settle_found props now a m o)
unfolding settle_found settle_pending after
settle-Inv n props now a m none s d h = record {
  live = h.live;
  no_login = h.no_login;
  bounded = omega (arith, h.bounded);
}
settle-Inv n props now a m (some (p, rest)) s d h =
    let o = resume props now p a m.terminal in
    let r = resume-Resumes props now p a m.terminal h.live (omega (arith, d, h.no_login)) in
    record {
      live = r.live;
      no_login = omega (arith, d, h.no_login, r.no_login, sum_by-append diagnostic rest o.later);
      bounded = omega (
        arith,
        s,
        h.bounded,
        r.bounded,
        sum_by-append weight rest o.later,
        length-append (confirmed p a) m.accepted,
      );
    }
