-- ===== src/Evm/Archive.antt =====
-- dashboard/components/evm/EvmTerminal.tsx and dashboard/app/(public)/verify/page.tsx: what the replay
-- check of the public verifier says of an archive with the ballots of terminals.
use secure_vote.Base.{ℕ, ◌<◌, ◌≡◌, inl, inr, String, true, false, List, [], ◌∷◌, ◌++◌, All, arith}
use secure_vote.Types.Export.{BallotExportItem}
use secure_vote.Verify.Checks.{sequences_valid}
use secure_vote.Verify.Sequences.{sequence_of, IsIncreasing, sequences_valid_iff}
use secure_vote.Evm.State.{Props, Terminal, Vote, ready}
use secure_vote.Evm.Loop.{Event, run}
use secure_vote.Evm.Sequence.{IsNumbered, AreOrderly, opening, run-IsNumbered}

-- The sequence numbers of ballots that are listed newest first, oldest first.
abbrev pub numbers : List Vote → List ℕ
numbers [] = []
numbers (v ∷ vs) = numbers vs ++ v.sequence_number ∷ []

All-below_concat :
    (n s : ℕ) (ss : List ℕ) → s < n → All (λ u. u < s) ss → All (λ u. u < n) (ss ++ s ∷ [])
All-below_concat n s [] h k = (h, tt)
All-below_concat n s (u ∷ ss) h (p, k) = (omega arith, All-below_concat n s ss h k)

All-concat : (s t : ℕ) (ss : List ℕ) → t < s → All (λ u. t < u) ss → All (λ u. t < u) (ss ++ s ∷ [])
All-concat s t [] h k = (h, tt)
All-concat s t (u ∷ ss) h (p, k) = (p, All-concat s t ss h k)

IsIncreasing-concat :
    (s : ℕ) (ss : List ℕ) → IsIncreasing ss → All (λ u. u < s) ss → IsIncreasing (ss ++ s ∷ [])
IsIncreasing-concat s [] h k = (tt, tt)
IsIncreasing-concat s (u ∷ ss) (p, h) (q, k) = (All-concat s u ss q p, IsIncreasing-concat s ss h k)

numbers-below :
    (start next : ℕ) (vs : List Vote) → IsNumbered start next vs → All (λ u. u < next) (numbers vs)
numbers-below start next [] h = tt
numbers-below start next (v ∷ vs) (e, h) =
    All-below_concat next v.sequence_number (numbers vs) (omega arith)
      (numbers-below start v.sequence_number vs h)

numbers-IsIncreasing :
    (start next : ℕ) (vs : List Vote) → IsNumbered start next vs → IsIncreasing (numbers vs)
numbers-IsIncreasing start next [] h = tt
numbers-IsIncreasing start next (v ∷ vs) (e, h) =
    IsIncreasing-concat v.sequence_number (numbers vs)
      (numbers-IsIncreasing start v.sequence_number vs h)
      (numbers-below start v.sequence_number vs h)

-- A terminal for a device, opened at READY outside diagnostic mode, and an orderly run of it.
pub record OrderlyRun (dev : String) : Type 0 where
  pub props : Props
  pub terminal : Terminal
  pub events : List (ℕ × Event)
  pub for_device : props.device_id ≡ dev
  pub at_ready : terminal.state ≡ ready
  pub live : terminal.is_mock_poll ≡ false
  pub orderly : AreOrderly props (opening terminal) events

-- The numbers of the ballots that the backend accepted in the run.
abbrev pub numbers_of : {dev : String} → OrderlyRun dev → List ℕ
numbers_of r = numbers (run r.props (opening r.terminal) r.events).accepted

numbers_of-IsIncreasing : (dev : String) (r : OrderlyRun dev) → IsIncreasing (numbers_of r)
numbers_of-IsIncreasing dev r =
    elim (run-IsNumbered r.props r.terminal r.events r.at_ready r.live r.orderly) [
      | inl h ↦ numbers-IsIncreasing _ _ _ h
      | inr h ↦ numbers-IsIncreasing _ _ _ h
    ]

-- Orderly terminals pass the public verification of replays: an archive in which, for every device, the
-- sequence numbers are those of the ballots that an orderly run of a terminal had accepted, in their
-- order and among the ballots of other devices in whatever way, passes checkpoint 4.
pub archive-sequences_valid :
    (bs : List BallotExportItem) (runs : (dev : String) → OrderlyRun dev)
    → ((dev : String) → sequence_of dev bs ≡ numbers_of (runs dev))
    → sequences_valid bs ≡ true
archive-sequences_valid bs runs recorded =
    (sequences_valid_iff bs).1 (λ dev. rw (recorded dev) (numbers_of-IsIncreasing dev (runs dev)))
