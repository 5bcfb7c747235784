-- ===== src/Verify/Sequences.antt =====
-- What checkpoint 4 of the verify page decides.
use secure_vote.Base.{
  All, ◌∙◌, ℕ, ◌<◌, ◌≡◌, refl, ◌↔◌, inl, inr, String, Bool, true, false, ◌&&◌, Option, none, some,
  List, [], ◌∷◌, ◌++◌, arith, ltb, if◌then◌else◌, ◌===◌, eq_iff, eq_refl, lookup, insert,
  lookup-insert, get_or, last, last-concat, Bool-cases, and_assoc,
}
use secure_vote.Types.Export.{BallotExportItem}
use secure_vote.Verify.Checks.{
  push_sequence, device_sequences, monotonic_after, monotonic, all_monotonic, sequences_valid,
}

-- `s` may follow the sequence numbers whose last one is `prev`.
abbrev pub follows : Option ℕ → ℕ → Bool
follows none s = true
follows (some prev) s = ltb prev s

monotonic_after-concat :
    (prev : ℕ) (ss : List ℕ) (s : ℕ)
    → monotonic_after prev (ss ++ s ∷ [])
      ≡ (monotonic_after prev ss && follows (last (prev ∷ ss)) s)
unfolding monotonic_after
monotonic_after-concat prev [] s = ground arith
monotonic_after-concat prev (t ∷ ss) s = ground (arith, monotonic_after-concat t ss s)

monotonic-concat :
    (ss : List ℕ) (s : ℕ) → monotonic (ss ++ s ∷ []) ≡ (monotonic ss && follows (last ss) s)
unfolding monotonic monotonic_after
monotonic-concat [] s = refl
monotonic-concat (t ∷ ss) s = monotonic_after-concat t ss s

all_monotonic-and :
    (v : Bool) (m : List (String × List ℕ)) → all_monotonic v m ≡ (v && all_monotonic true m)
unfolding all_monotonic
all_monotonic-and true [] = refl
all_monotonic-and false [] = refl
all_monotonic-and v ((dev, ss) ∷ m) = ground (
  arith,
  all_monotonic-and (if monotonic ss then v else false) m,
  all_monotonic-and (if monotonic ss then true else false) m,
)

-- Writing one device's longer list adds one test.
all_monotonic-insert :
    (dev : String) (s : ℕ) (xs : List ℕ) (m : List (String × List ℕ))
    → get_or (lookup dev m) [] ≡ xs
    → all_monotonic true (insert dev (xs ++ s ∷ []) m)
      ≡ (all_monotonic true m && follows (last xs) s)
unfolding insert lookup all_monotonic
all_monotonic-insert dev s xs [] e = rw (← e) (unfold monotonic monotonic_after in refl)
all_monotonic-insert dev s xs ((d, ss) ∷ m) e = ground (
  arith,
  monotonic-concat ss s,
  all_monotonic-insert dev s xs m,
  all_monotonic-and (if monotonic (ss ++ s ∷ []) then true else false) m,
  all_monotonic-and (if monotonic ss then true else false) (insert dev (xs ++ s ∷ []) m),
  all_monotonic-and (if monotonic ss then true else false) m,
)

-- The last sequence number of each device, once ballot `b` is read.
abbrev pub after_ballot : (String → Option ℕ) → BallotExportItem → String → Option ℕ
after_ballot seen b dev = if b.device_id === dev then some b.sequence_number else seen dev

-- Both verifiers in one pass: each ballot's number exceeds the last one of its device.
abbrev pub replay_free : (String → Option ℕ) → List BallotExportItem → Bool
replay_free seen [] = true
replay_free seen (b ∷ bs) =
    follows (seen b.device_id) b.sequence_number && replay_free (after_ballot seen b) bs

last-push_sequence :
    (m : List (String × List ℕ)) (b : BallotExportItem) (dev : String)
    → last (get_or (lookup dev (push_sequence m b)) [])
      ≡ after_ballot (λ d. last (get_or (lookup d m) [])) b dev
unfolding push_sequence
last-push_sequence m b dev =
    rw
      (lookup-insert b.device_id dev (get_or (lookup b.device_id m) [] ++ b.sequence_number ∷ []) m)
      (ground (arith, last-concat (get_or (lookup b.device_id m) []) b.sequence_number))

all_monotonic-push_sequence :
    (m : List (String × List ℕ)) (b : BallotExportItem)
    → all_monotonic true (push_sequence m b) ≡ (
        all_monotonic true m && follows (last (get_or (lookup b.device_id m) [])) b.sequence_number)
unfolding push_sequence
all_monotonic-push_sequence m b =
    all_monotonic-insert b.device_id b.sequence_number (get_or (lookup b.device_id m) []) m refl

device_sequences-replay_free :
    (m : List (String × List ℕ)) (seen : String → Option ℕ)
    → ((dev : String) → last (get_or (lookup dev m) []) ≡ seen dev)
    → (bs : List BallotExportItem)
    → all_monotonic true (device_sequences m bs) ≡ (all_monotonic true m && replay_free seen bs)
unfolding device_sequences
device_sequences-replay_free m seen h [] = ground arith
device_sequences-replay_free m seen h (b ∷ bs) =
    rw
      (
        device_sequences-replay_free (push_sequence m b) (after_ballot seen b)
            (λ dev. last-push_sequence m b dev ∙ ground (arith, h dev)) bs,
        all_monotonic-push_sequence m b,
        h b.device_id,
      )
      (and_assoc (all_monotonic true m) _ _)

-- Checkpoint 4 is the single pass.
pub sequences_valid-replay_free :
    (bs : List BallotExportItem) → sequences_valid bs ≡ replay_free (λ _. none) bs
unfolding sequences_valid
sequences_valid-replay_free bs =
    device_sequences-replay_free [] (λ _. none) (λ dev. unfold lookup in refl) bs

-- The sequence numbers of one device, in the order of the ballots.
abbrev pub sequence_of : String → List BallotExportItem → List ℕ
sequence_of dev [] = []
sequence_of dev (b ∷ bs) =
    if b.device_id === dev then b.sequence_number ∷ sequence_of dev bs else sequence_of dev bs

-- Each number is below every later one.
abbrev pub IsIncreasing : List ℕ → Type 0
IsIncreasing [] = Unit
IsIncreasing (s ∷ ss) = All (λ t. s < t) ss × IsIncreasing ss

abbrev IncreasesFrom : Option ℕ → List ℕ → Type 0
IncreasesFrom none ss = IsIncreasing ss
IncreasesFrom (some prev) ss = All (λ t. prev < t) ss × IsIncreasing ss

All-lt_mono : (s t : ℕ) (ss : List ℕ) → s < t → All (λ u. t < u) ss → All (λ u. s < u) ss
All-lt_mono s t [] h k = tt
All-lt_mono s t (u ∷ ss) h (p, k) = (omega arith, All-lt_mono s t ss h k)

IncreasesFrom-cons :
    (prev : Option ℕ) (s : ℕ) (ss : List ℕ)
    → follows prev s ≡ true
    → IncreasesFrom (some s) ss
    → IncreasesFrom prev (s ∷ ss)
IncreasesFrom-cons none s ss f h = h
IncreasesFrom-cons (some p) s ss f h =
    let lt : p < s = ground arith in ((lt, All-lt_mono p s ss lt h.0), h)

IncreasesFrom-follows :
    (prev : Option ℕ) (s : ℕ) (ss : List ℕ) → IncreasesFrom prev (s ∷ ss) → follows prev s ≡ true
IncreasesFrom-follows none s ss h = refl
IncreasesFrom-follows (some p) s ss h = ground arith

IncreasesFrom-tail :
    (prev : Option ℕ) (s : ℕ) (ss : List ℕ)
    → IncreasesFrom prev (s ∷ ss)
    → IncreasesFrom (some s) ss
IncreasesFrom-tail none s ss h = h
IncreasesFrom-tail (some p) s ss h = h.1

replay_free_sound :
    (seen : String → Option ℕ) (bs : List BallotExportItem)
    → replay_free seen bs ≡ true
    → (dev : String) → IncreasesFrom (seen dev) (sequence_of dev bs)
replay_free_sound seen [] h dev = elim (seen dev) as (λ o. IncreasesFrom o []) [
  | none ↦ tt
  | some p ↦ (tt, tt)
]
replay_free_sound seen (b ∷ bs) h dev =
    let rest = replay_free_sound (after_ballot seen b) bs (ground arith) dev in
    elim (Bool-cases (b.device_id === dev)) [
      | inl same ↦
          let first : follows (seen dev) b.sequence_number ≡ true =
            ground (arith, eq_iff b.device_id dev) in
          rw same (
            IncreasesFrom-cons (seen dev) b.sequence_number (sequence_of dev bs) first
              (rw same at rest))
      | inr other ↦ rw other (rw other at rest)
    ]

replay_free_complete :
    (seen : String → Option ℕ) (bs : List BallotExportItem)
    → ((dev : String) → IncreasesFrom (seen dev) (sequence_of dev bs))
    → replay_free seen bs ≡ true
replay_free_complete seen [] h = refl
replay_free_complete seen (b ∷ bs) h =
    let own = rw (eq_refl b.device_id) at (h b.device_id) in
    let here =
      IncreasesFrom-follows (seen b.device_id) b.sequence_number (sequence_of b.device_id bs) own in
    let later : (dev : String) → IncreasesFrom (after_ballot seen b dev) (sequence_of dev bs) =
      λ dev. elim (Bool-cases (b.device_id === dev)) [
        | inl same ↦ rw same (
            IncreasesFrom-tail (seen dev) b.sequence_number (sequence_of dev bs)
              (rw same at (h dev)))
        | inr other ↦ rw other (rw other at (h dev))
      ] in
    rw here (replay_free_complete (after_ballot seen b) bs later)

-- Checkpoint 4 passes exactly when, for every device, the sequence numbers of its ballots are
-- strictly increasing in the order of the archive: each is below every later one.
pub sequences_valid_iff :
    (bs : List BallotExportItem)
    → (sequences_valid bs ≡ true) ↔ ((dev : String) → IsIncreasing (sequence_of dev bs))
sequences_valid_iff bs = (
  λ h. replay_free_sound (λ _. none) bs (rw (sequences_valid-replay_free bs) at h),
  λ h. rw (sequences_valid-replay_free bs) (replay_free_complete (λ _. none) bs h),
)
