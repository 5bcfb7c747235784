-- ===== src/Verify/Checks.antt =====
-- dashboard/app/(public)/verify/page.tsx: the loops of `runVerificationOnData` over the ballots, the
-- candidates and the audit log.
use secure_vote.Base.{
  ℕ, ◌+◌, String, Bool, true, false, not, ◌||◌, none, some, List, [], ◌∷◌, ◌++◌, leb, ◌==◌,
  if◌then◌else◌, truthy, text_length, ◌===◌, get_or, lookup, insert,
}
use secure_vote.Types.Export.{BallotExportItem, AuditExportItem, CandidateExportItem}

-- `!x.hash || x.hash.length !== 64`
abbrev pub bad_hash : String → Bool
bad_hash h = not (truthy h) || not (text_length h == 64)

-- Checkpoint 3: the loop stops at the first bad hash.
unfoldable pub ballot_hashes_valid : List BallotExportItem → Bool
ballot_hashes_valid [] = true
ballot_hashes_valid (b ∷ bs) = if bad_hash b.ballot_hash then false else ballot_hashes_valid bs

-- Checkpoint 4: `deviceSequences[b.device_id].push(b.sequence_number)` for each ballot.
unfoldable pub push_sequence : List (String × List ℕ) → BallotExportItem → List (String × List ℕ)
push_sequence m b =
    insert b.device_id (get_or (lookup b.device_id m) [] ++ b.sequence_number ∷ []) m

unfoldable pub device_sequences :
    List (String × List ℕ) → List BallotExportItem → List (String × List ℕ)
device_sequences m [] = m
device_sequences m (b ∷ bs) = device_sequences (push_sequence m b) bs

-- The inner loop over one device, from `i = 1`; it stops at the first `seqs[i] <= seqs[i - 1]`.
unfoldable pub monotonic_after : ℕ → List ℕ → Bool
monotonic_after prev [] = true
monotonic_after prev (s ∷ ss) = if leb s prev then false else monotonic_after s ss

unfoldable pub monotonic : List ℕ → Bool
unfolding monotonic_after
monotonic [] = true
monotonic (s ∷ ss) = monotonic_after s ss

-- The outer loop goes on over all devices and keeps `seqValid` false once it is.
unfoldable pub all_monotonic : Bool → List (String × List ℕ) → Bool
all_monotonic valid [] = valid
all_monotonic valid ((dev, seqs) ∷ m) = all_monotonic (if monotonic seqs then valid else false) m

unfoldable pub sequences_valid : List BallotExportItem → Bool
unfolding device_sequences push_sequence all_monotonic monotonic
sequences_valid bs = all_monotonic true (device_sequences [] bs)

-- Checkpoint 5: every candidate starts at 0, and a ballot counts if its candidate has an entry.
unfoldable pub zero_candidates : List (String × ℕ) → List CandidateExportItem → List (String × ℕ)
zero_candidates m [] = m
zero_candidates m (c ∷ cs) = zero_candidates (insert c.id 0 m) cs

unfoldable pub bump_known : String → List (String × ℕ) → List (String × ℕ)
bump_known k m = elim (lookup k m) [ none ↦ m | some n ↦ insert k (n + 1) m ]

unfoldable pub count_candidates : List (String × ℕ) → List BallotExportItem → List (String × ℕ)
unfolding bump_known
count_candidates m [] = m
count_candidates m (b ∷ bs) = count_candidates (bump_known b.candidate_id m) bs

unfoldable pub candidate_recount :
    List CandidateExportItem → List BallotExportItem → List (String × ℕ)
unfolding zero_candidates count_candidates
candidate_recount cs bs = count_candidates (zero_candidates [] cs) bs

-- Checkpoint 6: `deviceRecount[d] = (deviceRecount[d] || 0) + 1`.
unfoldable pub count_devices : List (String × ℕ) → List BallotExportItem → List (String × ℕ)
count_devices m [] = m
count_devices m (b ∷ bs) =
    count_devices (insert b.device_id (get_or (lookup b.device_id m) 0 + 1) m) bs

unfoldable pub device_recount : List BallotExportItem → List (String × ℕ)
unfolding count_devices
device_recount bs = count_devices [] bs

-- Checkpoint 8: the loop from the second entry on, with the entry before it; it stops at the first
-- bad hash or broken link.
abbrev pub links_to : AuditExportItem → AuditExportItem → Bool
links_to prev entry = elim entry.previous_hash [ none ↦ false | some h ↦ h === prev.entry_hash ]

unfoldable pub chain_after : AuditExportItem → List AuditExportItem → Bool
chain_after prev [] = true
chain_after prev (e ∷ es) =
    if bad_hash e.entry_hash then false else if links_to prev e then chain_after e es else false

unfoldable pub audit_chain_valid : List AuditExportItem → Bool
unfolding chain_after
audit_chain_valid [] = true
audit_chain_valid (e ∷ es) = if bad_hash e.entry_hash then false else chain_after e es
