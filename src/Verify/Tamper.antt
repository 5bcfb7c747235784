-- ===== src/Verify/Tamper.antt =====
-- What the verify page notices of a changed archive, and what it does not.
use secure_vote.Base.{
  ◌≡◌, refl, ◌∙◌, ◌≢◌, ◌↔◌, String, Bool, true, some, List, [], ◌∷◌, arith, all, All, length, ◌≤◌,
}
use secure_vote.Types.Export.{ElectionExportResponse, BallotExportItem, AuditExportItem}
use secure_vote.Verify.{passed, ballots_of, candidates_of, run_verification}
use secure_vote.Verify.Sequences.{sequence_of}
use secure_vote.Verify.Tallies.{listed}
use secure_vote.Verify.Page.{deadbeef, tamper, corrupt_first_ballot}
use secure_vote.Verify.Verdict.{IsAccepted, HasLength64, run_verification-passed_iff}

abbrev with_ballots : ElectionExportResponse → List BallotExportItem → ElectionExportResponse
with_ballots d bs = record d { ballots = some bs }

-- Other ballots are accepted in place of the archive's own if their hashes have the right length,
-- the devices' sequence numbers are the same, and their candidates are listed.
with_ballots-IsAccepted :
    (d : ElectionExportResponse) (bs : List BallotExportItem)
    → IsAccepted d
    → All (λ b. HasLength64 b.ballot_hash) bs
    → ((dev : String) → sequence_of dev bs ≡ sequence_of dev (ballots_of d))
    → all (λ b. listed (candidates_of d) b.candidate_id) bs ≡ true
    → IsAccepted (with_ballots d bs)
with_ballots-IsAccepted d bs a hashes seqs roster = record {
  versioned = a.versioned;
  has_election = a.has_election;
  has_ballots = refl;
  has_audit_log = a.has_audit_log;
  configured = a.configured;
  hashed = hashes;
  replay_safe = λ dev. rw (seqs dev) (a.replay_safe dev);
  on_roster = roster;
  linked = a.linked;
  has_manifest = a.has_manifest;
}

tamper-audit_log :
    (d : ElectionExportResponse) (e f : AuditExportItem) (es : List AuditExportItem)
    → d.audit_log ≡ some (e ∷ f ∷ es)
    → (tamper d).audit_log ≡ some (e ∷ record f { previous_hash = some deadbeef } ∷ es)
unfolding tamper
tamper-audit_log d e f es log = rw (log, tamper)

tamper-ballots :
    (d : ElectionExportResponse) (log : List AuditExportItem) (bs : List BallotExportItem)
    → d.audit_log ≡ some log
    → length log ≤ 1
    → d.ballots ≡ some bs
    → tamper d ≡ with_ballots d (corrupt_first_ballot bs)
unfolding tamper
tamper-ballots d [] bs l h b = ground arith
tamper-ballots d (e ∷ []) bs l h b = ground arith
tamper-ballots d (e ∷ f ∷ es) bs l h b = absurd (omega arith)

-- The demonstration shows a failure: if the archive has at least two audit entries and the first
-- one's hash is not the planted link, then the mutated archive is not accepted.
tamper-rejected :
    (d : ElectionExportResponse) (e f : AuditExportItem) (es : List AuditExportItem)
    → d.audit_log ≡ some (e ∷ f ∷ es)
    → e.entry_hash ≢ deadbeef
    → (run_verification (tamper d)).overall_status ≢ passed
tamper-rejected d e f es log ne h =
    let a = (run_verification-passed_iff (tamper d)).0 h in
    let linked = rw (tamper-audit_log d e f es log) at a.linked in ne (ground (arith, linked.1))

corrupt-hashes :
    (bs : List BallotExportItem)
    → All (λ b. HasLength64 b.ballot_hash) bs
    → All (λ b. HasLength64 b.ballot_hash) (corrupt_first_ballot bs)
unfolding corrupt_first_ballot
corrupt-hashes [] h = tt
corrupt-hashes (b ∷ bs) h = (refl, h.1)

corrupt-sequence_of :
    (dev : String) (bs : List BallotExportItem)
    → sequence_of dev (corrupt_first_ballot bs) ≡ sequence_of dev bs
unfolding corrupt_first_ballot
corrupt-sequence_of dev [] = refl
corrupt-sequence_of dev (b ∷ bs) = refl

corrupt-all :
    (p : String → Bool) (bs : List BallotExportItem)
    → all (λ b. p b.candidate_id) (corrupt_first_ballot bs) ≡ all (λ b. p b.candidate_id) bs
unfolding corrupt_first_ballot
corrupt-all p [] = refl
corrupt-all p (b ∷ bs) = refl

-- The demonstration shows no failure on an archive with fewer than two audit entries: if the page
-- accepts it, then the page accepts its mutated copy, whose first ballot hash is replaced.
tamper-unnoticed :
    (d : ElectionExportResponse) (log : List AuditExportItem) (bs : List BallotExportItem)
    → d.audit_log ≡ some log
    → length log ≤ 1
    → d.ballots ≡ some bs
    → (run_verification d).overall_status ≡ passed
    → (run_verification (tamper d)).overall_status ≡ passed
tamper-unnoticed d log bs l h b ok =
    let a = (run_verification-passed_iff d).0 ok in
    let same : ballots_of d ≡ bs = rw b in
    let accepted =
      with_ballots-IsAccepted d (corrupt_first_ballot bs) a
        (corrupt-hashes bs (rw same at a.hashed)) (λ dev. rw same (corrupt-sequence_of dev bs))
        (corrupt-all (listed (candidates_of d)) bs ∙ rw same at a.on_roster) in
    (run_verification-passed_iff (tamper d)).1 (rw (tamper-ballots d log bs l h b) accepted)

-- If the page accepts an archive in which no audit entry has the planted hash, then it accepts the
-- mutated copy exactly when there is at most one audit entry: only then is nothing but the first
-- ballot's hash replaced, which it does not notice.
pub tamper-passed_iff :
    (d : ElectionExportResponse) (log : List AuditExportItem) (bs : List BallotExportItem)
    → d.audit_log ≡ some log
    → d.ballots ≡ some bs
    → All (λ e. e.entry_hash ≢ deadbeef) log
    → (run_verification d).overall_status ≡ passed
    → ((run_verification (tamper d)).overall_status ≡ passed) ↔ (length log ≤ 1)
tamper-passed_iff d [] bs l b ne ok = (λ _. omega arith, λ le. tamper-unnoticed d [] bs l le b ok)
tamper-passed_iff d (e ∷ []) bs l b ne ok =
    (λ _. omega arith, λ le. tamper-unnoticed d (e ∷ []) bs l le b ok)
tamper-passed_iff d (e ∷ f ∷ es) bs l b ne ok =
    (λ h. absurd (tamper-rejected d e f es l ne.0 h), λ le. absurd (omega (arith, le)))

-- Every ballot's vote moved to the candidate that `g` names.
abbrev pub move_votes : (String → String) → List BallotExportItem → List BallotExportItem
move_votes g [] = []
move_votes g (b ∷ bs) = record b { candidate_id = g b.candidate_id } ∷ move_votes g bs

module _ (g : String → String) where
  move_votes-hashes :
      (bs : List BallotExportItem)
      → All (λ b. HasLength64 b.ballot_hash) bs
      → All (λ b. HasLength64 b.ballot_hash) (move_votes g bs)
  move_votes-hashes [] h = tt
  move_votes-hashes (b ∷ bs) h = (h.0, move_votes-hashes bs h.1)

  move_votes-sequence_of :
      (dev : String) (bs : List BallotExportItem)
      → sequence_of dev (move_votes g bs) ≡ sequence_of dev bs
  move_votes-sequence_of dev [] = refl
  move_votes-sequence_of dev (b ∷ bs) = rw (move_votes-sequence_of dev bs)

  move_votes-all :
      (p : String → Bool)
      → ((k : String) → p k ≡ true → p (g k) ≡ true)
      → (bs : List BallotExportItem) → all (λ b. p b.candidate_id) bs ≡ true
      → all (λ b. p b.candidate_id) (move_votes g bs) ≡ true
  move_votes-all p keep [] h = refl
  move_votes-all p keep (b ∷ bs) h = ground (arith, keep b.candidate_id, move_votes-all p keep bs)

-- Moving votes between listed candidates, with every ballot hash left as it was, is not noticed: the
-- page accepts the archive after it if it accepted it before.
pub move_votes-unnoticed :
    (g : String → String) (d : ElectionExportResponse)
    → ((k : String) → listed (candidates_of d) k ≡ true → listed (candidates_of d) (g k) ≡ true)
    → (run_verification d).overall_status ≡ passed
    → (run_verification (record d { ballots = some (move_votes g (ballots_of d)) })).overall_status
      ≡ passed
move_votes-unnoticed g d keep ok =
    let a = (run_verification-passed_iff d).0 ok in
    (run_verification-passed_iff (with_ballots d (move_votes g (ballots_of d)))).1 (
      with_ballots-IsAccepted d (move_votes g (ballots_of d)) a
        (move_votes-hashes g (ballots_of d) a.hashed)
        (λ dev. move_votes-sequence_of g dev (ballots_of d))
        (move_votes-all g (listed (candidates_of d)) keep (ballots_of d) a.on_roster))
