-- ===== src/Verify/Verdict.antt =====
-- The verdict of the verify page, and what its tamper demonstration shows.
use secure_vote.Base.{
  ◌≡◌, refl, sym, ◌∙◌, ◌↔◌, inl, inr, String, Bool, true, false, Option, none, some, List, [], ◌∷◌,
  arith, if◌then◌else◌, truthy?, text_length, ◌===◌, eq_iff, is_some, all, All, Bool-cases,
}
use secure_vote.Types.Export.{ElectionExportResponse, BallotExportItem, AuditExportItem}
use secure_vote.Verify.Checks.{
  bad_hash, ballot_hashes_valid, links_to, chain_after, audit_chain_valid,
}
use secure_vote.Verify.{
  passed, failed, ballots_of, candidates_of, audit_log_of, configuration_hash?, has_envelope,
  all_passed, run_verification,
}
use secure_vote.Verify.Sequences.{sequence_of, IsIncreasing, sequences_valid_iff}
use secure_vote.Verify.Tallies.{listed, reconciliation_passed_iff}

bad_hash_iff : (h : String) → (bad_hash h ≡ false) ↔ (text_length h ≡ 64)
bad_hash_iff String.[] = ground arith
bad_hash_iff (String.◌∷◌ c s) = ground arith

-- A hash of the right length: all that the page looks at.
abbrev pub HasLength64 : String → Type 0
HasLength64 h = text_length h ≡ 64

-- Every entry's hash has 64 characters, and every entry but the first repeats the one before it.
abbrev pub IsLinked : List AuditExportItem → Type 0
IsLinked [] = Unit
IsLinked (e ∷ []) = HasLength64 e.entry_hash
IsLinked (e ∷ f ∷ es) =
    HasLength64 e.entry_hash × (f.previous_hash ≡ some e.entry_hash) × IsLinked (f ∷ es)

IsLinked-head :
    (e : AuditExportItem) (es : List AuditExportItem) → IsLinked (e ∷ es) → HasLength64 e.entry_hash
IsLinked-head e [] h = h
IsLinked-head e (f ∷ es) h = h.0

pub ballot_hashes_valid_iff :
    (bs : List BallotExportItem)
    → (ballot_hashes_valid bs ≡ true) ↔ All (λ b. HasLength64 b.ballot_hash) bs
unfolding ballot_hashes_valid
ballot_hashes_valid_iff [] = (λ _. tt, λ _. refl)
ballot_hashes_valid_iff (b ∷ bs) =
    let (to, from) = ballot_hashes_valid_iff bs in
    let hash = bad_hash_iff b.ballot_hash in
    elim (Bool-cases (bad_hash b.ballot_hash)) [
      | inl bad ↦ rw bad (λ e. cc e, λ (h, _). cc (sym bad ∙ hash.1 h))
      | inr good ↦ rw good (λ e. (hash.0 good, to e), λ (_, h). from h)
    ]

pub links_to_iff :
    (e f : AuditExportItem) → (links_to e f ≡ true) ↔ (f.previous_hash ≡ some e.entry_hash)
links_to_iff e f = go f.previous_hash
  where
    go :
        (p : Option String)
        → (elim p [ none ↦ false | some h ↦ h === e.entry_hash ] ≡ true) ↔ (p ≡ some e.entry_hash)
    go none = (λ h. cc, λ h. cc)
    go (some h) =
        (λ q. ground (arith, eq_iff h e.entry_hash), λ q. ground (arith, eq_iff h e.entry_hash))

chain_after_iff :
    (e : AuditExportItem) (es : List AuditExportItem)
    → HasLength64 e.entry_hash
    → (chain_after e es ≡ true) ↔ IsLinked (e ∷ es)
unfolding chain_after
chain_after_iff e [] he = (λ _. he, λ _. refl)
chain_after_iff e (f ∷ es) he =
    let hash = bad_hash_iff f.entry_hash in
    let link = links_to_iff e f in
    elim (Bool-cases (bad_hash f.entry_hash)) [
      | inl bad ↦ rw bad (λ q. cc q, λ q. cc (sym bad ∙ hash.1 (IsLinked-head f es q.2)))
      | inr good ↦ rw good (elim (Bool-cases (links_to e f)) [
        | inl linked ↦
            let (to, from) = chain_after_iff f es (hash.0 good) in
            rw linked (λ q. (he, link.0 linked, to q), λ q. from q.2)
        | inr broken ↦ rw broken (λ q. cc q, λ q. cc (sym broken ∙ link.1 q.1))
      ])
    ]

-- The audit log passes checkpoint 8 exactly when it is linked.
pub audit_chain_valid_iff :
    (log : List AuditExportItem) → (audit_chain_valid log ≡ true) ↔ IsLinked log
unfolding audit_chain_valid
audit_chain_valid_iff [] = (λ _. tt, λ _. refl)
audit_chain_valid_iff (e ∷ es) =
    let hash = bad_hash_iff e.entry_hash in
    elim (Bool-cases (bad_hash e.entry_hash)) [
      | inl bad ↦ rw bad (λ q. cc q, λ q. cc (sym bad ∙ hash.1 (IsLinked-head e es q)))
      | inr good ↦ rw good (chain_after_iff e es (hash.0 good))
    ]

-- What an archive has to be for the page to accept it.
pub record IsAccepted (d : ElectionExportResponse) : Type 0 where
  pub versioned : truthy? d.export_version ≡ true
  pub has_election : is_some d.election ≡ true
  pub has_ballots : is_some d.ballots ≡ true
  pub has_audit_log : is_some d.audit_log ≡ true
  pub configured : truthy? (configuration_hash? d) ≡ true
  pub hashed : All (λ b. HasLength64 b.ballot_hash) (ballots_of d)
  pub replay_safe : (dev : String) → IsIncreasing (sequence_of dev (ballots_of d))
  pub on_roster : all (λ b. listed (candidates_of d) b.candidate_id) (ballots_of d) ≡ true
  pub linked : IsLinked (audit_log_of d)
  pub has_manifest : is_some d.manifest ≡ true

passed_if_iff : (b : Bool) → ((if b then passed else failed) ≡ passed) ↔ (b ≡ true)
passed_if_iff b = ground arith

all_passed-IsAccepted : (d : ElectionExportResponse) → all_passed d ≡ true → IsAccepted d
unfolding all_passed has_envelope
all_passed-IsAccepted d h = record {
  versioned = ground arith;
  has_election = ground arith;
  has_ballots = ground arith;
  has_audit_log = ground arith;
  configured = ground arith;
  hashed = (ballot_hashes_valid_iff (ballots_of d)).0 (ground arith);
  replay_safe = (sequences_valid_iff (ballots_of d)).0 (ground arith);
  on_roster = (reconciliation_passed_iff d).0 (ground arith);
  linked = (audit_chain_valid_iff (audit_log_of d)).0 (ground arith);
  has_manifest = ground arith;
}

IsAccepted-all_passed : (d : ElectionExportResponse) → IsAccepted d → all_passed d ≡ true
unfolding all_passed has_envelope
IsAccepted-all_passed d a =
    let hashes = (ballot_hashes_valid_iff (ballots_of d)).1 a.hashed in
    let seqs = (sequences_valid_iff (ballots_of d)).1 a.replay_safe in
    let recon = (reconciliation_passed_iff d).1 a.on_roster in
    let chain = (audit_chain_valid_iff (audit_log_of d)).1 a.linked in
    rw
      (
        a.versioned, a.has_election, a.has_ballots, a.has_audit_log, a.configured, hashes, seqs,
        recon, chain, a.has_manifest,
      )
      refl

-- The page reports PASSED exactly for the archives that have a version, an election with a
-- configuration hash, ballots, an audit log and a manifest, whose ballot hashes all have 64
-- characters, whose ballots never repeat or lower a device's sequence number and name listed
-- candidates only, and whose audit entries are linked.
pub run_verification-passed_iff :
    (d : ElectionExportResponse) → ((run_verification d).overall_status ≡ passed) ↔ IsAccepted d
unfolding run_verification
run_verification-passed_iff d =
    let (to, from) = passed_if_iff (all_passed d) in
    (λ h. all_passed-IsAccepted d (to h), λ a. from (IsAccepted-all_passed d a))
