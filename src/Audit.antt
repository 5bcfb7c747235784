-- ===== src/Audit.antt =====
-- dashboard/app/(officer)/audit/page.tsx: the officer's independent verification of an archive.
-- `independent_verification` is the body of `handleRunIndependentVerification` once the archive is
-- fetched.
pub mod Reconciliation
pub mod Agreement
pub mod Chain
pub mod Verdict
pub mod Entries
mod Examples
use secure_vote.Base.{
  ℕ, suc, ◌+◌, String, Bool, true, false, not, ◌&&◌, ◌||◌, Option, none, some, List, [], ◌∷◌, leb,
  ◌==◌, if◌then◌else◌, truthy?, or_text, ◌<>◌, take_text, decimal, ◌===◌, is_some, get_or, lookup,
  insert, sum_values, length, all, last, sort_by,
}
use secure_vote.Types.Export.{
  ElectionExportResponse, BallotExportItem, AuditExportItem, CandidateExportItem, DeviceExportItem,
  ExportManifest,
}
use secure_vote.Types.Results.{IndependentChecks, IndependentVerificationResult}
use secure_vote.Verify.Checks.{bump_known, links_to}
use secure_vote.Verify.{
  abs_diff, ballots_of, candidates_of, audit_log_of, configuration_hash?, digital_signature?,
}

-- The variables of the loop over the ballots.
pub record Recount : Type 0 where
  pub sequence_valid : Bool
  pub dev_last_seq : List (String × ℕ)
  pub counted_cand : List (String × ℕ)
  pub counted_dev : List (String × ℕ)

abbrev pub devices_of : ElectionExportResponse → List DeviceExportItem
devices_of d = get_or d.devices []

-- `xs.forEach(x => (m[x.id] = 0))`
unfoldable pub zero_each : List String → List (String × ℕ) → List (String × ℕ)
zero_each [] m = m
zero_each (k ∷ ks) m = zero_each ks (insert k 0 m)

-- `devLastSeq[d] !== undefined && s <= devLastSeq[d]`
abbrev pub replays : Option ℕ → ℕ → Bool
replays none s = false
replays (some l) s = leb s l

unfoldable pub recount_step : Recount → BallotExportItem → Recount
recount_step r b = record {
  sequence_valid =
      if replays (lookup b.device_id r.dev_last_seq) b.sequence_number
      then false
      else r.sequence_valid;
  dev_last_seq = insert b.device_id b.sequence_number r.dev_last_seq;
  counted_cand = bump_known b.candidate_id r.counted_cand;
  counted_dev = bump_known b.device_id r.counted_dev;
}

unfoldable pub recount_from : Recount → List BallotExportItem → Recount
recount_from r [] = r
recount_from r (b ∷ bs) = recount_from (recount_step r b) bs

abbrev pub candidate_ids : List CandidateExportItem → List String
candidate_ids [] = []
candidate_ids (c ∷ cs) = c.id ∷ candidate_ids cs

abbrev pub device_ids : List DeviceExportItem → List String
device_ids [] = []
device_ids (d ∷ ds) = d.id ∷ device_ids ds

unfoldable pub recount : ElectionExportResponse → Recount
unfolding zero_each recount_from recount_step
recount d =
    recount_from
      (record {
        sequence_valid = true;
        dev_last_seq = [];
        counted_cand = zero_each (candidate_ids (candidates_of d)) [];
        counted_dev = zero_each (device_ids (devices_of d)) [];
      })
      (ballots_of d)

abbrev pub sorted_audit : ElectionExportResponse → List AuditExportItem
sorted_audit d = sort_by (λ e. e.sequence_number) (audit_log_of d)

-- The loop over the sorted log at index `i > 0`, with the entry before it.
unfoldable pub chain_from : ℕ → AuditExportItem → List AuditExportItem → Bool → Bool
chain_from i prev [] valid = valid
chain_from i prev (e ∷ es) valid =
    chain_from (i + 1) e es
      (if not (e.sequence_number == i + 1) || not (links_to prev e) then false else valid)

unfoldable pub audit_chain_valid : List AuditExportItem → Bool
unfolding chain_from
audit_chain_valid [] = true
audit_chain_valid (e ∷ es) = chain_from 1 e es (if e.sequence_number == 1 then true else false)

unfoldable pub audit_root_hash : List AuditExportItem → String
audit_root_hash log = elim (last log) [ none ↦ "GENESIS" | some e ↦ e.entry_hash ]

unfoldable pub drift : ElectionExportResponse → ℕ
drift d =
    abs_diff (sum_values (recount d).counted_cand) (length (ballots_of d))
    + abs_diff (sum_values (recount d).counted_dev) (length (ballots_of d))

-- `manifest.total_ballots === totalBallots`, where the field may be missing.
abbrev pub is_total : ℕ → Option ℕ → Bool
is_total total none = false
is_total total (some n) = n == total

unfoldable pub checks : ElectionExportResponse → IndependentChecks
unfolding drift
checks d =
    let r = recount d in
    let total = length (ballots_of d) in
    let sum_cand = sum_values r.counted_cand in
    let sum_dev = sum_values r.counted_dev in
    let sorted = sorted_audit d in
    record {
      export_envelope = truthy? d.export_hash;
      configuration = truthy? (configuration_hash? d);
      ballot_hashes = true;
      ballot_sequence = r.sequence_valid;
      candidate_totals = sum_cand == total;
      device_totals = sum_dev == total;
      reconciliation = drift d == 0 && sum_cand == total && sum_dev == total;
      audit_chain = audit_chain_valid sorted;
      audit_root = not (length sorted == 0);
      manifest = elim d.manifest [ none ↦ true | some m ↦ is_total total m.total_ballots ];
      signature = truthy? (digital_signature? d);
      anchor = not (length sorted == 0);
    }

-- `Object.values(checks).every(Boolean)`
unfoldable pub every_check : IndependentChecks → Bool
every_check c =
    c.export_envelope && c.configuration && c.ballot_hashes && c.ballot_sequence
    && c.candidate_totals && c.device_totals && c.reconciliation && c.audit_chain && c.audit_root
    && c.manifest && c.signature && c.anchor

-- `election.id || selectedElectionId`
abbrev election_id_or : ElectionExportResponse → String → String
election_id_or d selected = elim d.election [
  | none ↦ selected
  | some e ↦ or_text (some e.id) selected
]

unfoldable pub independent_verification :
    String → ElectionExportResponse → IndependentVerificationResult
unfolding checks every_check audit_root_hash drift
independent_verification selected d =
    let total = length (ballots_of d) in
    let sorted = sorted_audit d in
    let root = audit_root_hash sorted in
    let valid = every_check (checks d) in
    record {
      valid = valid;
      checks = checks d;
      failures =
          if valid then [] else "Independent check identified divergence in export package." ∷ [];
      details =
          ("Recount verified: "
            <> decimal total
            <> " ballots across "
            <> decimal (length (candidates_of d))
            <> " candidates.")
          ∷ ("Audit chain verified: "
              <> decimal (length sorted)
              <> " chained entries to root "
              <> take_text 16 root
              <> "...")
          ∷ ("Reconciliation drift: " <> decimal (drift d) <> " (exact tolerance).")
          ∷ [];
      summary = record {
        election_id = election_id_or d selected;
        total_ballots_recounted = total;
        candidates_recounted = length (candidates_of d);
        devices_recounted = length (devices_of d);
        audit_entries_recomputed = length sorted;
        audit_root_hash = root;
        reconciliation_drift = drift d;
      };
    }
