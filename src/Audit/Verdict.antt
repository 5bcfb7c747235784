-- ===== src/Audit/Verdict.antt =====
-- The verdict of the officer's verifier.
use secure_vote.Base.{
  ℕ, Option, none, ◌<◌, ◌≡◌, refl, inl, inr, ◌↔◌, String, true, some, arith, truthy?, length, all,
  Option-cases,
}
use secure_vote.Types.Export.{ElectionExportResponse, ExportManifest}
use secure_vote.Verify.{ballots_of, configuration_hash?, digital_signature?}
use secure_vote.Verify.Sequences.{sequence_of, IsIncreasing, sequences_valid_iff}
use secure_vote.Audit.{is_total, sorted_audit, checks, every_check, independent_verification}
use secure_vote.Audit.Reconciliation.{
  candidate_listed, device_registered, candidate_totals_iff, device_totals_iff, reconciliation_iff,
}
use secure_vote.Audit.Agreement.{checks-agree}
use secure_vote.Audit.Chain.{IsChained, audit_chain_valid_iff}

-- Every check of the officer's verifier, as a condition on the archive.
pub record IsVerified (d : ElectionExportResponse) : Type 0 where
  pub exported : truthy? d.export_hash ≡ true
  pub configured : truthy? (configuration_hash? d) ≡ true
  pub replay_safe : (dev : String) → IsIncreasing (sequence_of dev (ballots_of d))
  pub on_roster : all (candidate_listed d) (ballots_of d) ≡ true
  pub on_devices : all (device_registered d) (ballots_of d) ≡ true
  pub chained : IsChained 1 (sorted_audit d)
  pub nonempty : 0 < length (sorted_audit d)
  pub consistent :
      (m : ExportManifest) → d.manifest ≡ some m → m.total_ballots ≡ some (length (ballots_of d))
  pub signed : truthy? (digital_signature? d) ≡ true

is_total_iff : (total : ℕ) (n : Option ℕ) → (is_total total n ≡ true) ↔ (n ≡ some total)
is_total_iff total none = (λ h. cc h, λ h. cc h)
is_total_iff total (some n) = (λ h. ground (arith, h), λ h. ground (arith, h))

module _ (d : ElectionExportResponse) where
  manifest_iff : ((checks d).manifest ≡ true) ↔ (
      (m : ExportManifest) → d.manifest ≡ some m → m.total_ballots ≡ some (length (ballots_of d)))
  unfolding checks
  manifest_iff = elim (Option-cases d.manifest) [
    | inl missing ↦ (λ _ m q. cc, λ _. ground arith)
    | inr (m, present) ↦
        let (there, back) = is_total_iff (length (ballots_of d)) m.total_ballots in
        (λ h k q. cc (there (rw present at h), q, present), λ h. rw present (back (h m present)))
  ]

  nonempty_iff : ((checks d).audit_root ≡ true) ↔ (0 < length (sorted_audit d))
  unfolding checks
  nonempty_iff = (λ h. ground arith, λ h. ground arith)

  export_iff : ((checks d).export_envelope ≡ true) ↔ (truthy? d.export_hash ≡ true)
  unfolding checks
  export_iff = (λ h. h, λ h. h)

  configuration_iff : ((checks d).configuration ≡ true) ↔ (truthy? (configuration_hash? d) ≡ true)
  unfolding checks
  configuration_iff = (λ h. h, λ h. h)

  signature_iff : ((checks d).signature ≡ true) ↔ (truthy? (digital_signature? d) ≡ true)
  unfolding checks
  signature_iff = (λ h. h, λ h. h)

  chain_iff : ((checks d).audit_chain ≡ true) ↔ IsChained 1 (sorted_audit d)
  unfolding checks
  chain_iff = audit_chain_valid_iff (sorted_audit d)

  sequence_iff :
      ((checks d).ballot_sequence ≡ true)
      ↔ ((dev : String) → IsIncreasing (sequence_of dev (ballots_of d)))
  sequence_iff = rw (checks-agree d).0 (sequences_valid_iff (ballots_of d))

  anchor-audit_root :
      ((checks d).anchor ≡ (checks d).audit_root) × ((checks d).ballot_hashes ≡ true)
  unfolding checks
  anchor-audit_root = (refl, refl)

  every_check-IsVerified : every_check (checks d) ≡ true → IsVerified d
  unfolding every_check
  every_check-IsVerified h = record {
    exported = export_iff.0 (ground arith);
    configured = configuration_iff.0 (ground arith);
    replay_safe = sequence_iff.0 (ground arith);
    on_roster = (candidate_totals_iff d).0 (ground arith);
    on_devices = (device_totals_iff d).0 (ground arith);
    chained = chain_iff.0 (ground arith);
    nonempty = nonempty_iff.0 (ground arith);
    consistent = manifest_iff.0 (ground arith);
    signed = signature_iff.0 (ground arith);
  }

  IsVerified-every_check : IsVerified d → every_check (checks d) ≡ true
  unfolding every_check
  IsVerified-every_check v =
      let root = nonempty_iff.1 v.nonempty in
      rw
        (
          export_iff.1 v.exported,
          configuration_iff.1 v.configured,
          anchor-audit_root.1,
          sequence_iff.1 v.replay_safe,
          (candidate_totals_iff d).1 v.on_roster,
          (device_totals_iff d).1 v.on_devices,
          (reconciliation_iff d).1 (v.on_roster, v.on_devices),
          chain_iff.1 v.chained,
          anchor-audit_root.0,
          root,
          manifest_iff.1 v.consistent,
          signature_iff.1 v.signed,
        )
        refl

-- The officer's verifier says "valid" exactly for the archives with an export hash, a configuration
-- hash and a signature, whose ballots never repeat or lower a device's sequence number and name
-- listed candidates and listed devices only, whose audit entries exist and, sorted, are numbered
-- from 1 without a gap and linked, and whose manifest, if there is one, counts the ballots.
pub independent_verification-valid_iff :
    (selected : String) (d : ElectionExportResponse)
    → ((independent_verification selected d).valid ≡ true) ↔ IsVerified d
unfolding independent_verification
independent_verification-valid_iff selected d = (every_check-IsVerified d, IsVerified-every_check d)
