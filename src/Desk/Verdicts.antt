-- ===== src/Desk/Verdicts.antt =====
-- dashboard/app/(officer)/election: what verification/page.tsx and audit/page.tsx read of the verdicts
-- that the backend sends in the shape of dashboard/lib/types.ts.
use secure_vote.Base.{ℕ, ◌≡◌, refl, Bool, false, Option, none, some}
use secure_vote.Api.Json.{Value, end, field, str, num, bool, null, obj, property?, truthy_value}
use secure_vote.Types.Reports.{VerificationResponse, AuditVerificationResponse}

abbrev number? : Option ℕ → Value
number? none = null
number? (some n) = num n

-- The JSON of a verification, given that of its manifest and of its details.
abbrev pub of_verification : {Number : Type 0} → VerificationResponse Number → Value → Value → Value
of_verification v manifest details = obj (
    field "election_id" (str v.election_id) (
      field "config_hash_valid" (bool v.config_hash_valid) (
        field "audit_chain_intact" (bool v.audit_chain_intact) (
          field "reconciliation_passed" (bool v.reconciliation_passed) (
            field "tally_independently_verified" (bool v.tally_independently_verified) (
              field "overall_status" (str v.overall_status)
                (field "manifest" manifest (field "details" details end))))))))

-- The JSON of the status of an audit chain.
abbrev pub of_chain : AuditVerificationResponse → Value
of_chain a = obj (
    field "election_id" (str a.election_id) (
      field "total_entries" (num a.total_entries) (
        field "is_intact" (bool a.is_intact) (
          field "first_broken_sequence" (number? a.first_broken_sequence)
            (field "details" (str a.details) end)))))

-- `result?.is_valid`, tested
unfoldable pub overall_passed : Value → Bool
overall_passed result = truthy_value (property? "is_valid" result)

-- `verifyStatus.is_valid`, tested where there is a status
unfoldable pub chain_verified : Value → Bool
chain_verified status = truthy_value (property? "is_valid" status)

-- Neither page ever shows a success: of every verification of the contract's shape the one page says
-- that it has not passed, and of every chain's status the other says that the chain is broken, also
-- where the backend has found everything in order.
verdicts-unread :
    {Number : Type 0} (v : VerificationResponse Number) (manifest details : Value)
    (a : AuditVerificationResponse)
    → (overall_passed (of_verification v manifest details) ≡ false)
      × (chain_verified (of_chain a) ≡ false)
unfolding overall_passed chain_verified property?
verdicts-unread v manifest details a = (refl, refl)
