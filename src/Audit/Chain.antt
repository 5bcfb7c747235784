-- ===== src/Audit/Chain.antt =====
-- What the officer's check of the audit chain decides, and that the order of the entries in the
-- archive does not matter to it.
use mathlib.Core.Logic.Or
use mathlib.Core.Logic.{∥∥₁_elim}
use mathlib.Core.List.{Mem, Nodup, Nodup-nil, Nodup-cons, Permᴰ, mem-cons, not-mem-nil}
use mathlib.Core.List.Perm
use mathlib.Core.List.Permᴰ
use native.Mathlib.Bridge.{le_prop}
use secure_vote.Base.{
  ℕ, ◌+◌, ◌≤◌, ◌≡◌, refl, sym, ◌∙◌, ◌↔◌, Bool, true, false, not, ◌&&◌, ◌||◌, some, List, [], ◌∷◌,
  map, Perm, arith, ◌==◌, if◌then◌else◌, and_iff, sort_by, sort_by-perm, sort_by-eq_of_perm,
}
use secure_vote.Types.Export.{AuditExportItem, ElectionExportResponse}
use secure_vote.Types.Results.{IndependentChecks}
use secure_vote.Verify.Checks.{links_to}
use secure_vote.Verify.Verdict.{links_to_iff}
use secure_vote.Verify.{audit_log_of}
use secure_vote.Audit.{chain_from, audit_chain_valid, sorted_audit, recount, drift, checks}

-- The entries are numbered from `i` on, and each repeats the hash of the one before it.
abbrev pub IsChained : ℕ → List AuditExportItem → Type 0
IsChained i [] = Unit
IsChained i (e ∷ []) = e.sequence_number ≡ i
IsChained i (e ∷ f ∷ es) =
    (e.sequence_number ≡ i) × (f.previous_hash ≡ some e.entry_hash) × IsChained (i + 1) (f ∷ es)

chain_from-and :
    (i : ℕ) (e : AuditExportItem) (es : List AuditExportItem) (valid : Bool)
    → chain_from i e es valid ≡ (valid && chain_from i e es true)
unfolding chain_from
chain_from-and i e [] valid = ground arith
chain_from-and i e (f ∷ es) valid =
    let flag =
      λ (v : Bool). if not (f.sequence_number == i + 1) || not (links_to e f) then false else v in
    rw (chain_from-and (i + 1) f es (flag valid), chain_from-and (i + 1) f es (flag true))
      (ground arith)

-- The loop's flag after entry `f` behind entry `e`.
step_iff :
    (i : ℕ) (e f : AuditExportItem)
    → ((if not (f.sequence_number == i + 1) || not (links_to e f) then false else true) ≡ true)
      ↔ ((f.sequence_number ≡ i + 1) × (f.previous_hash ≡ some e.entry_hash))
step_iff i e f =
    let (to, from) = links_to_iff e f in
    (λ h. (ground arith, to (ground arith)), λ h. ground (arith, from h.1))

IsChained-head :
    (i : ℕ) (e : AuditExportItem) (es : List AuditExportItem)
    → IsChained i (e ∷ es)
    → e.sequence_number ≡ i
IsChained-head i e [] h = h
IsChained-head i e (f ∷ es) h = h.0

chain_from_iff :
    (i : ℕ) (e : AuditExportItem) (es : List AuditExportItem)
    → e.sequence_number ≡ i
    → (chain_from i e es true ≡ true) ↔ IsChained i (e ∷ es)
unfolding chain_from
chain_from_iff i e [] q = (λ _. q, λ _. refl)
chain_from_iff i e (f ∷ es) q =
    let flag = if not (f.sequence_number == i + 1) || not (links_to e f) then false else true in
    let (now, back) = step_iff i e f in
    let split = chain_from-and (i + 1) f es flag in
    (
      λ h.
          let both = (and_iff _ _).0 (sym split ∙ h) in
          let here : flag ≡ true = both.0 in
          let later = both.1 in
          (q, (now here).1, (chain_from_iff (i + 1) f es (now here).0).0 later),
      λ h.
          let number = IsChained-head (i + 1) f es h.2 in
          split ∙ (and_iff _ _).1 (back (number, h.1), (chain_from_iff (i + 1) f es number).1 h.2),
    )

-- The check passes exactly when the sorted entries are numbered 1, 2, 3 and so on, and each but the
-- first repeats the hash of the one before it.
pub audit_chain_valid_iff :
    (log : List AuditExportItem) → (audit_chain_valid log ≡ true) ↔ IsChained 1 log
unfolding audit_chain_valid
audit_chain_valid_iff [] = (λ _. tt, λ _. refl)
audit_chain_valid_iff (e ∷ es) =
    let flag = if e.sequence_number == 1 then true else false in
    let split = chain_from-and 1 e es flag in
    (
      λ h.
          let both = (and_iff flag (chain_from 1 e es true)).0 (sym split ∙ h) in
          let first : e.sequence_number ≡ 1 = ground (arith, both.0) in
          (chain_from_iff 1 e es first).0 both.1,
      λ h.
          let first = IsChained-head 1 e es h in
          split ∙ (and_iff _ _).1 (ground arith, (chain_from_iff 1 e es first).1 h),
    )

abbrev number : AuditExportItem → ℕ
number e = e.sequence_number

IsChained-le :
    (i : ℕ) (log : List AuditExportItem) (k : ℕ) → IsChained i log → Mem k (map number log) → i ≤ k
IsChained-le i [] k h m = absurd (not-mem-nil m)
IsChained-le i (e ∷ []) k h m =
    Or.elim le_prop (mem-cons.0 m) (λ q. omega arith) (λ n. absurd (not-mem-nil n))
IsChained-le i (e ∷ f ∷ es) k h m =
    Or.elim le_prop (mem-cons.0 m) (λ q. omega arith)
      (λ n. omega (arith, IsChained-le (i + 1) (f ∷ es) k h.2 n))

IsChained-Nodup : (i : ℕ) (log : List AuditExportItem) → IsChained i log → Nodup (map number log)
IsChained-Nodup i [] h = Nodup-nil
IsChained-Nodup i (e ∷ []) h = Nodup-cons.1 (not-mem-nil, Nodup-nil)
IsChained-Nodup i (e ∷ f ∷ es) h = Nodup-cons.1 (
  λ m. absurd (omega (arith, IsChained-le (i + 1) (f ∷ es) e.sequence_number h.2 m)),
  IsChained-Nodup (i + 1) (f ∷ es) h.2,
)

-- A log whose sorted entries form a chain sorts to the same list in every order.
sort-eq_of_IsChained :
    (log other : List AuditExportItem)
    → IsChained 1 (sort_by number log)
    → Permᴰ log other
    → sort_by number log ≡ sort_by number other
sort-eq_of_IsChained log other h p =
    sort_by-eq_of_perm number p
      (Perm.nodup ∣ Permᴰ.map number (sort_by-perm number log) ∣₁ (IsChained-Nodup 1 _ h))

IndependentChecks-set : IsSet IndependentChecks
IndependentChecks-set = hlevel

abbrev with_audit_log : ElectionExportResponse → List AuditExportItem → ElectionExportResponse
with_audit_log d log = record d { audit_log = some log }

checks-with_audit_log :
    (d : ElectionExportResponse) (other : List AuditExportItem)
    → sort_by number (audit_log_of d) ≡ sort_by number other
    → checks (with_audit_log d other) ≡ checks d
unfolding checks recount drift
checks-with_audit_log d other e = rw e refl

-- The order of the audit entries in the archive does not matter: if the audit chain of an archive
-- passes, then the archive with the same entries in any other order has the same twelve checks.
pub checks_of_perm :
    (d : ElectionExportResponse) (other : List AuditExportItem)
    → Perm (audit_log_of d) other
    → (checks d).audit_chain ≡ true
    → checks (record d { audit_log = some other }) ≡ checks d
unfolding checks
checks_of_perm d other p ok = ∥∥₁_elim p (IndependentChecks-set _ _) (λ q.
    checks-with_audit_log d other (
      sort-eq_of_IsChained (audit_log_of d) other ((audit_chain_valid_iff (sorted_audit d)).0 ok)
        q))
