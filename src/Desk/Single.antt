-- ===== src/Desk/Single.antt =====
-- dashboard/app/(officer)/election: counting/page.tsx, results/page.tsx and transparency/page.tsx load
-- one value each; audit/page.tsx and observers/page.tsx.
use secure_vote.Base.{
  ℕ, String, Bool, true, false, Option, none, some, List, length, if◌then◌else◌, Reply, ok, failed,
}
use secure_vote.Types.{DeviceResponse}
use secure_vote.Types.Reports.{AuditEntryResponse, AuditVerificationResponse}
use secure_vote.Desk.{Listing}

-- The state that the first three pages share; `loadData` is the same on all of them.
pub record Single {ℓ} (A : Type ℓ) : Type ℓ where
  pub value : Option A
  pub loading : Bool
  pub error : Option String

module _ {ℓ} {A : Type ℓ} where
  abbrev pub fetched : Reply A → Single A → Single A
  fetched (ok a) s = record s { value = some a; loading = false }
  fetched (failed m) s = record s { error = some m; loading = false }

  -- A value that was there stays where the load fails.
  unfoldable pub load_data : Option String → (String → Reply A) → Single A → Single A
  load_data none get s = s
  load_data (some election_id) get s = fetched (get election_id) (record s { loading = true })

-- audit/page.tsx
pub record AuditDesk : Type 0 where
  pub events : Listing AuditEntryResponse
  pub verify_status : Option AuditVerificationResponse

abbrev pub chain_checked : Reply AuditVerificationResponse → AuditDesk → AuditDesk
chain_checked (ok status) p = record p {
  verify_status = some status;
  events = record p.events { loading = false };
}
chain_checked (failed m) p = record p {
  events = record p.events { error = some m; loading = false };
}

-- The button "Verify Chain": what was shown goes before the answer comes.
unfoldable pub check_chain :
    Option String → (String → Reply AuditVerificationResponse) → AuditDesk → AuditDesk
check_chain none verify p = p
check_chain (some election_id) verify p =
    chain_checked (verify election_id)
      (record p { events = record p.events { loading = true }; verify_status = none })

-- observers/page.tsx
pub record ObserverPage : Type 0 where
  pub audit_status : String
  pub device_count : ℕ

abbrev pub status_shown : Reply AuditVerificationResponse → String → String
status_shown (ok a) old = if a.is_intact then "INTACT (Verified)" else "CHAIN FAILURE DETECTED"
status_shown (failed m) old = old

abbrev pub devices_counted : Reply (List DeviceResponse) → ℕ
devices_counted (ok ds) = length ds
devices_counted (failed m) = 0

-- Both calls catch their errors: a chain that cannot be fetched leaves the status as it was.
unfoldable pub load_observer_telemetry :
    Option String
    → (String → Reply AuditVerificationResponse)
    → (String → Reply (List DeviceResponse))
    → ObserverPage
    → ObserverPage
load_observer_telemetry none verify get p = p
load_observer_telemetry (some election_id) verify get p = record {
  audit_status = status_shown (verify election_id) p.audit_status;
  device_count = devices_counted (get election_id);
}
