-- ===== src/Desk.antt =====
-- dashboard/app/(officer)/election: the pages on the election that is selected in the context, which
-- keep a list, load it, and change something and load again. `election_id` is the selected election, if
-- any; the message of a failed reply is the text of `formatApiError`.
pub mod Pages
pub mod Polls
pub mod Stuck
pub mod Verdicts
pub mod Single
pub mod Setup
pub mod Simulation
pub mod Winner
pub mod Candidates
pub mod Store
pub mod Archive
mod Examples
use secure_vote.Base.{
  String, Bool, true, false, Option, none, some, List, truthy, if◌then◌else◌, Reply, ok, failed,
}

-- The state that the pages share.
pub record Listing {ℓ} (A : Type ℓ) : Type ℓ where
  pub items : List A
  pub loading : Bool
  pub error : Option String

module _ {ℓ} {A : Type ℓ} where
  abbrev pub loaded : Reply (List A) → Listing A → Listing A
  loaded (ok xs) l = record l { items = xs; loading = false }
  loaded (failed m) l = record l { error = some m; loading = false }

  -- A load with its early return. It does not throw, and it does not clear the error.
  unfoldable pub load : Option String → (String → Reply (List A)) → Listing A → Listing A
  load none get l = l
  load (some election_id) get l = loaded (get election_id) (record l { loading = true })

  abbrev pub changed {κ} :
      {B : Type κ} → Reply B → Option String → (String → Reply (List A)) → Listing A → Listing A
  changed (ok b) election_id get l = record (load election_id get l) { loading = false }
  changed (failed m) election_id get l = record l { error = some m; loading = false }

-- `text || undefined`
abbrev pub given : String → Option String
given s = if truthy s then some s else none
