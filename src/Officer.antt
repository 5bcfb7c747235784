-- ===== src/Officer.antt =====
-- The officer's pages of dashboard/app/(officer), one child each. All of them that show something of
-- a chosen election load it the same way, from `target` on.
pub mod Results
pub mod Reload
pub mod Shown
pub mod Ends
pub mod Devices
pub mod DeviceLife
mod Examples
use secure_vote.Base.{
  String, ◌≡◌, refl, Option, none, some, List, [], ◌∷◌, find, first, ◌===◌, arith,
}
use secure_vote.Types.{ElectionResponse}

or_first : Option ElectionResponse → List ElectionResponse → Option ElectionResponse
or_first none all = first all
or_first (some e) all = some e

-- `all.find((e) => e.id === electionId) || all[0]`
unfoldable pub target : String → List ElectionResponse → Option ElectionResponse
unfolding or_first
target election_id all = or_first (find (λ e. e.id === election_id) all) all

or_first-cons :
    (o : Option ElectionResponse) (f : ElectionResponse) (fs : List ElectionResponse)
    → (e : ElectionResponse) × (or_first o (f ∷ fs) ≡ some e)
unfolding or_first
or_first-cons none f fs = (f, refl)
or_first-cons (some e) f fs = (e, refl)

-- A list that is not empty has a target.
pub target-cons :
    (k : String) (f : ElectionResponse) (fs : List ElectionResponse)
    → (e : ElectionResponse) × (target k (f ∷ fs) ≡ some e)
unfolding target
target-cons k f fs = or_first-cons (find (λ e. e.id === k) (f ∷ fs)) f fs
