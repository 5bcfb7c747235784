-- ===== src/Portal.antt =====
-- dashboard/app/(public): the map and the transparency pages.
pub mod Map
pub mod InOrder
pub mod Transparency
mod Examples
use secure_vote.Base.{String, Option, none, some, Reply, ok, failed}

-- `catch(() => null)`
abbrev pub or_null {ℓ} : {A : Type ℓ} → Reply A → Option A
or_null (ok a) = some a
or_null (failed m) = none
