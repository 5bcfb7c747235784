-- ===== src/Officer/DeviceLife.antt =====
-- dashboard/app/(officer)/devices/page.tsx: what a device can become by the buttons of the page.
use secure_vote.Base.{◌≡◌, refl, Bool, true, false, Option, some, ◌↔◌, any, arith}
use secure_vote.Types.{Role, admin, DeviceStatus, registered, active, suspended, revoked}
use secure_vote.Officer.Devices.{offered}

abbrev same : DeviceStatus → DeviceStatus → Bool
same registered registered = true
same active active = true
same suspended suspended = true
same revoked revoked = true
same _ _ = false

-- A button for `t` is shown for a device whose status is `s`.
abbrev shows : Option Role → DeviceStatus → DeviceStatus → Bool
shows role s t = any (λ u. same u t) (offered role s)

-- What a device can become by any number of buttons, each pressed when it is shown.
pub data Becomes (role : Option Role) : DeviceStatus → DeviceStatus → Type 0 where
  stays : (s : DeviceStatus) → Becomes role s s
  pressed : (s t u : DeviceStatus) → Becomes role s t → shows role t u ≡ true → Becomes role s u

-- Unchanged; or not revoked before and past its registration after.
abbrev pub allowed : DeviceStatus → DeviceStatus → Bool
allowed registered t = true
allowed s registered = false
allowed revoked t = same revoked t
allowed s t = true

allowed_refl : (s : DeviceStatus) → allowed s s ≡ true
allowed_refl registered = refl
allowed_refl active = refl
allowed_refl suspended = refl
allowed_refl revoked = refl

allowed-shows :
    (s t u : DeviceStatus) → allowed s t ≡ true → shows (some admin) t u ≡ true → allowed s u ≡ true
unfolding offered
allowed-shows registered t u h k = refl
allowed-shows s t u h k = ground arith

Becomes-allowed : {s t : DeviceStatus} → Becomes (some admin) s t → allowed s t ≡ true
Becomes-allowed (stays s) = allowed_refl s
Becomes-allowed (pressed s t u b h) = allowed-shows s t u (Becomes-allowed b) h

press :
    {s : DeviceStatus} (t u : DeviceStatus)
    → shows (some admin) t u ≡ true
    → Becomes (some admin) s t
    → Becomes (some admin) s u
press t u h b = pressed _ t u b h

-- Pressing on to each status, from one that is active.
from_active :
    {s : DeviceStatus} (t : DeviceStatus)
    → allowed active t ≡ true
    → Becomes (some admin) s active
    → Becomes (some admin) s t
unfolding offered
from_active registered h b = cc h
from_active active h b = b
from_active suspended h b = press active suspended refl b
from_active revoked h b = press active revoked refl b

allowed-Becomes : (s t : DeviceStatus) → allowed s t ≡ true → Becomes (some admin) s t
unfolding offered
allowed-Becomes registered registered h = stays registered
allowed-Becomes registered active h = press registered active refl (stays registered)
allowed-Becomes registered suspended h =
    from_active suspended refl (press registered active refl (stays registered))
allowed-Becomes registered revoked h =
    from_active revoked refl (press registered active refl (stays registered))
allowed-Becomes active t h = from_active t h (stays active)
allowed-Becomes suspended registered h = cc h
allowed-Becomes suspended active h = press suspended active refl (stays suspended)
allowed-Becomes suspended suspended h = stays suspended
allowed-Becomes suspended revoked h = press suspended revoked refl (stays suspended)
allowed-Becomes revoked registered h = cc h
allowed-Becomes revoked revoked h = stays revoked
allowed-Becomes revoked active h = cc h
allowed-Becomes revoked suspended h = cc h

-- By the buttons that an administrator is shown, a device can come from one status to another exactly
-- when the status stays, or the device is not revoked before and not merely registered after: no
-- device is active again once it is revoked, and every device can be revoked.
Becomes-iff : (s t : DeviceStatus) → Becomes (some admin) s t ↔ (allowed s t ≡ true)
Becomes-iff s t = (Becomes-allowed, allowed-Becomes s t)
