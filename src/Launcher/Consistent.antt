-- ===== src/Launcher/Consistent.antt =====
-- dashboard/app/(evm)/evm/page.tsx: picks that wait for the fetches, and where they lead.
use secure_vote.Base.{
  if_holds, ℕ, zero, suc, String, ◌≡◌, refl, inl, inr, Bool, true, false, Option, none, some, List,
  [], ◌∷◌, any, find, first, any-find, take_at, truthy, ◌===◌, eq_refl, Reply, ok, failed,
  Option-cases, Bool-cases, arith,
}
use secure_vote.Types.{DeviceResponse}
use secure_vote.Selection.{ListedElection}
use secure_vote.Launcher.Fetches.{
  LauncherPage, devices_of, is_active, active_or_first, select_device,
}
use secure_vote.Launcher.Machine.{
  Call, elections, reseeded, message, devices, seed, World, Backend, Event, picked_election,
  picked_device, pressed_seed, answered, start, select_election, got_elections, resume, answer_call,
  offers_election, step, run,
}

-- The device is one of the list.
abbrev pub is_listed : String → List DeviceResponse → Bool
is_listed id ds = any (λ d. d.id === id) ds

any-first :
    (p : DeviceResponse → Bool) (ds : List DeviceResponse) (d : DeviceResponse)
    → first ds ≡ some d
    → p d ≡ true
    → any p ds ≡ true
any-first p [] d h k = cc h
any-first p (e ∷ ds) d h k = ground arith

found :
    (ds : List DeviceResponse) (c d : DeviceResponse)
    → find (λ x. is_active x.status) ds ≡ some c
    → active_or_first ds ≡ some d
    → find (λ x. is_active x.status) ds ≡ some d
found ds c d e h = ground arith

active_or_first-listed :
    (ds : List DeviceResponse) (d : DeviceResponse)
    → active_or_first ds ≡ some d
    → is_listed d.id ds ≡ true
active_or_first-listed ds d h = elim (Option-cases (find (λ e. is_active e.status) ds)) [
  | inl e ↦ any-first (λ c. c.id === d.id) ds d (rw (e, active_or_first) at h) (eq_refl d.id)
  | inr (c, e) ↦
      any-find (λ x. is_active x.status) (λ x. x.id === d.id) ds d (found ds c d e h) (eq_refl d.id)
]

module _ (token : Option String) (b : Backend) where
  -- Picks wait for the fetches, nothing is seeded, and the backend `b` answers.
  abbrev pub IsOrderly : World → Event → Type 0
  IsOrderly w (picked_election id) = w.pending ≡ []
  IsOrderly w (picked_device id) = w.pending ≡ []
  IsOrderly w (pressed_seed reset) = ⊥
  IsOrderly w (answered n c) = c ≡ b

  abbrev pub AreOrderly : World → List Event → Type 0
  AreOrderly w [] = Unit
  AreOrderly w (e ∷ es) = IsOrderly w e × AreOrderly (step token w e) es

module _ (token : Option String) (b : Backend) (listed : String → List DeviceResponse) where
  -- The backend lists the devices of every election.
  abbrev pub ListsDevices : Type 0
  ListsDevices =
      (k : String)
      → devices_of token (b.get_devices k) (b.get_transparency_devices k) ≡ ok (listed k)

  abbrev Phase : LauncherPage → List Call → Type 0
  Phase p [] =
      (truthy p.selected_election_id ≡ true → p.devices ≡ listed p.selected_election_id)
      × (truthy p.selected_device_id ≡ true → is_listed p.selected_device_id p.devices ≡ true)
  Phase p (elections ∷ []) =
      (truthy p.selected_election_id ≡ false) × (truthy p.selected_device_id ≡ false)
  Phase p (devices k ∷ []) = (p.selected_election_id ≡ k) × (truthy p.selected_device_id ≡ false)
  Phase p _ = ⊥

  abbrev P : World → Type 0
  P w = Phase w.page w.pending

  got-Phase :
      (k : String) (ds : List DeviceResponse) (o : Option DeviceResponse) (p : LauncherPage)
      → ((d : DeviceResponse) → o ≡ some d → is_listed d.id ds ≡ true)
      → p.selected_election_id ≡ k
      → truthy p.selected_device_id ≡ false
      → ds ≡ listed k
      → Phase (select_device o (record p { devices = ds })) []
  got-Phase k ds none p h e f g = ground arith
  got-Phase k ds (some d) p h e f g = ground (arith, h d)

  elections-Phase :
      (r : Reply (List ListedElection)) (w : World)
      → w.pending ≡ []
      → truthy w.page.selected_election_id ≡ false
      → truthy w.page.selected_device_id ≡ false
      → P (got_elections r w)
  unfolding select_election
  elections-Phase (ok (e ∷ es)) w none_left q d = ground arith
  elections-Phase (ok []) w none_left q d = ground arith
  elections-Phase (failed m) w none_left q d = ground arith

  resume-Phase :
      ListsDevices
      → (w : World) (c : Call) → Phase w.page (c ∷ [])
      → P (resume token b c (record w { pending = [] }))
  unfolding resume
  resume-Phase lists w elections h = elections-Phase _ _ refl h.0 h.1
  resume-Phase lists w (devices k) h = rw (lists k) (
      got-Phase k (listed k) (active_or_first (listed k)) w.page (active_or_first-listed (listed k))
        h.0 h.1 refl)
  resume-Phase lists w reseeded h = absurd h
  resume-Phase lists w message h = absurd h
  resume-Phase lists w (seed r) h = absurd h

  answered-Phase :
      ListsDevices
      → (w : World) (n : ℕ) (ps : List Call) → w.pending ≡ ps
      → Phase w.page ps
      → P (answer_call token b w (take_at n ps))
  answered-Phase lists w n [] e h = rw e h
  answered-Phase lists w zero (c ∷ []) e h = resume-Phase lists w c h
  answered-Phase lists w (suc n) (c ∷ []) e h = rw e h
  answered-Phase lists w n (elections ∷ c ∷ ps) e h = absurd h
  answered-Phase lists w n (x ∷ c ∷ ps) e h = absurd h

  select_election-Phase :
      (id : String) (w : World)
      → w.pending ≡ []
      → truthy w.page.selected_device_id ≡ false
      → Phase w.page []
      → P (select_election id w)
  unfolding select_election
  select_election-Phase id w none_left d h =
      elim (Bool-cases (id === w.page.selected_election_id)) [
        | inl e ↦ rw (e, none_left) h
        | inr e ↦ elim (Bool-cases (truthy id)) [
          | inl t ↦ rw (e, t, none_left) (refl, d)
          | inr t ↦ rw (e, t, none_left) (λ q. cc, λ q. cc (d, q))
        ]
      ]

  picked-Phase : (w : World) → w.pending ≡ [] → P w → Phase w.page []
  picked-Phase w e h = ground arith

  step-Phase :
      ListsDevices → (w : World) (e : Event) → IsOrderly token b w e → P w → P (step token w e)
  unfolding step
  step-Phase lists w (picked_election id) o h =
      if_holds P (offers_election id w.page)
        (select_election id (record w { page = record w.page { selected_device_id = "" } })) w
        (select_election-Phase id (record w { page = record w.page { selected_device_id = "" } }) o
          refl ((picked-Phase w o h).0, λ q. cc q))
        h
  step-Phase lists w (picked_device id) o h = ground arith
  step-Phase lists w (pressed_seed reset) o h = absurd o
  step-Phase lists w (answered n c) o h = rw o (answered-Phase lists w n w.pending refl h)

  run-Phase :
      ListsDevices
      → (w : World) (es : List Event) → AreOrderly token b w es
      → P w
      → P (run token w es)
  unfolding run
  run-Phase lists w [] o h = h
  run-Phase lists w (e ∷ es) (o, os) h =
      run-Phase lists (step token w e) es os (step-Phase lists w e o h)

-- Picks that wait lead to a device of the election: if nothing is picked while a fetch is under way and
-- nothing is seeded, and the backend lists the devices of every election, then whenever no fetch is under
-- way, a selected device together with a selected election is one of those that the backend lists for it,
-- and the list shown is that list.
pub run-selected_listed :
    (token : Option String) (b : Backend) (listed : String → List DeviceResponse) (es : List Event)
    → ListsDevices token b listed
    → AreOrderly token b start es
    → let w = run token start es in
      w.pending ≡ []
      → truthy w.page.selected_election_id ≡ true
      → truthy w.page.selected_device_id ≡ true
      → (w.page.devices ≡ listed w.page.selected_election_id)
        × (is_listed w.page.selected_device_id (listed w.page.selected_election_id) ≡ true)
run-selected_listed token b listed es lists orderly idle election device =
    let w = run token start es in
    let h =
      picked-Phase token b listed w idle
        (run-Phase token b listed lists start es orderly (refl, refl)) in
    (h.0 election, rw (← h.0 election) (h.1 device))
