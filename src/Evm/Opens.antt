-- ===== src/Evm/Opens.antt =====
-- dashboard/components/evm/EvmTerminal.tsx: when the terminal opens, in terms of the backend's replies.
use secure_vote.Base.{
  ◌≡◌, ◌≢◌, refl, ◌↔◌, String, Bool, true, false, none, some, List, [], ◌∷◌, arith, truthy?, find,
  ◌===◌, eq_iff, Reply, ok, failed, or_else, Option-cases, Option, subst, length, ◌==◌, ℕ, suc, ◌⊎◌,
  inl, inr, if◌then◌else◌, Bool-cases,
}
use secure_vote.Types.{
  CandidateResponse, ElectionResponse, DeviceResponse, TransparencyOverview, active, opened,
  ElectionState, created, configured, locked, suspended, closed, published, state_text,
}
use secure_vote.Evm.State.{EvmElection, ready, error, Props, Terminal}
use secure_vote.Evm.Setup.{
  SetupReplies, first_election, of_election, of_overview, fill_candidates, load_election,
  load_devices, setup,
}

-- The public endpoints have the election, with its candidates, and give its state as OPEN.
abbrev pub PublicIsOpen : Reply TransparencyOverview → Reply (List CandidateResponse) → Type 0
PublicIsOpen (ok view) (ok cands) = view.state ≡ "OPEN"
PublicIsOpen (ok view) (failed m) = ⊥
PublicIsOpen (failed m) cands = ⊥

-- The election is open: by the officer's endpoint where there is a token and it answers, and otherwise
-- by the public ones.
abbrev pub ElectionIsOpen :
    (has_token : Bool)
    → Reply ElectionResponse
    → Reply TransparencyOverview
    → Reply (List CandidateResponse)
    → Type 0
ElectionIsOpen true (ok e) view cands = e.state ≡ opened
ElectionIsOpen true (failed m) view cands = PublicIsOpen view cands
ElectionIsOpen false own view cands = PublicIsOpen view cands

-- The first of the devices with the identifier is active.
abbrev pub FirstIsActive : String → List DeviceResponse → Type 0
FirstIsActive id [] = ⊥
FirstIsActive id (d ∷ ds) =
    ((d.id ≡ id) × (d.status ≡ active)) ⊎ ((d.id ≢ id) × FirstIsActive id ds)

abbrev pub PublicIsActive : String → Reply (List DeviceResponse) → Type 0
PublicIsActive id (ok ds) = FirstIsActive id ds
PublicIsActive id (failed m) = ⊥

-- The device is active: by the officer's list where there is a token and the list is not empty, and
-- otherwise by the public one.
abbrev pub DeviceIsActive :
    String → (has_token : Bool) → Reply (List DeviceResponse) → Reply (List DeviceResponse) → Type 0
DeviceIsActive id true (ok (d ∷ ds)) others = FirstIsActive id (d ∷ ds)
DeviceIsActive id true (ok []) others = PublicIsActive id others
DeviceIsActive id true (failed m) others = PublicIsActive id others
DeviceIsActive id false own others = PublicIsActive id others

-- An election that is open and an active device, as the effect has loaded them.
record IsServed (props : Props) (r : SetupReplies) (e : EvmElection) (dev : DeviceResponse)
    : Type 0 where
  devices : List DeviceResponse
  loaded : load_election props.token r ≡ ok e
  listed : load_devices props.token r ≡ ok devices
  found : find (λ d. d.id === props.device_id) devices ≡ some dev
  is_open : e.state ≡ "OPEN"
  is_active : dev.status ≡ active

Reply-cases : {A : Type 0} (x : Reply A) → ((a : A) × (x ≡ ok a)) ⊎ ((m : String) × (x ≡ failed m))
Reply-cases (ok a) = inl (a, refl)
Reply-cases (failed m) = inr (m, refl)

module _ (props : Props) (r : SetupReplies) (t : Terminal) where
  setup-failed_election :
      (m : String) → load_election props.token r ≡ failed m → (setup props r t).state ≡ error
  unfolding setup
  setup-failed_election m e = rw (setup, e) refl

  setup-failed_devices :
      (e : EvmElection) (m : String)
      → load_election props.token r ≡ ok e
      → load_devices props.token r ≡ failed m
      → (setup props r t).state ≡ error
  unfolding setup
  setup-failed_devices e m p q = rw (setup, p, q) refl

  setup-no_device :
      (e : EvmElection) (ds : List DeviceResponse)
      → load_election props.token r ≡ ok e
      → load_devices props.token r ≡ ok ds
      → find (λ d. d.id === props.device_id) ds ≡ none
      → (setup props r t).state ≡ error
  unfolding setup
  setup-no_device e ds p q f = rw (setup, p, q, f) refl

  setup-found :
      (e : EvmElection) (ds : List DeviceResponse) (dev : DeviceResponse)
      → load_election props.token r ≡ ok e
      → load_devices props.token r ≡ ok ds
      → find (λ d. d.id === props.device_id) ds ≡ some dev
      → ((setup props r t).state ≡ ready) ↔ ((e.state ≡ "OPEN") × (dev.status ≡ active))
  unfolding setup
  setup-found e ds dev p q f = rw (setup, p, q, f) (ground (arith, eq_iff e.state "OPEN"))

setup-ready_loaded :
    (props : Props) (r : SetupReplies) (t : Terminal)
    → ((setup props r t).state ≡ ready)
      ↔ ((e : EvmElection) × (dev : DeviceResponse) × IsServed props r e dev)
setup-ready_loaded props r t = (
  λ h. elim (Reply-cases (load_election props.token r)) [
    | inr (m, p) ↦ cc (setup-failed_election props r t m p, h)
    | inl (e, p) ↦ elim (Reply-cases (load_devices props.token r)) [
      | inr (m, q) ↦ cc (setup-failed_devices props r t e m p q, h)
      | inl (ds, q) ↦ elim (Option-cases (find (λ d. d.id === props.device_id) ds)) [
        | inl f ↦ cc (setup-no_device props r t e ds p q f, h)
        | inr (dev, f) ↦
            let (is_open, is_active) = (setup-found props r t e ds dev p q f).0 h in
            (
              e,
              dev,
              record {
                devices = ds;
                loaded = p;
                listed = q;
                found = f;
                is_open = is_open;
                is_active = is_active;
              },
            )
      ]
    ]
  ],
  λ (e, dev, s).
      (setup-found props r t e s.devices dev s.loaded s.listed s.found).1 (s.is_open, s.is_active),
)

fill_candidates-state :
    (missing : Reply (List CandidateResponse)) (e : EvmElection)
    → (fill_candidates missing e).state ≡ e.state
fill_candidates-state missing e = ground arith

-- The election that is loaded, if any, is open.
abbrev LoadsOpen : Reply EvmElection → Type 0
LoadsOpen (ok e) = e.state ≡ "OPEN"
LoadsOpen (failed m) = ⊥

opened_iff : (s : ElectionState) → (state_text s ≡ "OPEN") ↔ (s ≡ opened)
opened_iff opened = (λ h. refl, λ h. refl)
opened_iff created = (λ h. absurd (cc h), λ h. absurd (cc h))
opened_iff configured = (λ h. absurd (cc h), λ h. absurd (cc h))
opened_iff locked = (λ h. absurd (cc h), λ h. absurd (cc h))
opened_iff suspended = (λ h. absurd (cc h), λ h. absurd (cc h))
opened_iff closed = (λ h. absurd (cc h), λ h. absurd (cc h))
opened_iff published = (λ h. absurd (cc h), λ h. absurd (cc h))

of_overview_iff :
    (view : Reply TransparencyOverview) (cands : Reply (List CandidateResponse))
    → LoadsOpen (of_overview view cands) ↔ PublicIsOpen view cands
of_overview_iff (ok view) (ok cands) = (λ h. h, λ h. h)
of_overview_iff (ok view) (failed m) = (λ h. h, λ h. h)
of_overview_iff (failed m) cands = (λ h. h, λ h. h)

first_election_iff :
    (has_token : Bool) (r : SetupReplies)
    → LoadsOpen (first_election has_token r)
      ↔ ElectionIsOpen has_token r.election r.overview r.overview_candidates
first_election_iff false r = of_overview_iff r.overview r.overview_candidates
first_election_iff true r = go r.election
  where
    go :
        (own : Reply ElectionResponse)
        → LoadsOpen (elim own [
          | ok e ↦ ok (of_election e)
          | failed _ ↦ of_overview r.overview r.overview_candidates
        ])
          ↔ ElectionIsOpen true own r.overview r.overview_candidates
    go (ok e) = opened_iff e.state
    go (failed m) = of_overview_iff r.overview r.overview_candidates

filled_iff :
    (missing : Reply (List CandidateResponse)) (x : Reply EvmElection)
    → ((e : EvmElection) × ((elim x [ ok e ↦ ok (fill_candidates missing e) | failed m ↦ failed m ])
          ≡ ok e)
        × (e.state ≡ "OPEN"))
      ↔ LoadsOpen x
filled_iff missing (ok e) =
    let same = fill_candidates-state missing e in
    (λ (x, p, h). cc (p, h, same), λ h. (fill_candidates missing e, refl, cc (same, h)))
filled_iff missing (failed m) = (λ (e, p, _). absurd (cc p), λ h. absurd h)

load_election_iff :
    (token : Option String) (r : SetupReplies)
    → ((e : EvmElection) × (load_election token r ≡ ok e) × (e.state ≡ "OPEN"))
      ↔ ElectionIsOpen (truthy? token) r.election r.overview r.overview_candidates
unfolding load_election
load_election_iff token r =
    let (into, out) = filled_iff r.missing_candidates (first_election (truthy? token) r) in
    let (there, back) = first_election_iff (truthy? token) r in
    (λ h. there (into h), λ h. out (back h))

-- The first device with the identifier is there, and is active.
abbrev FoundActive : String → List DeviceResponse → Type 0
FoundActive id ds =
    (dev : DeviceResponse) × (find (λ d. d.id === id) ds ≡ some dev) × (dev.status ≡ active)

find_iff : (id : String) (ds : List DeviceResponse) → FoundActive id ds ↔ FirstIsActive id ds
find_iff id [] = (λ (d, p, _). absurd (cc p), λ h. absurd h)
find_iff id (d ∷ ds) = elim (Bool-cases (d.id === id)) [
  | inl e ↦
      let same = (eq_iff d.id id).0 e in
      (
        λ (dev, p, h). inl (same, cc (rw e at p, h)),
        λ h. elim h [ inl (_, k) ↦ (d, rw e refl, k) | inr (n, _) ↦ absurd (n same) ],
      )
  | inr e ↦
      let differ : d.id ≢ id = λ q. cc ((eq_iff d.id id).1 q, e) in
      let (there, back) = find_iff id ds in
      (
        λ (dev, p, h). inr (differ, there (dev, rw e at p, h)),
        λ h. elim h [
          | inl (q, _) ↦ absurd (differ q)
          | inr (_, k) ↦ let (dev, p, a) = back k in (dev, rw e p, a)
        ],
      )
]

-- The list that is loaded, if any, has an active device as the first with the identifier.
abbrev ListsActive : String → Reply (List DeviceResponse) → Type 0
ListsActive id x = (ds : List DeviceResponse) × (x ≡ ok ds) × FirstIsActive id ds

public_iff :
    (id : String) (x : Reply (List DeviceResponse)) → ListsActive id x ↔ PublicIsActive id x
public_iff id (ok ds) = (λ (es, p, h). subst (FirstIsActive id) (cc p) h, λ h. (ds, refl, h))
public_iff id (failed m) = (λ (es, p, _). absurd (cc p), λ h. absurd h)

-- `dData` of the effect.
abbrev chosen :
    Bool → Reply (List DeviceResponse) → Reply (List DeviceResponse) → Reply (List DeviceResponse)
chosen has_token own others =
    let mine = if has_token then or_else own [] else [] in
    if length mine == 0 then others else ok mine

suc_nonzero : (n : ℕ) → (suc n == 0) ≡ false
suc_nonzero n = ground arith

chosen_iff :
    (id : String) (has_token : Bool) (own others : Reply (List DeviceResponse))
    → ListsActive id (chosen has_token own others) ↔ DeviceIsActive id has_token own others
chosen_iff id true (ok (d ∷ ds)) others = rw (suc_nonzero (length ds)) (public_iff id (ok (d ∷ ds)))
chosen_iff id true (ok []) others = public_iff id others
chosen_iff id true (failed m) others = public_iff id others
chosen_iff id false own others = public_iff id others

load_devices_iff :
    (id : String) (token : Option String) (r : SetupReplies)
    → ListsActive id (load_devices token r)
      ↔ DeviceIsActive id (truthy? token) r.devices r.transparency_devices
unfolding load_devices
load_devices_iff id token r = chosen_iff id (truthy? token) r.devices r.transparency_devices

-- The effect ends at READY exactly where the backend has the election as open and the terminal's device
-- as active. The officer's endpoint counts for the election where there is a token and it answers,
-- and the officer's list for the devices where there is a token and it is not empty; otherwise the
-- public endpoints do. Of two devices with one identifier the first counts.
pub setup-ready_iff :
    (props : Props) (r : SetupReplies) (t : Terminal)
    → let has_token = truthy? props.token in
      ((setup props r t).state ≡ ready) ↔ (
        ElectionIsOpen has_token r.election r.overview r.overview_candidates
        × DeviceIsActive props.device_id has_token r.devices r.transparency_devices)
setup-ready_iff props r t =
    let (loads, serves) = setup-ready_loaded props r t in
    let (to_open, from_open) = load_election_iff props.token r in
    let (to_listed, from_listed) = load_devices_iff props.device_id props.token r in
    (
      λ h.
          let (e, dev, s) = loads h in
          (
            to_open (e, s.loaded, s.is_open),
            to_listed (
              s.devices,
              s.listed,
              (find_iff props.device_id s.devices).0 (dev, s.found, s.is_active),
            ),
          ),
      λ (open_, listed).
          let (e, p, q) = from_open open_ in
          let (ds, k, first_active) = from_listed listed in
          let (dev, f, a) = (find_iff props.device_id ds).1 first_active in
          serves (
            e,
            dev,
            record { devices = ds; loaded = p; listed = k; found = f; is_open = q; is_active = a },
          ),
    )
