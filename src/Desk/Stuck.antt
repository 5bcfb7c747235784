-- ===== src/Desk/Stuck.antt =====
-- dashboard/app/(officer)/election/polling-stations/page.tsx: what becomes of an
-- error.
use secure_vote.Base.{
  String, ◌≡◌, refl, Bool, true, Option, none, some, List, [], ◌∷◌, is_some, Reply, ok, failed,
}
use secure_vote.Types.Registers.{PollingStationResponse}
use secure_vote.Desk.{Listing, loaded, load, changed}
use secure_vote.Desk.Pages.{StationsDesk, StationBody, station_body, cleared, handle_create}

module _ {ℓ} {A : Type ℓ} where
  -- The page shows an error.
  abbrev pub has_error : Listing A → Bool
  has_error l = is_some l.error

  loaded-has_error :
      (r : Reply (List A)) (l : Listing A) → has_error l ≡ true → has_error (loaded r l) ≡ true
  loaded-has_error (ok xs) l h = h
  loaded-has_error (failed m) l h = refl

  load-has_error :
      (k : Option String) (get : String → Reply (List A)) (l : Listing A)
      → has_error l ≡ true
      → has_error (load k get l) ≡ true
  unfolding load
  load-has_error none get l h = h
  load-has_error (some k) get l h = loaded-has_error (get k) _ h

  changed-has_error {κ} :
      {B : Type κ} (r : Reply B) (k : Option String) (get : String → Reply (List A)) (l : Listing A)
      → has_error l ≡ true
      → has_error (changed r k get l) ≡ true
  changed-has_error (ok b) k get l h = load-has_error k get l h
  changed-has_error (failed m) k get l h = refl

-- What happens on the page of the polling stations, for whichever election is then selected: the list
-- is loaded, a station is created, or the form is filled in.
pub data Event : Type 0 where
  reloaded : Option String → (String → Reply (List PollingStationResponse)) → Event
  created :
      Option String
      → (String → StationBody → Reply PollingStationResponse)
      → (String → Reply (List PollingStationResponse))
      → Event
  filled_in : (code name constituency location officer : String) → Event

unfoldable pub step : StationsDesk → Event → StationsDesk
unfolding load handle_create
step p (reloaded k get) = record p { stations = load k get p.stations }
step p (created k create get) = handle_create k create get p
step p (filled_in code name constituency location officer) = record p {
  code = code;
  name = name;
  constituency = constituency;
  location = location;
  officer = officer;
}

unfoldable pub run : StationsDesk → List Event → StationsDesk
unfolding step
run p [] = p
run p (e ∷ es) = run (step p e) es

cleared-stations :
    (r : Reply PollingStationResponse) (p : StationsDesk) → (cleared r p).stations ≡ p.stations
cleared-stations (ok s) p = refl
cleared-stations (failed m) p = refl

step-has_error :
    (p : StationsDesk) (e : Event)
    → has_error p.stations ≡ true
    → has_error (step p e).stations ≡ true
unfolding step handle_create
step-has_error p (reloaded k get) h = load-has_error k get p.stations h
step-has_error p (created none create get) h = h
step-has_error p (created (some k) create get) h = rw cleared-stations (
    changed-has_error (create k (station_body p)) (some k) get
      (record p.stations { loading = true }) h)
step-has_error p (filled_in code name constituency location officer) h = h

-- An error on the page of the polling stations stays: whatever is then loaded, created and filled in,
-- and however well it goes, the page goes on showing an error.
run-has_error :
    (p : StationsDesk) (es : List Event)
    → has_error p.stations ≡ true
    → has_error (run p es).stations ≡ true
unfolding run
run-has_error p [] h = h
run-has_error p (e ∷ es) h = run-has_error (step p e) es (step-has_error p e h)
