-- ===== src/Portal/Map.antt =====
-- dashboard/app/(public)/map/page.tsx: the map, the state and the constituency that are picked, and the
-- fetches of their details, which are answered in any order. Of what the backend sends, the parts that the
-- effects read are fields, and the rest is a value of type `Rest`.
use secure_vote.Base.{
  find, take_at, ℕ, String, Bool, true, false, Option, none, some, List, [], ◌∷◌, ◌++◌, truthy,
  if◌then◌else◌, ◌===◌, Reply, ok, failed,
}

pub record StateDetails (Rest : Type 0) : Type 0 where
  pub parliamentary_constituencies : Option (List String)
  pub rest : Rest

pub record Feature (Rest : Type 0) : Type 0 where
  pub code : String
  pub rest : Rest

-- A fetch under way: the map's, or one for a state's code or a constituency's identifier.
pub data Call : Type 0 where
  whole_map : Call
  state_of constituency_of : String → Call

pub record Page (Rest : Type 0) : Type 0 where
  pub map_data : Option (List (Feature Rest))
  pub loading : Bool
  pub selected_state_code : String
  pub state_details : Option (StateDetails Rest)
  pub selected_pc_id : String
  pub pc_details : Option Rest
  pub loading_pc : Bool
  pub pending : List Call

pub record Backend (Rest : Type 0) : Type 0 where
  pub get_geography_map_data : Reply (List (Feature Rest))
  pub get_geography_state : String → Reply (StateDetails Rest)
  pub get_geography_pc : String → Reply Rest

-- After the effects of the mount.
abbrev pub initial : (Rest : Type 0) → Page Rest
initial Rest = record {
  map_data = none;
  loading = true;
  selected_state_code = "KA";
  state_details = none;
  selected_pc_id = "KA-PC-24";
  pc_details = none;
  loading_pc = true;
  pending = whole_map ∷ state_of "KA" ∷ constituency_of "KA-PC-24" ∷ [];
}

-- A state or a constituency is picked, or the backend answers the `n`th of the pending calls.
module _ (Rest : Type 0) where
  pub data Event : Type 0 where
    picked_state : String → Event
    picked_constituency : String → Event
    answered : ℕ → Backend Rest → Event

module _ {Rest : Type 0} where
  -- An effect runs where its dependency has changed.
  unfoldable pub select_constituency : String → Page Rest → Page Rest
  select_constituency id p =
      if id === p.selected_pc_id
      then p
      else if truthy id
      then record p {
        selected_pc_id = id;
        loading_pc = true;
        pending = p.pending ++ constituency_of id ∷ [];
      }
      else record p { selected_pc_id = id }

  unfoldable pub select_state : String → Page Rest → Page Rest
  select_state code p =
      if code === p.selected_state_code
      then p
      else if truthy code
      then record p { selected_state_code = code; pending = p.pending ++ state_of code ∷ [] }
      else record p { selected_state_code = code }

  abbrev pub select_first : Option (List String) → Page Rest → Page Rest
  select_first (some (id ∷ ids)) p = select_constituency id p
  select_first (some []) p = record (select_constituency "" p) { pc_details = none }
  select_first none p = record (select_constituency "" p) { pc_details = none }

  abbrev pub got_state : Reply (StateDetails Rest) → Page Rest → Page Rest
  got_state (ok d) p =
      select_first d.parliamentary_constituencies (record p { state_details = some d })
  got_state (failed m) p = p

  abbrev pub got_constituency : Reply Rest → Page Rest → Page Rest
  got_constituency (ok d) p = record p { pc_details = some d; loading_pc = false }
  got_constituency (failed m) p = record p { loading_pc = false }

  abbrev pub got_map : Reply (List (Feature Rest)) → Page Rest → Page Rest
  got_map (ok fs) p = record p { map_data = some fs; loading = false }
  got_map (failed m) p = record p { loading = false }

  abbrev pub answer : Backend Rest → Page Rest → Option (Call × List Call) → Page Rest
  answer b p none = p
  answer b p (some (whole_map, cs)) = got_map b.get_geography_map_data (record p { pending = cs })
  answer b p (some (state_of code, cs)) =
      got_state (b.get_geography_state code) (record p { pending = cs })
  answer b p (some (constituency_of id, cs)) =
      got_constituency (b.get_geography_pc id) (record p { pending = cs })

  unfoldable pub step : Page Rest → Event Rest → Page Rest
  unfolding select_constituency select_state
  step p (picked_state code) = select_state code p
  step p (picked_constituency id) = select_constituency id p
  step p (answered n b) = answer b p (take_at n p.pending)

  unfoldable pub run : Page Rest → List (Event Rest) → Page Rest
  unfolding step
  run p [] = p
  run p (e ∷ es) = run (step p e) es

  -- The shape of the selected state.
  unfoldable pub selected_feature : Page Rest → Option (Feature Rest)
  selected_feature p = elim p.map_data [
    | none ↦ none
    | some fs ↦ find (λ f. f.code === p.selected_state_code) fs
  ]
