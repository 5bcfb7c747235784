-- ===== src/Voter/Roll.antt =====
-- dashboard/app/(public)/voter/roll/page.tsx: the electoral roll, its lookups and its filter. The time
-- of registration in the demonstration records is an argument.
use secure_vote.Base.{
  String, Bool, true, false, not, ◌&&◌, ◌||◌, Option, none, some, List, [], ◌∷◌, any, keep,
  if◌then◌else◌, truthy, trim, lower_includes, ◌===◌, ◌<>◌, or_text, Reply, ok, failed,
}
use secure_vote.Types.Registers.{VoterResponse}

abbrev pub demo_voter :
    String → String → String → String → String → String → Bool → String → VoterResponse
demo_voter id number name birth constituency station voted now = record {
  id = id;
  election_id = "EV-2026-001";
  voter_id_number = number;
  name = name;
  date_of_birth = birth;
  constituency = constituency;
  polling_station_id = some station;
  eligibility_status = "ELIGIBLE";
  registration_status = "VERIFIED";
  has_voted = voted;
  registered_at = now;
}

abbrev pub demo_voters : String → List VoterResponse
demo_voters now =
    (demo_voter "1" "VTR-00101" "Aarav Sharma" "1994-05-12" "Bengaluru Central (Karnataka)" "PS-001"
      true now)
    ∷ (demo_voter "2" "VTR-00102" "Meera Patel" "1988-11-23" "Mumbai South (Maharashtra)" "PS-002"
        false now)
    ∷ (demo_voter "3" "VTR-00103" "Rohan Iyer" "2001-02-17" "New Delhi (NCT)" "PS-003" false now)
    ∷ (demo_voter "4" "VTR-00104" "Pooja Verma" "1997-09-30" "Varanasi (Uttar Pradesh)" "PS-001"
        true now)
    ∷ (demo_voter "5" "VTR-00105" "Debashis Banerjee" "1985-07-14" "Kolkata Dakshin (West Bengal)"
        "PS-004" false now)
    ∷ []

pub record Page : Type 0 where
  pub voters : List VoterResponse
  pub search_query : String
  pub selected_constituency : String
  pub loading : Bool
  pub lookup_notice : Option String

abbrev pub initial : String → Page
initial now = record {
  voters = demo_voters now;
  search_query = "";
  selected_constituency = "ALL";
  loading = false;
  lookup_notice = none;
}

abbrev pub has_number : String → VoterResponse → Bool
has_number number v = v.voter_id_number === number

-- `setVoters((prev) => ...)`
unfoldable pub add_voter : VoterResponse → List VoterResponse → List VoterResponse
add_voter result prev = if any (has_number result.voter_id_number) prev then prev else result ∷ prev

-- The reply to a lookup, where a voter or nothing may come back.
unfoldable pub found : String → Reply (Option VoterResponse) → Page → Page
unfolding add_voter
found q (ok none) p = record p { loading = false }
found q (ok (some result)) p = record p {
  voters = add_voter result p.voters;
  lookup_notice =
      some ("Live record found for " <> (result.name <> (" (" <> (result.voter_id_number <> ")"))));
  loading = false;
}
found q (failed m) p = record p {
  lookup_notice =
      some (
        "No backend database record found for \""
        <> (q <> "\". Filtered local demonstrator roll."));
  loading = false;
}

unfoldable pub handle_lookup :
    (election_id : Option String) → (String → String → Reply (Option VoterResponse)) → Page → Page
unfolding found
handle_lookup election_id lookup_voter p =
    let q = trim p.search_query in
    if not (truthy q)
    then record p { lookup_notice = none }
    else found q (lookup_voter (or_text election_id "EV-2026-001") q)
        (record p { loading = true; lookup_notice = none })

abbrev pub is_listed : Page → VoterResponse → Bool
is_listed p v =
    (lower_includes v.name p.search_query || lower_includes v.voter_id_number p.search_query)
    && (p.selected_constituency === "ALL" || v.constituency === p.selected_constituency)

unfoldable pub filtered_voters : Page → List VoterResponse
filtered_voters p = keep (is_listed p) p.voters

-- What a visitor does: types, picks a constituency, or looks the typed text up, with the active
-- election and what the backend answers.
pub data Event : Type 0 where
  typed picked : String → Event
  looked_up : Option String → (String → String → Reply (Option VoterResponse)) → Event

unfoldable pub step : Page → Event → Page
unfolding handle_lookup
step p (typed q) = record p { search_query = q }
step p (picked c) = record p { selected_constituency = c }
step p (looked_up election_id lookup_voter) = handle_lookup election_id lookup_voter p

unfoldable pub run : Page → List Event → Page
unfolding step
run p [] = p
run p (e ∷ es) = run (step p e) es
