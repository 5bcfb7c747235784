-- ===== src/Desk/Examples.antt =====
-- The theorems on the officer's election pages at a small backend.
use secure_vote.Base.{
  ◌≡◌, refl, String, false, none, some, List, [], ◌∷◌, ◌++◌, Reply, ok, failed, trim,
}
use secure_vote.Types.{CandidateResponse, created, published}
use secure_vote.Types.Samples.{sample_election}
use secure_vote.Desk.Candidates.{CandidatesDesk, CandidateBody, pos, negsuc, position_number}
use secure_vote.Desk.Store.{
  CandidateStore, World, Event, filled_in, pressed_add, pressed_delete, run, Shows, run-Shows_store,
}
use secure_vote.Desk.Winner.{PublishedResults, ResultRow, winner, total_votes}

position_number_test :
    (position_number " 12a" ≡ pos 12)
    × (position_number "x" ≡ pos 1)
    × (position_number "0" ≡ pos 1)
    × (position_number "-3" ≡ negsuc 2)
    × (position_number "0x1F" ≡ pos 31)
unfolding position_number trim
position_number_test = (refl, refl, refl, refl, refl)

abbrev as_candidate : CandidateBody → CandidateResponse
as_candidate b = record {
  id = "C001";
  name = b.name;
  party = some b.party;
  symbol = none;
  position = 1;
}

not_both :
    {c : CandidateResponse} {m : String} → ◌≡◌ {A = Reply CandidateResponse} (ok c) (failed m) → ⊥
not_both q = cc q

-- One list of candidates, of which none can be deleted.
abbrev store : CandidateStore
store = record {
  State = List CandidateResponse;
  add = λ id body s. (ok (as_candidate body), s ++ as_candidate body ∷ []);
  delete = λ id c s. (failed "Not Found", s);
  elections = λ s. [];
  election = λ k s. record (sample_election k created) { candidates = s };
  refused_add = λ id body s m k q. absurd (not_both q);
  refused_delete = λ id c s m k q. refl;
  named = λ k s. refl;
}

abbrev form : String → CandidatesDesk
form name = record { loading = false; error = none; name = name; party = "IND"; position = "1" }

abbrev begun : World store
begun = record {
  backend = [];
  context = record {
    elections = [];
    selected_election = some (sample_election "E1" created);
    loading = false;
  };
  desk = form "";
}

abbrev presses : List Event
presses = filled_in (form "Ada") ∷ pressed_add ∷ pressed_delete "C001" ∷ []

run-Shows_store_example : Shows store "E1" (run store begun presses)
run-Shows_store_example = run-Shows_store store "E1" begun presses refl

abbrev row : String → ResultRow
row id = record { candidate_id = id; candidate_name = id; votes = none }

-- With votes the results are ranked, and added up.
winner_test :
    let results : PublishedResults = record {
      candidate_results =
          some (record (row "A") { votes = some 2 } ∷ record (row "B") { votes = some 5 } ∷ []);
      manifest_hash = none;
    } in
    (winner (sample_election "E1" published) (some results)
      ≡ some (record (row "B") { votes = some 5 }))
    × (total_votes (some results) ≡ 7)
unfolding winner total_votes
winner_test = (refl, refl)
