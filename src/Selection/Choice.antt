-- ===== src/Selection/Choice.antt =====
-- Which election is chosen, and which selection a refresh keeps.
use secure_vote.Base.{
  ◌≡◌, refl, inl, inr, String, true, none, some, List, [], ◌∷◌, any, find, Reply, ok, failed, arith,
  Bool-cases, ap,
}
use secure_vote.Types.{ElectionResponse}
use secure_vote.Selection.{
  ListedElection, is_open, choose, Elections, select_reply, refresh_elections, select_election,
}

find-open :
    (es : List ListedElection)
    → any is_open es ≡ true
    → (e : ListedElection) × (find is_open es ≡ some e) × (is_open e ≡ true)
find-open [] h = cc h
find-open (e ∷ es) h = elim (Bool-cases (is_open e)) [
  | inl p ↦ (e, rw p refl, p)
  | inr q ↦ let (f, found, p) = find-open es (ground (arith, q, h)) in (f, rw q found, p)
]

-- An open election is chosen where the list has one.
choose-open :
    (es : List ListedElection)
    → any is_open es ≡ true
    → (e : ListedElection) × (choose es ≡ some e) × (is_open e ≡ true)
unfolding choose
choose-open es h = let (e, found, p) = find-open es h in (e, rw (choose, found) refl, p)

-- The identifier of the selected election.
abbrev pub HasSelected : Elections → String → Type 0
HasSelected s k = (f : ElectionResponse) × (s.selected_election ≡ some f) × (f.id ≡ k)

select_reply-HasSelected :
    (s : Elections) (k : String) (r : Reply ElectionResponse)
    → ((f : ElectionResponse) → r ≡ ok f → f.id ≡ k)
    → HasSelected s k
    → HasSelected (select_reply r s) k
select_reply-HasSelected s k (ok f) honest h = (f, refl, honest f refl)
select_reply-HasSelected s k (failed m) honest h = h

-- A refresh keeps the selection: where an election is selected when it starts, and the backend answers
-- for an identifier, if at all, with the election that has it, the selected election has the same
-- identifier after the refresh, whatever calls fail.
pub refresh_elections-keeps_selection :
    (s : Elections) (e : ElectionResponse) (all : Reply (List ElectionResponse))
    (detailed : String → Reply ElectionResponse)
    → ((k : String) (f : ElectionResponse) → detailed k ≡ ok f → f.id ≡ k)
    → s.selected_election ≡ some e
    → HasSelected (refresh_elections (some e) all detailed s) e.id
unfolding refresh_elections
refresh_elections-keeps_selection s e (failed m) detailed honest h = (e, h, refl)
refresh_elections-keeps_selection s e (ok all) detailed honest h =
    select_reply-HasSelected (record s { elections = all }) e.id (detailed e.id) (honest e.id)
      (e, h, refl)

-- A refresh that starts before anything is selected undoes a selection that is made meanwhile: where
-- the backend has the first election of its list, that one is selected after it, whichever election
-- was picked.
refresh_elections-undoes_selection :
    (s : Elections) (picked : String) (e fresh : ElectionResponse) (es : List ElectionResponse)
    (detailed : String → Reply ElectionResponse)
    → detailed e.id ≡ ok fresh
    → (refresh_elections none
        (ok (e ∷ es))
        detailed
        (select_election picked detailed s)).selected_election
      ≡ some fresh
unfolding refresh_elections
refresh_elections-undoes_selection s picked e fresh es detailed found =
    ap
      (λ r.
        (select_reply r
          (record (select_election picked detailed s) { elections = e ∷ es })).selected_election)
      found
