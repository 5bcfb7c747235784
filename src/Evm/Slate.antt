-- ===== src/Evm/Slate.antt =====
-- dashboard/components/evm/EvmTerminal.tsx: the entry for none of the above, which gets the identifier
-- C005 whoever else has it.
use secure_vote.Base.{
  ◌≡◌, refl, String, true, false, some, [], ◌∷◌, ◌++◌, arith, length, last, last-concat, find,
  find_sound, find-append_of_some, truthy, eq_iff, ◌===◌,
}
use secure_vote.Types.{CandidateResponse}
use secure_vote.Evm.State.{EvmElection, candidate_selection, Props, Terminal}
use secure_vote.Evm.Setup.{has_nota, nota, candidate_slate}
use secure_vote.Evm.Handlers.{handle_candidate_select, handle_confirm}
use secure_vote.Evm.Loop.{votes_in}
use secure_vote.Evm.View.{selected_cand_data}

-- A vote for none of the above can count for a candidate: where no candidate is called NOTA and one has
-- the identifier C005, the last entry of the slate is none of the above, and in a session outside
-- diagnostic mode pressing it and CAST hands over a ballot that names that candidate, whose data are
-- those of the slip.
pub nota-elects :
    (props : Props) (stamp session : String) (t : Terminal) (e : EvmElection)
    (c : CandidateResponse)
    → t.election ≡ some e
    → has_nota e.candidates ≡ false
    → find (λ d. d.id === "C005") e.candidates ≡ some c
    → t.state ≡ candidate_selection
    → t.is_mock_poll ≡ false
    → t.session_token ≡ some session
    → truthy session ≡ true
    → let entry = nota (length e.candidates) in
      let u = handle_candidate_select entry.id t in
      (last (candidate_slate t.election) ≡ some entry)
      × (votes_in (handle_confirm props stamp u).calls
          ≡ record {
            session_token = session;
            candidate_id = c.id;
            device_id = props.device_id;
            sequence_number = t.sequence_number;
          }
            ∷ [])
      × (selected_cand_data u ≡ some c)
unfolding candidate_slate handle_candidate_select handle_confirm votes_in
nota-elects props stamp session t e c here alone found selecting live in_session good =
    let same : c.id ≡ "C005" =
      (eq_iff c.id "C005").0 (find_sound (λ d. d.id === "C005") e.candidates c found) in
    let slate : candidate_slate t.election ≡ e.candidates ++ nota (length e.candidates) ∷ [] =
      rw (here, alone) refl in
    (
      rw slate (last-concat e.candidates (nota (length e.candidates))),
      ground (arith, same),
      rw selecting (
          rw slate (
            find-append_of_some (λ d. d.id === "C005") e.candidates
              (nota (length e.candidates) ∷ []) c found)),
    )
