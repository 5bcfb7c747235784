-- ===== src/Evm/Ballots.antt =====
-- dashboard/components/evm/EvmTerminal.tsx: when a ballot is cast.
use secure_vote.Base.{◌≡◌, ◌↔◌, String, true, false, some, [], ◌∷◌, arith, truthy}
use secure_vote.Evm.State.{vote_confirmed, Props, Terminal, Vote}
use secure_vote.Evm.Handlers.{handle_confirm}
use secure_vote.Evm.Loop.{votes_in}

-- What the terminal has to be in for CAST to hand over the ballot.
pub record MayCast (props : Props) (t : Terminal) (v : Vote) : Type 0 where
  pub confirmed : t.state ≡ vote_confirmed
  pub live : t.is_mock_poll ≡ false
  pub in_session : t.session_token ≡ some v.session_token
  pub has_session : truthy v.session_token ≡ true
  pub selected : t.selected_candidate ≡ some v.candidate_id
  pub has_candidate : truthy v.candidate_id ≡ true
  pub on_device : v.device_id ≡ props.device_id
  pub numbered : v.sequence_number ≡ t.sequence_number

-- CAST hands a ballot to the backend exactly when the candidate was confirmed outside diagnostic mode
-- in a session, neither identifier is empty, and the ballot names this session, this candidate, the
-- terminal's device and its sequence number.
pub handle_confirm-casts_iff :
    (props : Props) (stamp : String) (t : Terminal) (v : Vote)
    → (votes_in (handle_confirm props stamp t).calls ≡ v ∷ []) ↔ MayCast props t v
unfolding handle_confirm votes_in
handle_confirm-casts_iff props stamp t v = ground arith
