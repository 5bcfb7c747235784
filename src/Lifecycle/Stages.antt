-- ===== src/Lifecycle/Stages.antt =====
-- How the stages go with the states, and when a transition changes what is shown.
use secure_vote.Base.{
  ◌≡◌, refl, ◌⊎◌, inl, inr, String, Bool, true, not, ◌&&◌, ◌||◌, Option, some, List, [], ◌∷◌, all,
  Reply, ok, failed, arith, truthy?,
}
use secure_vote.Types.{
  Role, admin, ElectionState, created, configured, locked, opened, suspended, closed, published,
  ElectionResponse,
}
use secure_vote.Lifecycle.{
  ElectionLifecycleStage, lifecycle_stages, offered, Board, handle_state_transition,
}

-- Every stage before a stage that is done is done.
abbrev pub is_prefix : ElectionState → List ElectionLifecycleStage → Bool
is_prefix s [] = true
is_prefix s (st ∷ sts) =
    (st.is_done s || all (λ later. not (later.is_done s)) sts) && is_prefix s sts

-- In every state the stages that are done come before all others.
lifecycle_stages-prefix : (s : ElectionState) → is_prefix s lifecycle_stages ≡ true
unfolding lifecycle_stages
lifecycle_stages-prefix created = refl
lifecycle_stages-prefix configured = refl
lifecycle_stages-prefix locked = refl
lifecycle_stages-prefix opened = refl
lifecycle_stages-prefix suspended = refl
lifecycle_stages-prefix closed = refl
lifecycle_stages-prefix published = refl

-- Whether what is done in one state is done in another.
abbrev pub keeps_done : ElectionState → ElectionState → Bool
keeps_done s t = all (λ st. not (st.is_done s) || st.is_done t) lifecycle_stages

-- No transition that the page offers takes back a stage that is done.
offered-keeps_done : (s : ElectionState) → all (keeps_done s) (offered s) ≡ true
unfolding lifecycle_stages
offered-keeps_done created = refl
offered-keeps_done configured = refl
offered-keeps_done locked = refl
offered-keeps_done opened = refl
offered-keeps_done suspended = refl
offered-keeps_done closed = refl
offered-keeps_done published = refl

transition-failed :
    (role : Option Role) (token : Option String) (new_state : ElectionState) (m : String)
    (list : Reply (List ElectionResponse)) (b : Board)
    → (handle_state_transition role token new_state (failed m) list b).election ≡ b.election
unfolding handle_state_transition
transition-failed role token new_state m list b = ground arith

transition-ok :
    (role : Option Role) (token : Option String) (new_state : ElectionState) (e : ElectionResponse)
    (list : Reply (List ElectionResponse)) (b : Board)
    → let after = handle_state_transition role token new_state (ok e) list b in
      (after.election ≡ b.election)
      ⊎ ((after.election ≡ some e) × (role ≡ some admin) × (truthy? token ≡ true))
unfolding handle_state_transition
transition-ok role token new_state e list b = ground arith

-- The election that is shown changes only to what the backend answered, and only for an ADMIN with a
-- token: whatever the replies, it is the one from before, or the reply to the update is it.
handle_state_transition-election :
    (role : Option Role) (token : Option String) (new_state : ElectionState)
    (updated : Reply ElectionResponse) (list : Reply (List ElectionResponse)) (b : Board)
    → let after = handle_state_transition role token new_state updated list b in
      (after.election ≡ b.election)
      ⊎ ((e : ElectionResponse) × (after.election ≡ some e)
          × (updated ≡ ok e)
          × (role ≡ some admin)
          × (truthy? token ≡ true))
handle_state_transition-election role token new_state (failed m) list b =
    inl (transition-failed role token new_state m list b)
handle_state_transition-election role token new_state (ok e) list b =
    elim (transition-ok role token new_state e list b) [
      | inl kept ↦ inl kept
      | inr (changed, is_role, has_token) ↦ inr (e, changed, refl, is_role, has_token)
    ]
