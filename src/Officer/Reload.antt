-- ===== src/Officer/Reload.antt =====
-- dashboard/app/(officer)/results/page.tsx: the page as a machine. A handler that awaits the backend is
-- cut there; what is left of it waits, and the backend's answers come in any order.
use secure_vote.Base.{
  take_at, ℕ, String, Option, none, some, List, [], ◌∷◌, ◌++◌, Reply, ok, failed, Bool, true, false,
  not, ◌&&◌, ◌||◌, if◌then◌else◌, truthy?, ◌===◌, or_text, is_some,
}
use secure_vote.Types.{Role}
use secure_vote.Types.Reports.{
  VerificationResponse, ResultManifestResponse, AuditAnchorResponse, SignedManifestResponse,
}
use secure_vote.Officer.Results.{
  Page, Backend, Call, elections_for, initial, may_verify, begin_fetch, resume, begin_verification,
  verified, begin_signing, signing_failed, signing_done, begin_anchoring, anchoring_failed,
  anchoring_done,
}

-- What follows a fetch: nothing, or the rest of the handler that called it.
pub data Tail : Type 0 where
  alone after_signing after_anchoring : Tail

-- A handler that waits for an answer: in a fetch, or for the election with the identifier.
pub data Waiting : Type 0 where
  fetching : Tail → Call → Waiting
  verifying signing anchoring : String → Waiting

module _ (Number : Type 0) where
  -- The page, and what waits, oldest first.
  pub record World : Type 0 where
    pub page : Page Number
    pub pending : List Waiting

  -- What the calls of all handlers come back with.
  pub record Service : Type 0 where
    pub backend : Backend Number
    pub run_verification : String → Reply (VerificationResponse Number)
    pub sign_election_manifest : String → Reply SignedManifestResponse
    pub create_election_anchor : String → Reply AuditAnchorResponse

  -- An election is picked, or the one selected is loaded again as the token changes; a button is
  -- pressed; the error is dismissed; or the backend answers the `n`th of those that wait.
  pub data Event : Type 0 where
    opened : String → Event
    pressed_refresh dismissed : Event
    pressed_verify pressed_sign pressed_anchor : Option String → Option Role → Event
    answered : ℕ → Service → Event

abbrev pub of_next : Tail → Option Call → List Waiting
of_next tail none = []
of_next tail (some c) = fetching tail c ∷ []

module _ {Number : Type 0} where
  -- Whether the buttons are there and enabled.
  abbrev pub offers_verification : Option Role → Page Number → Bool
  offers_verification role p = may_verify role && not (p.verify_loading || p.loading)

  abbrev pub is_unsigned : Option (ResultManifestResponse Number) → Bool
  is_unsigned none = true
  is_unsigned (some m) =
      not (truthy? m.digital_signature) || or_text m.digital_signature "" === "null"

  abbrev signable : Option (VerificationResponse Number) → Bool
  signable none = false
  signable (some r) = is_unsigned r.manifest && r.reconciliation_passed

  abbrev pub offers_signing : Option Role → Page Number → Bool
  offers_signing role p = may_verify role && not p.sign_loading && signable p.results

  abbrev pub offers_anchoring : Option Role → Page Number → Bool
  offers_anchoring role p = may_verify role && not p.anchor_loading && is_some p.results

  -- The page behind a piece of a fetch, with what follows the fetch where it has ended.
  abbrev pub pass_page : Tail → Option Call → Page Number → Page Number
  pass_page alone next p = p
  pass_page after_signing none p = signing_done p
  pass_page after_signing (some c) p = p
  pass_page after_anchoring none p = anchoring_done p
  pass_page after_anchoring (some c) p = p

  abbrev pub pass_on : Tail → Page Number × Option Call → Page Number × List Waiting
  pass_on tail x = (pass_page tail x.1 x.0, of_next tail x.1)

  abbrev pub fetch_for : Tail → String → Page Number → Page Number × List Waiting
  fetch_for tail k p = (begin_fetch p, fetching tail (elections_for k) ∷ [])

  abbrev pub got_signed :
      String → Reply SignedManifestResponse → Page Number → Page Number × List Waiting
  got_signed k (ok _) p = fetch_for after_signing k p
  got_signed k (failed m) p = (signing_failed m p, [])

  abbrev pub got_anchored :
      String → Reply AuditAnchorResponse → Page Number → Page Number × List Waiting
  got_anchored k (ok _) p = fetch_for after_anchoring k p
  got_anchored k (failed m) p = (anchoring_failed m p, [])

  -- The next piece of a handler, behind the answer that it waited for.
  unfoldable pub wake : Service Number → Waiting → Page Number → Page Number × List Waiting
  unfolding begin_fetch resume
  wake s (fetching tail c) p = pass_on tail (resume s.backend c p)
  wake s (verifying k) p = (verified (s.run_verification k) p, [])
  wake s (signing k) p = got_signed k (s.sign_election_manifest k) p
  wake s (anchoring k) p = got_anchored k (s.create_election_anchor k) p

  abbrev pub go_on : World Number → Page Number × List Waiting → World Number
  go_on w x = record { page = x.0; pending = w.pending ++ x.1 }

  abbrev pub answer_waiting :
      Service Number → World Number → Option (Waiting × List Waiting) → World Number
  answer_waiting s w none = w
  answer_waiting s w (some (c, cs)) =
      go_on (record { page = w.page; pending = cs }) (wake s c w.page)

  -- What a handler waits for at its start, if it gets that far.
  abbrev pub waits : (String → Waiting) → Page Number × Option String → Page Number × List Waiting
  waits wait (p, none) = (p, [])
  waits wait (p, some k) = (p, wait k ∷ [])

  unfoldable pub step : World Number → Event Number → World Number
  unfolding begin_fetch begin_verification begin_signing begin_anchoring wake
  step w (opened k) = go_on w (fetch_for alone k (record w.page { selected_election_id = k }))
  step w pressed_refresh =
      if w.page.loading then w else go_on w (fetch_for alone w.page.selected_election_id w.page)
  step w dismissed = record w { page = record w.page { error = none } }
  step w (pressed_verify token role) =
      if offers_verification role w.page
      then go_on w (waits verifying (begin_verification token role w.page))
      else w
  step w (pressed_sign token role) =
      if offers_signing role w.page then go_on w (waits signing (begin_signing token w.page)) else w
  step w (pressed_anchor token role) =
      if offers_anchoring role w.page
      then go_on w (waits anchoring (begin_anchoring token w.page))
      else w
  step w (answered n s) = answer_waiting s w (take_at n w.pending)

  unfoldable pub run : World Number → List (Event Number) → World Number
  unfolding step
  run w [] = w
  run w (e ∷ es) = run (step w e) es

abbrev pub first_world : (Number : Type 0) → World Number
first_world Number = record { page = initial Number; pending = [] }
