-- ===== src/Layout/Badges.antt =====
-- dashboard/components: common/StatusBadge.tsx, the colours of a badge and of its dot, and
-- election/ElectionSelector.tsx.
use secure_vote.Base.{
  String, Bool, Option, none, some, List, [], ◌∷◌, any, map, upper_is, or_text, if◌then◌else◌, ◌<>◌,
}
use secure_vote.Types.{ElectionResponse, state_text}
use secure_vote.Selection.{Elections}

pub data BadgeColour : Type 0 where
  emerald blue amber rose purple indigo teal slate gray : BadgeColour

-- `[...].includes(status.toUpperCase())`
abbrev pub is_among : List String → String → Bool
is_among words status = any (upper_is status) words

abbrev pub is_good : String → Bool
is_good = is_among ("OPEN" ∷ "ACTIVE" ∷ "PASSED" ∷ "INTACT" ∷ [])

abbrev pub is_bad : String → Bool
is_bad =
    is_among (
      "REVOKED" ∷ "FAILED" ∷ "RECONCILIATION FAILURE" ∷ "BROKEN" ∷ "ERROR" ∷ "TAMPER_DETECTED" ∷ [])

unfoldable pub badge_colour : String → BadgeColour
badge_colour s =
    if is_good s
    then emerald
    else if is_among ("LOCKED" ∷ "CONFIGURED" ∷ []) s
    then blue
    else if is_among ("SUSPENDED" ∷ "PAUSED" ∷ "WARNING" ∷ []) s
    then amber
    else if is_bad s
    then rose
    else if is_among ("CLOSED" ∷ "PUBLISHED" ∷ []) s
    then purple
    else if is_among ("ADMIN" ∷ []) s
    then indigo
    else if is_among ("AUDITOR" ∷ []) s
    then teal
    else if is_among ("OBSERVER" ∷ []) s
    then slate
    else gray

unfoldable pub dot_colour : String → BadgeColour
dot_colour s =
    if is_good s
    then emerald
    else if is_among ("SUSPENDED" ∷ "PAUSED" ∷ []) s
    then amber
    else if is_among ("REVOKED" ∷ "FAILED" ∷ "RECONCILIATION FAILURE" ∷ "BROKEN" ∷ []) s
    then rose
    else gray

-- The list that is offered: identifiers with what is written.
pub data Selector : Type 0 where
  loading_shown none_found : Selector
  offers : String → List (String × String) → Selector

abbrev pub option_label : ElectionResponse → String
option_label e = or_text e.name (or_text e.title e.id) <> (" (" <> (state_text e.state <> ")"))

abbrev pub selected_id : Option ElectionResponse → String
selected_id none = ""
selected_id (some e) = e.id

abbrev pub offers_of : String → List ElectionResponse → Selector
offers_of id [] = none_found
offers_of id (e ∷ es) = offers id (map (λ x. (x.id, option_label x)) (e ∷ es))

unfoldable pub selector : Elections → Selector
selector s =
    if s.loading then loading_shown else offers_of (selected_id s.selected_election) s.elections
