-- ===== src/Desk/Winner.antt =====
-- dashboard/app/(officer)/election/results/page.tsx: the published results, the winner and the export.
-- The page reads `votes`; a field that an object does not have is `undefined`, and a sum or a
-- difference with it is NaN, both of which are `none` here. Shares in percent are left out.
use secure_vote.Base.{
  ℕ, ◌+◌, String, ◌≡◌, refl, Bool, true, Option, none, some, List, [], ◌∷◌, first, leb,
  if◌then◌else◌, truthy?, or_text, ◌<>◌, ◌===◌, Reply, ok, failed,
}
use secure_vote.Types.{ElectionResponse, state_text}
use secure_vote.Types.Reports.{VerificationResponse}
use secure_vote.Desk.Single.{Single}

pub record ResultRow : Type 0 where
  pub candidate_id : String
  pub candidate_name : String
  pub votes : Option ℕ

-- The fields that the page reads at the top level of the response, which is of type `any`.
pub record PublishedResults : Type 0 where
  pub candidate_results : Option (List ResultRow)
  pub manifest_hash : Option String

abbrev pub plus : Option ℕ → Option ℕ → Option ℕ
plus (some n) (some m) = some (n + m)
plus _ _ = none

abbrev pub sum_votes : Option ℕ → List ResultRow → Option ℕ
sum_votes acc [] = acc
sum_votes acc (r ∷ rs) = sum_votes (plus acc r.votes) rs

-- `... || 0`
abbrev pub or_zero : Option ℕ → ℕ
or_zero none = 0
or_zero (some n) = n

-- `results?.candidate_results?`, where nothing is done for an undefined list.
abbrev pub or_empty : Option (List ResultRow) → List ResultRow
or_empty none = []
or_empty (some rs) = rs

abbrev pub rows_of : Option PublishedResults → List ResultRow
rows_of none = []
rows_of (some r) = or_empty r.candidate_results

unfoldable pub total_votes : Option PublishedResults → ℕ
total_votes results = or_zero (sum_votes (some 0) (rows_of results))

-- `b.votes - a.votes` is not positive; NaN counts as 0.
abbrev pub stays_before : Option ℕ → Option ℕ → Bool
stays_before (some a) (some b) = leb b a
stays_before _ _ = true

-- The stable sort. It is JavaScript's where all rows have votes, or none has.
unfoldable pub place_row : ResultRow → List ResultRow → List ResultRow
place_row r [] = r ∷ []
place_row r (s ∷ rs) =
    let rest = place_row r rs in if stays_before r.votes s.votes then r ∷ s ∷ rs else s ∷ rest

unfoldable pub sorted_rows : List ResultRow → List ResultRow
unfolding place_row
sorted_rows [] = []
sorted_rows (r ∷ rs) = place_row r (sorted_rows rs)

abbrev pub is_published : ElectionResponse → Bool
is_published e = state_text e.state === "PUBLISHED"

unfoldable pub winner : ElectionResponse → Option PublishedResults → Option ResultRow
unfolding sorted_rows
winner e results = if is_published e then first (sorted_rows (rows_of results)) else none

-- `candidate_name || candidate_id`
abbrev pub row_label : ResultRow → String
row_label r = or_text (some r.candidate_name) r.candidate_id

abbrev pub signature_status : Option PublishedResults → String
signature_status none = "Pending"
signature_status (some r) = if truthy? r.manifest_hash then "Signed" else "Pending"

-- The file that a press of "Export Data" downloads, if any.
abbrev pub exported {ℓ} :
    {A : Type ℓ}
    → String
    → Reply A
    → Single PublishedResults
    → (Single PublishedResults × Option (String × A))
exported id (ok archive) s = (s, some ("election-" <> (id <> "-export.json"), archive))
exported id (failed m) s = (record s { error = some m }, none)

unfoldable pub handle_export {ℓ} :
    {A : Type ℓ}
    → Option ElectionResponse
    → (String → Reply A)
    → Single PublishedResults
    → (Single PublishedResults × Option (String × A))
handle_export none export s = (s, none)
handle_export (some e) export s = exported e.id (export e.id) s

-- What the page reads at the top level of the response as the contract has it: the rows and the hash are
-- fields of its `manifest`, so that both are undefined here.
abbrev pub as_read : {N : Type 0} → VerificationResponse N → PublishedResults
as_read r = record { candidate_results = none; manifest_hash = none }

-- Where the response has the contract's shape, a published election has no winner and no votes on the
-- page, which says that the manifest is still to be signed, whatever manifest the backend gives.
as_read-no_winner :
    {N : Type 0} (e : ElectionResponse) (r : VerificationResponse N)
    → is_published e ≡ true
    → (winner e (some (as_read r)) ≡ none)
      × (total_votes (some (as_read r)) ≡ 0)
      × (signature_status (some (as_read r)) ≡ "Pending")
unfolding winner total_votes sorted_rows
as_read-no_winner e r published = (rw published refl, refl, refl)
