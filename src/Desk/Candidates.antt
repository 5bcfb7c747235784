-- ===== src/Desk/Candidates.antt =====
-- dashboard/app/(officer)/election/candidates/page.tsx: the candidates of the selected election, over the
-- context of dashboard/context/ElectionContext.tsx, with each handler as a whole.
use secure_vote.Base.{
  ℕ, zero, suc, ◌+◌, ◌-◌, ◌*◌, String, Bool, true, false, not, ◌&&◌, ◌||◌, Option, none, some, List,
  [], ◌∷◌, leb, ◌==◌, if◌then◌else◌, codes, trim, Reply, ok, failed,
}
use secure_vote.Types.{ElectionResponse, ElectionState, created, configured, CandidateResponse}
use secure_vote.Selection.{Elections, refresh_elections}

pub data ℤ : Type 0 where
  pos negsuc : ℕ → ℤ

-- The value of a digit, at least 36 for what is none.
abbrev digit_value : ℕ → ℕ
digit_value c =
    if leb 48 c && leb c 57
    then c - 48
    else if leb 97 c && leb c 122
    then c - 87
    else if leb 65 c && leb c 90
    then c - 55
    else 36

-- The longest run of digits, read on from `n`.
abbrev pub digits_from : ℕ → ℕ → List ℕ → ℕ
digits_from radix n [] = n
digits_from radix n (c ∷ cs) =
    let rest = digits_from radix (radix * n + digit_value c) cs in
    if leb radix (digit_value c) then n else rest

-- No digit at all is NaN, which counts as 0 before `||`.
abbrev pub is_hex : List ℕ → Bool
is_hex (z ∷ x ∷ cs) = z == 48 && (x == 120 || x == 88)
is_hex cs = false

abbrev pub drop_two : List ℕ → List ℕ
drop_two (z ∷ x ∷ cs) = cs
drop_two cs = cs

abbrev pub unsigned_int : List ℕ → ℕ
unsigned_int cs = if is_hex cs then digits_from 16 0 (drop_two cs) else digits_from 10 0 cs

abbrev pub negative : ℕ → ℤ
negative zero = pos 1
negative (suc n) = negsuc n

abbrev pub or_one : ℕ → ℤ
or_one zero = pos 1
or_one (suc n) = pos (suc n)

abbrev pub signed_int : List ℕ → ℤ
signed_int [] = pos 1
signed_int (c ∷ cs) =
    if c == 45
    then negative (unsigned_int cs)
    else if c == 43
    then or_one (unsigned_int cs)
    else or_one (unsigned_int (c ∷ cs))

-- `parseInt(position) || 1`
unfoldable pub position_number : String → ℤ
position_number s = signed_int (codes (trim s))

pub record CandidateBody : Type 0 where
  pub name : String
  pub party : String
  pub position : ℤ

pub record CandidatesDesk : Type 0 where
  pub loading : Bool
  pub error : Option String
  pub name : String
  pub party : String
  pub position : String

abbrev pub is_open_to_change : ElectionState → Bool
is_open_to_change created = true
is_open_to_change configured = true
is_open_to_change _ = false

abbrev pub is_locked : ElectionResponse → Bool
is_locked e = not (is_open_to_change e.state)

abbrev pub candidate_body : CandidatesDesk → CandidateBody
candidate_body p = record { name = p.name; party = p.party; position = position_number p.position }

-- What the context fetches behind a change: the list of elections, and one by its identifier.
pub record Refresh : Type 0 where
  pub get_elections : Reply (List ElectionResponse)
  pub get_election : String → Reply ElectionResponse

-- The refresh catches its own errors.
abbrev pub refreshed : Refresh → Elections → Elections
refreshed b s = refresh_elections s.selected_election b.get_elections b.get_election s

abbrev pub added :
    Reply CandidateResponse → Refresh → Elections → CandidatesDesk → (Elections × CandidatesDesk)
added (ok c) b s p =
    (refreshed b s, record p { name = ""; party = ""; loading = false; error = none })
added (failed m) b s p = (s, record p { error = some m; loading = false })

-- The form is shown where an election is selected that is not locked.
unfoldable pub handle_add_candidate :
    (String → CandidateBody → Reply CandidateResponse)
    → Refresh
    → Elections
    → CandidatesDesk
    → (Elections × CandidatesDesk)
handle_add_candidate add b s p = elim s.selected_election [
  | none ↦ (s, p)
  | some e ↦ if is_locked e then (s, p) else added (add e.id (candidate_body p)) b s p
]

abbrev pub deleted :
    Reply Bool → Refresh → Elections → CandidatesDesk → (Elections × CandidatesDesk)
deleted (ok done) b s p = (refreshed b s, record p { loading = false })
deleted (failed m) b s p = (s, record p { error = some m; loading = false })

-- An error from before stays.
unfoldable pub handle_delete :
    (String → String → Reply Bool)
    → Refresh
    → String
    → Elections
    → CandidatesDesk
    → (Elections × CandidatesDesk)
handle_delete delete b candidate_id s p = elim s.selected_election [
  | none ↦ (s, p)
  | some e ↦ if is_locked e then (s, p) else deleted (delete e.id candidate_id) b s p
]
