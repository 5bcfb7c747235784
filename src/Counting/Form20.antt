-- ===== src/Counting/Form20.antt =====
-- dashboard/app/(officer)/election/counting/page.tsx: the result sheet that the page exports.
-- Shares of the vote are JavaScript numbers with a fraction; their type, its 0 and `toFixed(2)` are
-- parameters.
use secure_vote.Base.{
  ℕ, String, Option, none, some, List, [], ◌∷◌, map, get_or, or_text, decimal, ◌<>◌,
}

pub record SheetResult (Number : Type 0) : Type 0 where
  pub candidate_id : String
  pub candidate_name : Option String
  pub name : Option String
  pub party : Option String
  pub vote_count : Option ℕ
  pub votes : Option ℕ
  pub percentage : Option Number

abbrev pub header : String
header = "Candidate ID,Candidate Name,Party,Votes,Percentage\n"

abbrev pub quoted : String → String
quoted s = "\"" <> (s <> "\"")

-- `lines.join("\n")`
abbrev pub join_lines : List String → String
join_lines [] = ""
join_lines (r ∷ []) = r
join_lines (r ∷ s ∷ rs) = r <> ("\n" <> join_lines (s ∷ rs))

module _ {Number : Type 0} where
  -- `c.candidate_name || c.name || ''`
  abbrev pub name_of : SheetResult Number → String
  name_of c = or_text c.candidate_name (or_text c.name "")

  -- `c.vote_count ?? c.votes ?? 0`
  abbrev pub votes_in : SheetResult Number → ℕ
  votes_in c = get_or c.vote_count (get_or c.votes 0)

module _ {Number : Type 0} (zero_share : Number) (to_fixed : Number → String) where
  abbrev pub share_of : SheetResult Number → String
  share_of c = to_fixed (get_or c.percentage zero_share) <> "%"

  unfoldable pub csv_row : SheetResult Number → String
  csv_row c =
      quoted c.candidate_id
      <> (","
          <> (quoted (name_of c)
              <> (","
                  <> (quoted (or_text c.party "IND")
                      <> ("," <> (decimal (votes_in c) <> ("," <> share_of c)))))))

  -- The name and the text of the file, where there are results.
  unfoldable pub handle_export_csv :
      (election_id : String) → Option (List (SheetResult Number)) → Option (String × String)
  unfolding csv_row
  handle_export_csv election_id none = none
  handle_export_csv election_id (some cs) =
      some ("Form20-ResultSheet-" <> (election_id <> ".csv"), header <> join_lines (map csv_row cs))
