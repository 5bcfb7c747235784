-- ===== src/Portal/Transparency.antt =====
-- dashboard/app/(public)/transparency: page.tsx, the list of elections, and elections/[id]/page.tsx,
-- one election. `Result` is the type of the published results, which the contract leaves open.
use secure_vote.Base.{
  String, Bool, true, false, ◌||◌, Option, none, some, List, [], not, truthy, arith, if◌then◌else◌,
  ◌<>◌, ◌===◌, ◌↔◌, ◌⊎◌, eq_iff, Reply, ok, failed, or_else, ◌≡◌, refl,
}
use secure_vote.Types.{TransparencyOverview, CandidateResponse}
use secure_vote.Portal.{or_null}

pub record ListPage : Type 0 where
  pub elections : List TransparencyOverview
  pub loading : Bool
  pub error : Option String

abbrev pub load_elections : Reply (List TransparencyOverview) → ListPage → ListPage
load_elections (ok os) p = record p { elections = os; loading = false }
load_elections (failed m) p = record p {
  error = some "Unable to connect to transparency service";
  loading = false;
}

pub record DetailPage (Result : Type 0) : Type 0 where
  pub overview : Option TransparencyOverview
  pub candidates : List CandidateResponse
  pub results_data : Option Result
  pub loading : Bool
  pub error : Option String

pub record Backend (Result : Type 0) : Type 0 where
  pub get_transparency_overview : String → Reply TransparencyOverview
  pub get_transparency_candidates : String → Reply (List CandidateResponse)
  pub get_transparency_results : String → Reply Result

-- The states in which the results are asked for.
abbrev pub is_final : TransparencyOverview → Bool
is_final o = o.state === "CLOSED" || o.state === "PUBLISHED"

-- The backend has the election, which is closed or published.
abbrev pub IsFinal : Reply TransparencyOverview → Type 0
IsFinal (ok o) = (o.state ≡ "CLOSED") ⊎ (o.state ≡ "PUBLISHED")
IsFinal (failed m) = ⊥

is_final_iff : (o : TransparencyOverview) → (is_final o ≡ true) ↔ IsFinal (ok o)
is_final_iff o = ground (arith, eq_iff o.state "CLOSED", eq_iff o.state "PUBLISHED")

module _ {Result : Type 0} where
  abbrev pub show_overview :
      String → Reply TransparencyOverview → Reply Result → DetailPage Result → DetailPage Result
  show_overview election_id (ok o) results p = record p {
    overview = some o;
    results_data = if is_final o then or_null results else p.results_data;
  }
  show_overview election_id (failed m) results p = record p {
    error = some ("Election " <> (election_id <> " not found or unavailable."));
  }

  unfoldable pub load_election_details :
      String → Backend Result → DetailPage Result → DetailPage Result
  load_election_details election_id b p =
      if not (truthy election_id)
      then p
      else record (show_overview election_id (b.get_transparency_overview election_id)
          (b.get_transparency_results election_id) p) {
            candidates = or_else (b.get_transparency_candidates election_id) [];
            loading = false;
          }

  chosen_iff :
      (b : Bool) (reply : Reply Result) (old : Option Result) (r : Result)
      → old ≡ none
      → ((if b then or_null reply else old) ≡ some r) ↔ ((b ≡ true) × (reply ≡ ok r))
  chosen_iff true (ok s) old r fresh = (λ e. (refl, cc e), λ (_, e). cc e)
  chosen_iff true (failed m) old r fresh = (λ e. cc e, λ (_, e). cc e)
  chosen_iff false reply old r fresh = (λ e. cc (fresh, e), λ (e, _). cc e)

  show_overview-shown_iff :
      (k : String) (o : Reply TransparencyOverview) (reply : Reply Result) (p : DetailPage Result)
      (r : Result)
      → p.results_data ≡ none
      → ((show_overview k o reply p).results_data ≡ some r) ↔ (IsFinal o × (reply ≡ ok r))
  show_overview-shown_iff k (ok o) reply p r fresh =
      let (there, back) = chosen_iff (is_final o) reply p.results_data r fresh in
      let (to_final, from_final) = is_final_iff o in
      (λ e. (to_final (there e).0, (there e).1), λ (final, e). back (from_final final, e))
  show_overview-shown_iff k (failed m) reply p r fresh =
      (λ e. cc (fresh, e), λ (final, _). absurd final)

  loaded-shown_iff :
      (b : Bool) (p q : DetailPage Result) (cs : List CandidateResponse) (r : Result)
      → p.results_data ≡ none
      → ((if not b then p else record q { candidates = cs; loading = false }).results_data ≡ some r)
        ↔ ((b ≡ true) × (q.results_data ≡ some r))
  loaded-shown_iff true p q cs r fresh = (λ e. (refl, e), λ (_, e). e)
  loaded-shown_iff false p q cs r fresh = (λ e. cc (fresh, e), λ (e, _). cc e)

  -- A page without results that loads an election shows certain results exactly where the identifier of
  -- the election is not empty, the backend has the election and gives its state as CLOSED or PUBLISHED,
  -- and answers with these results.
  pub load_election_details-shown_iff :
      (k : String) (b : Backend Result) (p : DetailPage Result) (r : Result)
      → p.results_data ≡ none
      → ((load_election_details k b p).results_data ≡ some r) ↔ (
          (truthy k ≡ true)
          × IsFinal (b.get_transparency_overview k)
          × (b.get_transparency_results k ≡ ok r))
  unfolding load_election_details
  load_election_details-shown_iff k b p r fresh =
      let o = b.get_transparency_overview k in
      let reply = b.get_transparency_results k in
      let (there, back) =
        loaded-shown_iff (truthy k) p (show_overview k o reply p)
          (or_else (b.get_transparency_candidates k) []) r fresh in
      let (into, out) = show_overview-shown_iff k o reply p r fresh in
      (
        λ e. let (named, shown) = there e in (named, (into shown).0, (into shown).1),
        λ (named, final, given). back (named, out (final, given)),
      )
