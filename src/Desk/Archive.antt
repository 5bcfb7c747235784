-- ===== src/Desk/Archive.antt =====
-- dashboard/app/(officer)/election: the export of reports/page.tsx, and what transparency/page.tsx shows
-- next to the selected election.
use secure_vote.Base.{
  ℕ, String, Bool, false, Option, none, some, or_text, ◌<>◌, ◌===◌, Reply, ok, failed,
}
use secure_vote.Types.{ElectionResponse, state_text, TransparencyOverview}

-- reports/page.tsx, with the last alert.
pub record ReportsDesk : Type 0 where
  pub exporting : Bool
  pub alerted : Option String

abbrev pub downloaded {ℓ} :
    {A : Type ℓ} → String → Reply A → ReportsDesk → (ReportsDesk × Option (String × A))
downloaded id (ok archive) p =
    (record p { exporting = false }, some ("export_" <> (id <> ".json"), archive))
downloaded id (failed m) p = (
  record {
    exporting = false;
    alerted = some ("Failed to export: " <> or_text (some m) "Unknown error");
  },
  none,
)

-- The file that a press of the button downloads, if any.
unfoldable pub handle_export_archive {ℓ} :
    {A : Type ℓ}
    → Option ElectionResponse
    → (String → Reply A)
    → ReportsDesk
    → (ReportsDesk × Option (String × A))
handle_export_archive none export p = (p, none)
handle_export_archive (some e) export p = downloaded e.id (export e.id) p

-- transparency/page.tsx: `data` has no title, so the selected election's is shown.
pub record Preview : Type 0 where
  pub title : Option String
  pub state : String
  pub total_ballots : ℕ
  pub is_published : Bool

abbrev preview_of : Option String → String → ℕ → Preview
preview_of title state ballots = record {
  title = title;
  state = state;
  total_ballots = ballots;
  is_published = state === "PUBLISHED";
}

unfoldable pub preview : ElectionResponse → Option TransparencyOverview → Preview
preview e none = preview_of e.title (state_text e.state) e.ballot_count
preview e (some o) =
    preview_of e.title (or_text (some o.state) (state_text e.state)) o.total_ballots
