-- ===== src/Layout/Sidebar.antt =====
-- dashboard/components/layout/Sidebar.tsx: the sections of links and which link is highlighted.
use secure_vote.Base.{String, Bool, ◌||◌, List, [], ◌∷◌, starts_with, keep, ◌++◌, ◌<>◌, ◌===◌}

pub record NavItem : Type 0 where
  pub label : String
  pub href : String

pub record NavSection : Type 0 where
  pub title : String
  pub items : List NavItem

abbrev pub overview : NavSection
overview = record {
  title = "Overview";
  items = record { label = "Dashboard"; href = "/command" } ∷ [];
}

abbrev pub election_operations : NavSection
election_operations = record {
  title = "Election Operations";
  items =
      record { label = "Election Setup"; href = "/election/setup" }
      ∷ record { label = "Candidates"; href = "/election/candidates" }
      ∷ record { label = "Polling Stations"; href = "/election/polling-stations" }
      ∷ record { label = "Devices"; href = "/election/devices" }
      ∷ record { label = "Polling"; href = "/election/polling" }
      ∷ [];
}

abbrev pub results_and_verification : NavSection
results_and_verification = record {
  title = "Results & Verification";
  items =
      record { label = "Counting Center"; href = "/election/counting" }
      ∷ record { label = "Results"; href = "/election/results" }
      ∷ record { label = "Verification"; href = "/election/verification" }
      ∷ [];
}

abbrev pub integrity_and_security : NavSection
integrity_and_security = record {
  title = "Integrity & Security";
  items =
      record { label = "Audit Explorer"; href = "/election/audit" }
      ∷ record { label = "Security Center"; href = "/election/security" }
      ∷ record { label = "Attack Demo"; href = "/election/attacks" }
      ∷ [];
}

abbrev pub administration : NavSection
administration = record {
  title = "Administration";
  items =
      record { label = "Complaints"; href = "/election/complaints" }
      ∷ record { label = "Simulation"; href = "/election/simulation" }
      ∷ record { label = "Transparency"; href = "/election/transparency" }
      ∷ [];
}

abbrev pub nav_sections : List NavSection
nav_sections =
    overview ∷ election_operations ∷ results_and_verification ∷ integrity_and_security
    ∷ administration ∷ []

abbrev pub all_items : List NavSection → List NavItem
all_items [] = []
all_items (s ∷ ss) = s.items ++ all_items ss

-- `pathname === item.href || pathname.startsWith(item.href + "/")`
unfoldable pub is_current : String → NavItem → Bool
is_current pathname item = pathname === item.href || starts_with pathname (item.href <> "/")

-- The links that are highlighted.
unfoldable pub highlighted : String → List NavItem
unfolding is_current
highlighted pathname = keep (is_current pathname) (all_items nav_sections)
