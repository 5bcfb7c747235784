-- ===== src/Layout/Examples.antt =====
-- The links that are highlighted on single pages.
use secure_vote.Base.{upper_is, none, false, ◌≡◌, refl, [], ◌∷◌, List}
use secure_vote.Layout.Sidebar.{
  NavItem, results_and_verification, integrity_and_security, administration, all_items, is_current,
  highlighted,
}
use secure_vote.Layout.Badges.{badge_colour, dot_colour, rose, gray, emerald, offers, selector}
use secure_vote.Types.{opened}
use secure_vote.Types.Samples.{sample_election}
use secure_vote.Layout.Highlight.{highlighted-is_only}

abbrev devices_link : NavItem
devices_link = record { label = "Devices"; href = "/election/devices" }

abbrev earlier_links : List NavItem
earlier_links =
    record { label = "Dashboard"; href = "/command" }
    ∷ record { label = "Election Setup"; href = "/election/setup" }
    ∷ record { label = "Candidates"; href = "/election/candidates" }
    ∷ record { label = "Polling Stations"; href = "/election/polling-stations" }
    ∷ []

abbrev later_links : List NavItem
later_links =
    record { label = "Polling"; href = "/election/polling" }
    ∷ all_items (results_and_verification ∷ integrity_and_security ∷ administration ∷ [])

highlighted-is_only_example : highlighted "/election/devices/EVM-1" ≡ devices_link ∷ []
unfolding is_current
highlighted-is_only_example =
    highlighted-is_only "/election/devices/EVM-1" earlier_links devices_link later_links refl refl

none_test : highlighted "/results" ≡ []
unfolding highlighted
none_test = refl

badge_test :
    (badge_colour "Tamper_Detected" ≡ rose)
    × (dot_colour "TAMPER_DETECTED" ≡ gray)
    × (badge_colour "open" ≡ emerald)
unfolding badge_colour dot_colour upper_is
badge_test = (refl, refl, refl)

selector_test :
    selector (record {
      elections = sample_election "E1" opened ∷ [];
      selected_election = none;
      loading = false;
    })
    ≡ offers "" (("E1", "E1 (OPEN)") ∷ [])
unfolding selector
selector_test = refl
