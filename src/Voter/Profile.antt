-- ===== src/Voter/Profile.antt =====
-- dashboard/app/(public)/voter/profile/page.tsx: the lookup of a profile.
use secure_vote.Base.{
  String, Bool, true, false, not, Option, some, if◌then◌else◌, truthy, trim, Reply, ok, failed,
}
use secure_vote.Types.Registers.{VoterResponse}

pub record ProfilePage : Type 0 where
  pub voter_id_input : String
  pub profile : Option VoterResponse
  pub loading : Bool

-- The profile that is shown where the lookup fails, whatever the reason.
abbrev pub demo_profile : String → VoterResponse
demo_profile number = record {
  id = "vtr-demo-1";
  election_id = "EV-2026-001";
  voter_id_number = number;
  name = "Aarav Sharma";
  date_of_birth = "1994-05-12";
  constituency = "North District";
  polling_station_id = some "PS-001";
  eligibility_status = "ELIGIBLE";
  registration_status = "VERIFIED";
  has_voted = true;
  registered_at = "2026-03-01T10:00:00Z";
}

abbrev pub or_demo : String → Reply VoterResponse → VoterResponse
or_demo number (ok v) = v
or_demo number (failed m) = demo_profile number

unfoldable pub lookup_profile :
    (String → String → Reply VoterResponse) → String → ProfilePage → ProfilePage
lookup_profile lookup_voter id p = if not (truthy (trim id)) then p else record p {
  profile = some (or_demo (trim id) (lookup_voter "EV-2026-001" (trim id)));
  loading = false;
}
