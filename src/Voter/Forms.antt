-- ===== src/Voter/Forms.antt =====
-- dashboard/app/(public)/voter: the forms of register/page.tsx, eligibility/page.tsx, status/page.tsx
-- and complaints/page.tsx. The message of a failed reply is the text of `formatApiError`.
use secure_vote.Base.{
  String, Bool, true, false, not, Option, none, some, if◌then◌else◌, truthy, or_text, trim, Reply,
  ok, failed,
}
use secure_vote.Types.Registers.{VoterResponse, EligibilityCheckResponse, ComplaintResponse}

pub record VoterForm : Type 0 where
  pub full_name : String
  pub date_of_birth : String
  pub constituency : String

-- What a form sends.
pub record VoterPayload : Type 0 where
  pub name : String
  pub date_of_birth : String
  pub constituency : String

abbrev pub payload_of : VoterForm → VoterPayload
payload_of f = record {
  name = f.full_name;
  date_of_birth = f.date_of_birth;
  constituency = f.constituency;
}

abbrev pub empty_form : VoterForm
empty_form = record { full_name = ""; date_of_birth = ""; constituency = "" }

pub record RegisterPage : Type 0 where
  pub form_data : VoterForm
  pub loading : Bool
  pub error : Option String
  pub success_data : Option String

-- The voter's number is kept of the reply.
abbrev registered : Reply VoterResponse → RegisterPage → RegisterPage
registered (ok v) p = record p { success_data = some v.voter_id_number; loading = false }
registered (failed m) p = record p { error = some m; loading = false }

unfoldable pub submit_registration :
    (String → VoterPayload → Reply VoterResponse) → RegisterPage → RegisterPage
submit_registration register_voter p =
    registered (register_voter "mock-election" (payload_of p.form_data))
      (record p { loading = true; error = none })

unfoldable pub reset_form : RegisterPage → RegisterPage
reset_form p = record p { form_data = empty_form; success_data = none; error = none }

pub record EligibilityPage : Type 0 where
  pub form_data : VoterForm
  pub loading : Bool
  pub error : Option String
  pub result : Option EligibilityCheckResponse

abbrev checked : Reply EligibilityCheckResponse → EligibilityPage → EligibilityPage
checked (ok r) p = record p { result = some r; loading = false }
checked (failed m) p = record p { error = some m; loading = false }

unfoldable pub submit_check :
    (String → VoterPayload → Reply EligibilityCheckResponse) → EligibilityPage → EligibilityPage
submit_check check_eligibility p =
    checked (check_eligibility "mock-election" (payload_of p.form_data))
      (record p { loading = true; error = none; result = none })

pub record StatusPage : Type 0 where
  pub voter_id : String
  pub loading : Bool
  pub error : Option String
  pub voter_data : Option VoterResponse

abbrev looked_up : Reply VoterResponse → StatusPage → StatusPage
looked_up (ok v) p = record p { voter_data = some v; loading = false }
looked_up (failed m) p = record p { error = some m; loading = false }

-- The identifier is tested without the blanks around it, and sent with them.
unfoldable pub handle_search : (String → String → Reply VoterResponse) → StatusPage → StatusPage
handle_search lookup_voter p =
    if not (truthy (trim p.voter_id))
    then p
    else looked_up (lookup_voter "mock-election" p.voter_id)
        (record p { loading = true; error = none; voter_data = none })

pub record ComplaintForm : Type 0 where
  pub category : String
  pub description : String
  pub name : String
  pub contact : String

pub record ComplaintBody : Type 0 where
  pub category : String
  pub description : String
  pub complainant_name : String
  pub complainant_contact : String
  pub election_id : String

pub record TrackedComplaint : Type 0 where
  pub reference : String
  pub category : String
  pub status : String
  pub description : String
  pub resolution_notes : String
  pub created_at : String

pub record ComplaintsPage : Type 0 where
  pub file_data : ComplaintForm
  pub file_loading : Bool
  pub file_error : Option String
  pub file_success : Option String
  pub track_id : String
  pub track_loading : Bool
  pub track_error : Option String
  pub track_data : Option TrackedComplaint

abbrev pub body_of : ComplaintForm → ComplaintBody
body_of f = record {
  category = f.category;
  description = f.description;
  complainant_name = f.name;
  complainant_contact = f.contact;
  election_id = "EV-2026-001";
}

abbrev filed : Reply ComplaintResponse → ComplaintsPage → ComplaintsPage
filed (ok c) p = record p { file_success = some c.reference_number; file_loading = false }
filed (failed m) p = record p { file_error = some m; file_loading = false }

unfoldable pub handle_file_submit :
    (ComplaintBody → Reply ComplaintResponse) → ComplaintsPage → ComplaintsPage
handle_file_submit submit_complaint p =
    filed (submit_complaint (body_of p.file_data))
      (record p { file_loading = true; file_error = none })

abbrev pub tracked_of : ComplaintResponse → TrackedComplaint
tracked_of c = record {
  reference = c.reference_number;
  category = c.category;
  status = c.status;
  description = c.description;
  resolution_notes =
      or_text c.resolution_notes
        "Your complaint has been received and is being processed by election officers.";
  created_at = c.created_at;
}

abbrev tracked : Reply ComplaintResponse → ComplaintsPage → ComplaintsPage
tracked (ok c) p = record p { track_data = some (tracked_of c); track_loading = false }
tracked (failed m) p = record p { track_error = some m; track_loading = false }

unfoldable pub handle_track_submit :
    (String → Reply ComplaintResponse) → ComplaintsPage → ComplaintsPage
handle_track_submit track_complaint p =
    if not (truthy (trim p.track_id))
    then p
    else tracked (track_complaint (trim p.track_id))
        (record p { track_loading = true; track_error = none; track_data = none })
