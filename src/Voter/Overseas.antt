-- ===== src/Voter/Overseas.antt =====
-- dashboard/app/(public)/voter/overseas/page.tsx: the handlers, each as a whole. The backend's answers
-- are values of a type `A`, which the contract leaves open; alerts are kept as texts.
use secure_vote.Base.{String, Bool, true, false, Option, some, List, ◌∷◌, ◌<>◌, Reply, ok, failed}

pub record OverseasPage (A : Type 0) : Type 0 where
  pub framework : Option A
  pub full_name : String
  pub passport_number : String
  pub country : String
  pub visa_type : String
  pub constituency : String
  pub dob : String
  pub form_6a_result : Option A
  pub submitting_6a : Bool
  pub consulate_city : String
  pub consular_result : Option A
  pub simulating_consular : Bool
  pub alerts : List String

pub record FormSixA : Type 0 where
  pub full_name : String
  pub passport_number : String
  pub country_of_residence : String
  pub visa_type : String
  pub home_constituency : String
  pub date_of_birth : String

pub record ConsularSession : Type 0 where
  pub passport_number : String
  pub country : String
  pub consulate_city : String
  pub election_id : String

module _ {A : Type 0} where
  abbrev pub load_framework : Reply A → OverseasPage A → OverseasPage A
  load_framework (ok a) p = record p { framework = some a }
  load_framework (failed m) p = p

  abbrev pub form_6a_of : OverseasPage A → FormSixA
  form_6a_of p = record {
    full_name = p.full_name;
    passport_number = p.passport_number;
    country_of_residence = p.country;
    visa_type = p.visa_type;
    home_constituency = p.constituency;
    date_of_birth = p.dob;
  }

  abbrev pub form_6a_submitted : Reply A → OverseasPage A → OverseasPage A
  form_6a_submitted (ok a) p = record p { form_6a_result = some a; submitting_6a = false }
  form_6a_submitted (failed m) p = record p {
    alerts = ("Submission failed: " <> m) ∷ p.alerts;
    submitting_6a = false;
  }

  unfoldable pub handle_form_6a_submit : (FormSixA → Reply A) → OverseasPage A → OverseasPage A
  handle_form_6a_submit submit p =
      form_6a_submitted (submit (form_6a_of p)) (record p { submitting_6a = true })

  abbrev pub session_of : OverseasPage A → ConsularSession
  session_of p = record {
    passport_number = p.passport_number;
    country = p.country;
    consulate_city = p.consulate_city;
    election_id = "EV-2026-001";
  }

  abbrev pub consular_simulated : Reply A → OverseasPage A → OverseasPage A
  consular_simulated (ok a) p = record p { consular_result = some a; simulating_consular = false }
  consular_simulated (failed m) p = record p {
    alerts = ("Simulation failed: " <> m) ∷ p.alerts;
    simulating_consular = false;
  }

  unfoldable pub handle_consular_simulate :
      (ConsularSession → Reply A) → OverseasPage A → OverseasPage A
  handle_consular_simulate simulate p =
      consular_simulated (simulate (session_of p)) (record p { simulating_consular = true })
