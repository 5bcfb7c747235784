-- ===== src/Auth/Login.antt =====
-- dashboard/app/login/page.tsx. The reply is that of the provider's `login`.
use secure_vote.Base.{String, Bool, true, false, Option, none, some, or_text, Reply, ok, failed}

pub record LoginPage : Type 0 where
  pub username : String
  pub password : String
  pub error : Option String
  pub loading : Bool

abbrev pub logged_in {ℓ} : {A : Type ℓ} → Reply A → LoginPage → LoginPage
logged_in (ok u) p = record p { loading = false }
logged_in (failed m) p = record p {
  error = some (or_text (some m) "Failed to log in. Please verify credentials.");
  loading = false;
}

unfoldable pub handle_submit {ℓ} :
    {A : Type ℓ} → (String → String → Reply A) → LoginPage → LoginPage
handle_submit login p =
    logged_in (login p.username p.password) (record p { error = none; loading = true })

unfoldable pub set_demo_creds : String → String → LoginPage → LoginPage
set_demo_creds u pw p = record p { username = u; password = pw; error = none }
