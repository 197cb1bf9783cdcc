-- ===== src/Examples.antt =====
-- Test data: a database that never fails, with two companies, and a registration of each state.
mod Texts
mod Repository
mod Requests
mod Panel
mod Media
mod Onboarding
mod Handlers
use proindustrial_backend.Common.{Option, String, [], false, none, some, suc, true, zero, ℕ, ◌∷◌}
use proindustrial_backend.Common.Text.{codes}
use proindustrial_backend.Database.{Db, Driver, Result, World, err, ok}
use proindustrial_backend.Http.{Reply, answer, refuse}
use proindustrial_backend.Model.{Company, ProviderRegistration, User}

abbrev pub driver : Driver
driver = record {
  fails = λ t. false;
  uuid = λ t. elim t [ zero ↦ "id-0" | suc n ↦ "id-n" ];
  now = λ t. t;
  lower = λ s. s;
  date = λ s. some s;
  users_email_lower_uniq = true;
  pending_email_uniq = true;
}

abbrev pub same : ℕ → ℕ
same c = c

abbrev pub company : String → String → Company
company id name = record {
  id = id;
  slug = codes name;
  name = codes name;
  tagline = none;
  description = none;
  location = none;
  region = none;
  categories = [];
  services = [];
  phone = none;
  email = none;
  website = none;
  years_active = none;
  featured = false;
  logo_url = none;
  cover_url = none;
  created_at = 0;
  updated_at = 0;
}

abbrev pub registration : String → String → Option String → ProviderRegistration
registration id status company_id = record {
  id = id;
  company_name = codes "Uno";
  email = codes "a@b.cl";
  phone = none;
  region = none;
  services = codes "termofusion" ∷ [];
  description = none;
  status = status;
  created_at = 0;
  company_id = company_id;
  user_id = none;
  approved_at = none;
  email_status = none;
  email_note = none;
  rejection_reason = none;
  rejected_at = none;
}

abbrev pub provider : User
provider = record {
  id = "u1";
  email = codes "x@y.cl";
  password_hash = "h";
  company_id = some "c1";
  role = "provider";
  must_change_password = true;
  created_at = 0;
}

abbrev pub db : Db
db = record {
  companies = company "c1" "uno" ∷ company "c2" "dos" ∷ [];
  users = provider ∷ [];
  registrations = registration "r1" "pending" none ∷ registration "r2" "approved" (some "c1") ∷ [];
  quotes = [];
  services = [];
  service_images = [];
  certifications = [];
  projects = [];
  project_images = [];
  service_regions = [];
  events = [];
}

abbrev pub world : World
world = record { db = db; tick = 0 }

-- The value of a result, and of a reply, or a default.
abbrev pub from_ok : {A : Type 0} → A → Result A → A
from_ok a (ok b) = b
from_ok a (err e) = a

abbrev pub from_reply : {A : Type 0} → A → Reply A → A
from_reply a (answer code b) = b
from_reply a (refuse code message) = a
