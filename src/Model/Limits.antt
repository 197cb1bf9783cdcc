-- ===== src/Model/Limits.antt =====
-- internal/model/limits.go: the canonical limits of the public forms.
use proindustrial_backend.Common.{ℕ, ◌^◌}

abbrev pub min_company_name : ℕ
min_company_name = 3

abbrev pub max_company_name : ℕ
max_company_name = 120

abbrev pub max_email : ℕ
max_email = 150

abbrev pub min_phone : ℕ
min_phone = 7

abbrev pub max_phone : ℕ
max_phone = 30

abbrev pub max_region : ℕ
max_region = 100

abbrev pub max_services : ℕ
max_services = 10

abbrev pub max_service_slug : ℕ
max_service_slug = 40

abbrev pub min_description : ℕ
min_description = 40

abbrev pub max_description : ℕ
max_description = 600

abbrev pub max_rejection_reason : ℕ
max_rejection_reason = 500

abbrev pub max_slug_base : ℕ
max_slug_base = 80

-- `1 << 20`
abbrev pub max_body_bytes : ℕ
max_body_bytes = 2 ^ 20
