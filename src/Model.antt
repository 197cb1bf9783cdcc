-- ===== src/Model.antt =====
-- internal/model: the rows of the database and the limits of the public forms.
-- A `NullString`, `NullTime` or `NullInt64`, and a nil-able `*time.Time`, is an `Option`. A time is a
-- natural number. Identifiers, states and hashes are only compared, so they are native
-- strings; what the program trims, lowers, measures or builds is a `Text`.
pub mod Limits
pub mod Nullable
use proindustrial_backend.Common.{
  Bool, List, Option, String, false, leb, ltb, suc, true, zero, ℕ, ◌+◌, ◌^◌,
}
use proindustrial_backend.Common.Text.{Text}

-- `int` and `int64` columns.
pub data ℤ : Type 0 where
  pos : ℕ → ℤ
  negsuc : ℕ → ℤ

-- The successor and the order of `INTEGER` values.
abbrev pub suc_int : ℤ → ℤ
suc_int (pos n) = pos (n + 1)
suc_int (negsuc zero) = pos 0
suc_int (negsuc (suc n)) = negsuc n

abbrev pub leb_int : ℤ → ℤ → Bool
leb_int (pos m) (pos n) = leb m n
leb_int (pos m) (negsuc n) = false
leb_int (negsuc m) (pos n) = true
leb_int (negsuc m) (negsuc n) = leb n m

-- The range of an `INTEGER` column.
unfoldable pub is_int4 : ℤ → Bool
is_int4 (pos n) = ltb n (2 ^ 31)
is_int4 (negsuc n) = ltb n (2 ^ 31)

pub record Company : Type 0 where
  pub id : String
  pub slug : Text
  pub name : Text
  pub tagline : Option Text
  pub description : Option Text
  pub location : Option Text
  pub region : Option Text
  pub categories : List Text
  pub services : List Text
  pub phone : Option Text
  pub email : Option Text
  pub website : Option Text
  pub years_active : Option ℤ
  pub featured : Bool
  pub logo_url : Option Text
  pub cover_url : Option Text
  pub created_at : ℕ
  pub updated_at : ℕ

pub record ServiceImage : Type 0 where
  pub id : String
  pub service_id : String
  pub url : Text
  pub alt_text : Option Text
  pub sort_order : ℤ
  pub created_at : ℕ

pub record CompanyCertification : Type 0 where
  pub id : String
  pub company_id : String
  pub name : Text
  pub issuer : Option Text
  pub document_url : Option Text
  pub issued_at : Option Text
  pub expires_at : Option Text
  pub created_at : ℕ

-- `Images` is no column: the queries attach it.
pub record CompanyProject : Type 0 where
  pub id : String
  pub company_id : String
  pub title : Text
  pub description : Option Text
  pub client_name : Option Text
  pub year : Option ℤ
  pub cover_url : Option Text
  pub sort_order : ℤ
  pub created_at : ℕ

pub record ProjectImage : Type 0 where
  pub id : String
  pub project_id : String
  pub url : Text
  pub alt_text : Option Text
  pub sort_order : ℤ

pub record User : Type 0 where
  pub id : String
  pub email : Text
  pub password_hash : String
  pub company_id : Option String
  pub role : String
  pub must_change_password : Bool
  pub created_at : ℕ

pub record QuoteRequest : Type 0 where
  pub id : String
  pub requester_name : Text
  pub requester_company : Option Text
  pub requester_email : Text
  pub requester_phone : Option Text
  pub service : Text
  pub description : Option Text
  pub location : Option Text
  pub target_company_id : Option String
  pub status : String
  pub reply_note : Option Text
  pub replied_at : Option ℕ
  pub outcome : Option String
  pub outcome_note : Option Text
  pub closed_at : Option ℕ
  pub first_response_at : Option ℕ
  pub tags : List Text
  pub follow_up_at : Option ℕ
  pub outcome_amount_clp : Option ℤ
  pub created_at : ℕ

pub record CompanyEvent : Type 0 where
  pub id : String
  pub company_id : String
  pub event_type : String
  pub created_at : ℕ

-- `Images` is no column: the queries attach it.
pub record CompanyService : Type 0 where
  pub id : String
  pub company_id : String
  pub name : Text
  pub category : Option Text
  pub description : Option Text
  pub status : String
  pub created_at : ℕ

pub record ProviderRegistration : Type 0 where
  pub id : String
  pub company_name : Text
  pub email : Text
  pub phone : Option Text
  pub region : Option Text
  pub services : List Text
  pub description : Option Text
  pub status : String
  pub created_at : ℕ
  pub company_id : Option String
  pub user_id : Option String
  pub approved_at : Option ℕ
  pub email_status : Option String
  pub email_note : Option Text
  pub rejection_reason : Option Text
  pub rejected_at : Option ℕ

pub record SubSubcategory : Type 0 where
  pub slug : Text
  pub name : Text

pub record Subcategory : Type 0 where
  pub slug : Text
  pub name : Text
  pub description : Text
  pub icon : String
  pub children : List SubSubcategory

pub record CategoryGroup : Type 0 where
  pub slug : Text
  pub name : Text
  pub description : Text
  pub icon : String
  pub subcategories : List Subcategory
