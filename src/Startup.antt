-- ===== src/Startup.antt =====
-- cmd/server/main.go, and the part of internal/router/router.go that says which proxies are trusted.
-- The connection to the database, its migrations, and the server of `net/http` are libraries: what
-- comes of the first two is a parameter, and the third gets the record `Server`. The log lines are
-- left out.
pub mod Proxies
use proindustrial_backend.Common.{
  Bool, List, Option, String, [], false, if◌then◌else◌, inl, inr, nat_eq, none, some, string_eq,
  text_eq, true, ℕ, ◌!=◌, ◌++◌, ◌==◌, ◌∷◌, ◌⊎◌,
}
use proindustrial_backend.Common.Text.{Text, codes, trim_space}
use proindustrial_backend.Settings.{Config, load}
use proindustrial_backend.Storage.{
  Bucket, Disk, Paths, Provider, StorageConfig, StorageError, new_provider,
}

-- `strings.Split(s, ",")`: a text without a comma is its one part.
abbrev pub put_first : ℕ → List Text → List Text
put_first c [] = (c ∷ []) ∷ []
put_first c (p ∷ ps) = (c ∷ p) ∷ ps

unfoldable pub split_commas : Text → List Text
split_commas [] = [] ∷ []
split_commas (c ∷ s) = if c == b',' then [] ∷ split_commas s else put_first c (split_commas s)

-- The loop of `splitList`.
abbrev pub keep_part : Text → List Text → List Text
keep_part [] out = out
keep_part (c ∷ s) out = (c ∷ s) ∷ out

unfoldable pub trimmed_parts : List Text → List Text
trimmed_parts [] = []
trimmed_parts (p ∷ ps) = keep_part (trim_space p) (trimmed_parts ps)

-- `splitList`
unfoldable pub split_list : Text → List Text
split_list raw = trimmed_parts (split_commas raw)

-- Whose word on the address of a client gin takes.
pub data Trust : Type 0 where
  platform : Text → Trust
  proxies : List Text → Trust
  anyone : Trust

-- A list that gin refuses leaves its default, which is to trust anyone.
abbrev pub trust_proxies : (List Text → Bool) → List Text → Trust
trust_proxies valid [] = anyone
trust_proxies valid (p ∷ ps) = if valid (p ∷ ps) then proxies (p ∷ ps) else anyone

-- The `switch` of `Setup`.
unfoldable pub trusted : (List Text → Bool) → Text → List Text → Trust
trusted valid [] ps = trust_proxies valid ps
trusted valid (c ∷ s) ps = platform (c ∷ s)

abbrev pub storage_config : Config → StorageConfig
storage_config cfg = record {
  driver = cfg.storage_driver;
  base_url = codes cfg.app_base_url ++ codes "/uploads";
  dir = codes cfg.storage_dir;
  s3_bucket = codes cfg.s3_bucket;
  s3_public_base = codes cfg.s3_public_base;
}

-- The seconds of the timeouts of `http.Server`.
pub record Timeouts : Type 0 where
  pub read_header : ℕ
  pub read : ℕ
  pub write : ℕ
  pub idle : ℕ

abbrev pub timeouts : Timeouts
timeouts = record { read_header = 10; read = 30; write = 60; idle = 120 }

-- `store` is `none` for a provider that could not be made: the server starts without one.
pub record Server (S : Type 0) : Type 0 where
  pub address : Text
  pub jwt_secret : String
  pub cors_origin : Text
  pub initial_password : String
  pub app_env : String
  pub static_dir : Option Text
  pub store : Option (Provider S)
  pub trust : Trust
  pub limits : Timeouts

abbrev pub provider_of : {S : Type 0} → StorageError ⊎ Provider S → Option (Provider S)
provider_of (inl e) = none
provider_of (inr p) = some p

-- `if deps.StorageDir != ""`
abbrev pub static_of : String → Option Text
static_of dir = if dir == "" then none else some (codes dir)

module _ {S : Type 0} (paths : Paths) (disk : Disk S) (loads : Bool) (bucket : Bucket S)
    (valid : List Text → Bool) where
  unfoldable pub server_of : Config → Option (Provider S) → Server S
  server_of cfg store = record {
    address = b':' ∷ codes cfg.port;
    jwt_secret = cfg.jwt_secret;
    cors_origin = codes cfg.cors_origin;
    initial_password = cfg.initial_password;
    app_env = cfg.app_env;
    static_dir = static_of cfg.storage_dir;
    store = store;
    trust = trusted valid (codes cfg.trusted_platform) (split_list (codes cfg.trusted_proxies));
    limits = timeouts;
  }

  abbrev pub connected :
      Bool → Bool → Config → (StorageError ⊎ Provider S) × S → Option (Server S) × S
  connected connects migrates cfg (made, s) =
      if connects
      then if migrates then (some (server_of cfg (provider_of made)), s) else (none, s)
      else (none, s)

  abbrev pub configured : Bool → Bool → Option Config → S → Option (Server S) × S
  configured connects migrates none s = (none, s)
  configured connects migrates (some cfg) s =
      connected connects migrates cfg (new_provider paths disk loads bucket (storage_config cfg) s)

  -- `main`, up to `ListenAndServe`: `none` is `log.Fatal`.
  unfoldable pub start : (String → String) → Bool → Bool → S → Option (Server S) × S
  start env connects migrates s = configured connects migrates (load env) s
