-- ===== src/Storage.antt =====
-- internal/storage: where an uploaded file goes. The state of the disk or of the bucket, what their
-- operations do to it, and `path/filepath`, are parameters: `Disk`, `Bucket` and `Paths`.
pub mod Contract
use proindustrial_backend.Common.{
  Bool, String, [], if◌then◌else◌, inl, inr, nat_eq, string_eq, text_eq, ℕ, ◌++◌, ◌==◌, ◌||◌, ◌∷◌,
  ◌⊎◌,
}
use proindustrial_backend.Common.Text.{Text, codes}

pub record Upload : Type 0 where
  pub size : ℕ
  pub content_type : Text
  pub content : Text

pub data StorageError : Type 0 where
  mkdir_failed create_failed write_failed remove_failed : StorageError
  no_credentials put_failed delete_failed unknown_driver : StorageError

-- `storage.Provider`, over the state `S` that it stores in.
pub record Provider (S : Type 0) : Type 0 where
  pub upload : Text → Upload → S → (StorageError ⊎ Text) × S
  pub delete : Text → S → (StorageError ⊎ Unit {0}) × S
  pub public_url : Text → Text

-- `filepath.Join`, `filepath.FromSlash` and `filepath.Dir`.
pub record Paths : Type 0 where
  pub join : Text → Text → Text
  pub from_slash : Text → Text
  pub dir : Text → Text

-- What `os.Remove` answers.
pub data Removal : Type 0 where
  removed missing kept : Removal

-- `os.MkdirAll`, `os.Create`, `io.Copy` into the file that was created, and `os.Remove`.
pub record Disk (S : Type 0) : Type 0 where
  pub mkdir_all : Text → S → Bool × S
  pub create : Text → S → Bool × S
  pub copy : Text → Text → S → Bool × S
  pub remove : Text → S → Removal × S

-- `PutObject` and `DeleteObject` on a bucket.
pub record Bucket (S : Type 0) : Type 0 where
  pub put_object : Text → Text → Upload → S → Bool × S
  pub delete_object : Text → Text → S → Bool × S

pub record StorageConfig : Type 0 where
  pub driver : String
  pub base_url : Text
  pub dir : Text
  pub s3_bucket : Text
  pub s3_public_base : Text

-- `base + "/" + key`
abbrev pub url_under : Text → Text → Text
url_under base key = base ++ (b'/' ∷ key)

abbrev pub Storing : Type 0 → Type 0 → Type 0
Storing S A = S → (StorageError ⊎ A) × S

abbrev pub dir_or_default : Paths → Text → Text
dir_or_default paths [] = paths.join (codes ".") (codes "uploads")
dir_or_default paths (c ∷ s) = c ∷ s

module _ {S : Type 0} where
  -- A step that answers whether it succeeded, then the rest.
  unfoldable pub or_fail : {A : Type 0} → StorageError → (S → Bool × S) → Storing S A → Storing S A
  or_fail e step k s = let (b, s') = step s in if b then k s' else (inl e, s')

  abbrev pub done : {A : Type 0} → A → Storing S A
  done a s = (inr a, s)

  unfoldable pub local_upload : Paths → Disk S → Text → Text → Text → Upload → Storing S Text
  local_upload paths disk dir base key file =
      let dst = paths.join dir (paths.from_slash key) in
      or_fail mkdir_failed (disk.mkdir_all (paths.dir dst)) (
        or_fail create_failed (disk.create dst)
          (or_fail write_failed (disk.copy dst file.content) (done (url_under base key))))

  abbrev pub after_remove : Removal × S → (StorageError ⊎ Unit {0}) × S
  after_remove (removed, s) = (inr tt, s)
  after_remove (missing, s) = (inr tt, s)
  after_remove (kept, s) = (inl remove_failed, s)

  unfoldable pub local_delete : Paths → Disk S → Text → Text → Storing S (Unit {0})
  local_delete paths disk dir key s =
      after_remove (disk.remove (paths.join dir (paths.from_slash key)) s)

  abbrev pub local_provider : Paths → Disk S → Text → Text → Provider S
  local_provider paths disk dir base = record {
    upload = local_upload paths disk dir base;
    delete = local_delete paths disk dir;
    public_url = url_under base;
  }

  -- `NewLocalProvider`
  unfoldable pub new_local_provider : Paths → Disk S → Text → Text → Storing S (Provider S)
  new_local_provider paths disk dir base =
      or_fail mkdir_failed (disk.mkdir_all dir) (done (local_provider paths disk dir base))

  unfoldable pub s3_upload : Bucket S → Text → Text → Text → Upload → Storing S Text
  s3_upload bucket name base key file =
      or_fail put_failed (bucket.put_object name key file) (done (url_under base key))

  unfoldable pub s3_delete : Bucket S → Text → Text → Storing S (Unit {0})
  s3_delete bucket name key = or_fail delete_failed (bucket.delete_object name key) (done tt)

  abbrev pub s3_provider : Bucket S → Text → Text → Provider S
  s3_provider bucket name base = record {
    upload = s3_upload bucket name base;
    delete = s3_delete bucket name;
    public_url = url_under base;
  }

  -- `NewS3Provider`: whether the configuration of the client loads is the parameter `loads`.
  unfoldable pub new_s3_provider : Bool → Bucket S → Text → Text → Storing S (Provider S)
  new_s3_provider loads bucket name base s =
      if loads then (inr (s3_provider bucket name base), s) else (inl no_credentials, s)

  -- `New`
  unfoldable pub new_provider :
      Paths → Disk S → Bool → Bucket S → StorageConfig → Storing S (Provider S)
  new_provider paths disk loads bucket cfg s =
      if cfg.driver == "local" || cfg.driver == ""
      then new_local_provider paths disk (dir_or_default paths cfg.dir) cfg.base_url s
      else if cfg.driver == "s3"
      then new_s3_provider loads bucket cfg.s3_bucket cfg.s3_public_base s
      else (inl unknown_driver, s)
