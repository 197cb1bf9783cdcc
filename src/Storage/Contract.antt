-- ===== src/Storage/Contract.antt =====
-- What `storage.Provider` promises (internal/storage/storage.go), of the providers that `New` makes.
use proindustrial_backend.Common.{
  Bool, Bool-cases, inl, inr, nat_eq, string_eq, subst, text_eq, true, ◌==◌, ◌||◌, ◌≡◌, ◌⊎◌,
}
use proindustrial_backend.Common.Text.{Text}
use proindustrial_backend.Storage.{
  Bucket, Disk, Paths, Provider, StorageConfig, StorageError, Upload, dir_or_default,
  local_provider, local_upload, new_local_provider, new_provider, new_s3_provider, or_fail,
  s3_provider, s3_upload, create_failed, mkdir_failed, put_failed, write_failed,
}

module _ {S : Type 0} where
  -- A step that may fail, then the rest: what it answers came of the rest.
  or_fail_ok :
      {A : Type 0} (e : StorageError) (step : S → Bool × S) (k : S → (StorageError ⊎ A) × S) (s : S)
      {a : A} {s' : S}
      → or_fail e step k s ≡ (inr a, s')
      → (k (step s).1 ≡ (inr a, s')) × ((step s).0 ≡ true)
  unfolding or_fail
  or_fail_ok e step k s h = elim (Bool-cases (step s).0) [
    | inl works ↦ (rw works at h, works)
    | inr fails ↦ absurd (cc (rw fails at h))
  ]

  module _ (paths : Paths) (disk : Disk S) (bucket : Bucket S) where
    -- A provider that `New` may make.
    data IsMade : Provider S → Type 0 where
      local : (dir base : Text) → IsMade (local_provider paths disk dir base)
      s3 : (name base : Text) → IsMade (s3_provider bucket name base)

    IsMade-url :
        {p : Provider S} (key : Text) (file : Upload) (s : S) {url : Text} {s' : S}
        → IsMade p
        → p.upload key file s ≡ (inr url, s')
        → url ≡ p.public_url key
    unfolding local_upload s3_upload
    IsMade-url key file s (local dir base) h =
        let dst = paths.join dir (paths.from_slash key) in
        let (made, _) = or_fail_ok mkdir_failed (disk.mkdir_all (paths.dir dst)) _ s h in
        let (opened, _) = or_fail_ok create_failed (disk.create dst) _ _ made in
        let (copied, _) = or_fail_ok write_failed (disk.copy dst file.content) _ _ opened in
        cc copied
    IsMade-url key file s (s3 name base) h =
        let (sent, _) = or_fail_ok put_failed (bucket.put_object name key file) _ s h in cc sent

    new_provider-IsMade :
        (loads : Bool) (cfg : StorageConfig) (s : S) {p : Provider S} {s' : S}
        → new_provider paths disk loads bucket cfg s ≡ (inr p, s')
        → IsMade p
    unfolding new_provider new_local_provider new_s3_provider
    new_provider-IsMade loads cfg s {p} h =
        elim (Bool-cases (cfg.driver == "local" || cfg.driver == "")) [
          | inl on_disk ↦
              let (made, _) =
                or_fail_ok mkdir_failed (disk.mkdir_all (dir_or_default paths cfg.dir)) _ s
                  (rw on_disk at h) in
              let same : local_provider paths disk (dir_or_default paths cfg.dir) cfg.base_url ≡ p =
                cc made in
              subst IsMade same (local (dir_or_default paths cfg.dir) cfg.base_url)
          | inr elsewhere ↦ elim (Bool-cases (cfg.driver == "s3")) [
            | inl in_bucket ↦ elim (Bool-cases loads) [
              | inl loaded ↦
                  let same : s3_provider bucket cfg.s3_bucket cfg.s3_public_base ≡ p =
                    cc (rw (elsewhere, in_bucket, loaded) at h) in
                  subst IsMade same (s3 cfg.s3_bucket cfg.s3_public_base)
              | inr refused ↦ absurd (cc (rw (elsewhere, in_bucket, refused) at h))
            ]
            | inr unknown ↦ absurd (cc (rw (elsewhere, unknown) at h))
          ]
        ]

    -- The URL that an upload returns is the public URL of its key, with every provider that `New`
    -- makes and whatever the disk or the bucket holds.
    pub upload-public_url :
        (loads : Bool) (cfg : StorageConfig) (key : Text) (file : Upload) (s t : S) {p : Provider S}
        {s' : S} {url : Text} {t' : S}
        → new_provider paths disk loads bucket cfg s ≡ (inr p, s')
        → p.upload key file t ≡ (inr url, t')
        → url ≡ p.public_url key
    upload-public_url loads cfg key file s t h k =
        IsMade-url key file t (new_provider-IsMade loads cfg s h) k
