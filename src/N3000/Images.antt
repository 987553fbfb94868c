-- ===== src/N3000/Images.antt =====
-- N3000/pkg/daemon/common.go: the images that are downloaded, and the folder for them.
pub mod Laws
pub mod Keeping
use openshift_operator.Base.{
  Bool, not, String, ◌<>◌, ◌==◌, eqb, failure, is_not_exist, Exec, pure, raise, handle, ◌>>=◌, ◌>>◌,
  if◌then◌else◌,
}
use openshift_operator.N3000.{Node}

module _ (N : Node) where
  open N use {State}

  unfoldable pub verify_checksum : String → String → Exec State Bool
  verify_checksum path expected =
      handle (N.open_file path)
        (λ _.
          handle (N.read_all path) (λ content. pure (N.md5_hex content == expected))
            (λ _. raise (failure "Failed to copy file to calculate md5")))
        (λ _. raise (failure "Failed to open file to calculate md5"))

  -- The code of `downloadImage` once the body is in the file.
  unfoldable pub check_downloaded : String → String → String → Exec State (Unit {0})
  check_downloaded path url checksum =
      if checksum == ""
      then pure tt
      else (verify_checksum path checksum >>= λ match.
          if match
          then pure tt
          else raise (failure ("Checksum mismatch in downloaded file: " <> url)))

  unfoldable pub download_image : String → String → String → Exec State (Unit {0})
  download_image path url checksum = N.create path >> N.http_get url >>= λ r.
      if not (eqb r.status_code 200)
      then raise (failure ("Unable to download image from: " <> (url <> (" err: " <> r.status))))
      else (N.copy_body path r.body >> check_downloaded path url checksum)

  -- The code of `getImage` where the file is there.
  unfoldable pub replace_image : String → String → String → Exec State (Unit {0})
  replace_image path url checksum = verify_checksum path checksum >>= λ match.
      if match
      then pure tt
      else handle (N.remove path) (λ _. download_image path url checksum)
          (λ _. raise (failure ("Unable to remove old image file: " <> path)))

  unfoldable pub get_image : String → String → String → Exec State (Unit {0})
  get_image path url checksum =
      handle (N.stat path) (λ _. replace_image path url checksum)
        (λ e. if is_not_exist e then download_image path url checksum else raise e)

  -- Where the folder cannot be created, the error is the one of the test before.
  unfoldable pub create_folder : String → Exec State (Unit {0})
  create_folder path =
      handle (N.stat path) (λ _. pure tt)
        (λ e.
          if is_not_exist e
          then handle (N.mkdir_all path) (λ _. pure tt) (λ _. raise e)
          else pure tt)
