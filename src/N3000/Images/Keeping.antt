-- ===== src/N3000/Images/Keeping.antt =====
-- Parts of the state of a node that downloads do not touch.
use openshift_operator.Base.{
  refl, String, ◌<>◌, ◌==◌, not, eqb, failure, is_not_exist, pure, raise, handle, ◌>>◌, Keeps,
  handle-Keeps, bind-Keeps, then-Keeps, if-Keeps,
}
use openshift_operator.N3000.{Node}
use openshift_operator.N3000.Images.{
  verify_checksum, check_downloaded, download_image, replace_image, get_image, create_folder,
}

-- What is done with files and with the network leaves a view of the state alone.
pub record FilesKeep {ℓ} {X : Type ℓ} (N : Node) (view : N.State → X) : Type ℓ where
  pub stat_keeps : (p : String) → Keeps view (N.stat p)
  pub mkdir_all_keeps : (p : String) → Keeps view (N.mkdir_all p)
  pub create_keeps : (p : String) → Keeps view (N.create p)
  pub remove_keeps : (p : String) → Keeps view (N.remove p)
  pub open_file_keeps : (p : String) → Keeps view (N.open_file p)
  pub is_symlink_keeps : (p : String) → Keeps view (N.is_symlink p)
  pub read_all_keeps : (p : String) → Keeps view (N.read_all p)
  pub http_get_keeps : (url : String) → Keeps view (N.http_get url)
  pub copy_body_keeps : (p body : String) → Keeps view (N.copy_body p body)

module _ {ℓ} {X : Type ℓ} (N : Node) (view : N.State → X) (F : FilesKeep N view) where
  verify_checksum-Keeps : (path sum : String) → Keeps view (verify_checksum N path sum)
  unfolding verify_checksum
  verify_checksum-Keeps path sum =
      handle-Keeps view (N.open_file path) _ _ (F.open_file_keeps path)
        (λ u.
          handle-Keeps view (N.read_all path) _ _ (F.read_all_keeps path) (λ c s. refl)
            (λ e s. refl))
        (λ e s. refl)

  check_downloaded-Keeps : (path url sum : String) → Keeps view (check_downloaded N path url sum)
  unfolding check_downloaded
  check_downloaded-Keeps path url sum =
      if-Keeps view (sum == "") (pure tt) _ (λ s. refl)
        (bind-Keeps view (verify_checksum N path sum) _ (verify_checksum-Keeps path sum) (λ match.
          if-Keeps view match (pure tt)
            (raise (failure ("Checksum mismatch in downloaded file: " <> url))) (λ s. refl)
            (λ s. refl)))

  download_image-Keeps : (path url sum : String) → Keeps view (download_image N path url sum)
  unfolding download_image
  download_image-Keeps path url sum =
      bind-Keeps view (N.create path >> N.http_get url) _
        (then-Keeps view (N.create path) (N.http_get url) (F.create_keeps path)
          (F.http_get_keeps url))
        (λ r.
          if-Keeps view (not (eqb r.status_code 200))
            (raise (failure ("Unable to download image from: " <> (url <> (" err: " <> r.status)))))
            (N.copy_body path r.body >> check_downloaded N path url sum) (λ s. refl)
            (then-Keeps view (N.copy_body path r.body) (check_downloaded N path url sum)
              (F.copy_body_keeps path r.body) (check_downloaded-Keeps path url sum)))

  replace_image-Keeps : (path url sum : String) → Keeps view (replace_image N path url sum)
  unfolding replace_image
  replace_image-Keeps path url sum =
      bind-Keeps view (verify_checksum N path sum) _ (verify_checksum-Keeps path sum) (λ match.
        if-Keeps view match (pure tt)
          (handle (N.remove path) (λ _. download_image N path url sum)
            (λ _. raise (failure ("Unable to remove old image file: " <> path))))
          (λ s. refl)
          (handle-Keeps view (N.remove path) _ _ (F.remove_keeps path)
            (λ u. download_image-Keeps path url sum) (λ e s. refl)))

  pub get_image-Keeps : (path url sum : String) → Keeps view (get_image N path url sum)
  unfolding get_image
  get_image-Keeps path url sum =
      handle-Keeps view (N.stat path) _ _ (F.stat_keeps path)
        (λ u. replace_image-Keeps path url sum)
        (λ e.
          if-Keeps view (is_not_exist e) (download_image N path url sum) (raise e)
            (download_image-Keeps path url sum) (λ s. refl))

  pub create_folder-Keeps : (path : String) → Keeps view (create_folder N path)
  unfolding create_folder
  create_folder-Keeps path =
      handle-Keeps view (N.stat path) _ _ (F.stat_keeps path) (λ u s. refl)
        (λ e.
          if-Keeps view (is_not_exist e) (handle (N.mkdir_all path) (λ _. pure tt) (λ _. raise e))
            (pure tt)
            (handle-Keeps view (N.mkdir_all path) _ _ (F.mkdir_all_keeps path) (λ u s. refl)
              (λ x s. refl))
            (λ s. refl))
