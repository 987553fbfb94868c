-- ===== src/N3000/Images/Laws.antt =====
-- The theorems about the images: what the file of an image has in it.
use openshift_operator.Base.{
  Bool, Ensures, Keeps, List, Result, String, arith, bind-Ensures, bind-Keeps, branch, eq_iff, eqb,
  err, failure, false, handle-Ensures, handle-Keeps, if-Ensures, if-Keeps, if◌then◌else◌,
  is_not_exist, not, ok, pure, raise, raise-Ensures, refl, then-Keeps, true, ◌==◌, ◌>>◌, ◌≡◌, ◌≢◌,
}
use openshift_operator.N3000.{Node}
use openshift_operator.N3000.Images.{
  get_image, download_image, replace_image, verify_checksum, check_downloaded,
}

-- What reading a file gives, and which files a step leaves as they are: a command and a read leave
-- all, and a step that names a file leaves the others.
pub record Files (N : Node) : Type 0 where
  pub contents : String → N.State → String
  pub read_ok : (p x : String) (s : N.State) → (N.read_all p s).0 ≡ ok x → x ≡ contents p s
  pub stat_keeps : (p q : String) → Keeps (contents q) (N.stat p)
  pub open_keeps : (p q : String) → Keeps (contents q) (N.open_file p)
  pub read_keeps : (p q : String) → Keeps (contents q) (N.read_all p)
  pub get_keeps : (url q : String) → Keeps (contents q) (N.http_get url)
  pub command_keeps :
      (name : String) (args : List String) (q : String)
      → Keeps (contents q) (N.combined_output name args)
  pub create_keeps : (p q : String) → p ≢ q → Keeps (contents q) (N.create p)
  pub remove_keeps : (p q : String) → p ≢ q → Keeps (contents q) (N.remove p)
  pub copy_keeps : (p body q : String) → p ≢ q → Keeps (contents q) (N.copy_body p body)

module _ (N : Node) (C : Files N) where
  open N use {State}
  open C use {contents}

  -- Where the checksum of a file is right, its contents have it.
  verify_checksum_right :
      (p e : String) (s : State)
      → (verify_checksum N p e s).0 ≡ ok true
      → N.md5_hex (contents p (verify_checksum N p e s).1) ≡ e
  unfolding verify_checksum
  verify_checksum_right p e s h = by_open (N.open_file p s).0 refl
    where
      t : State
      t = (N.open_file p s).1

      by_read :
          (x : Result String)
          → (N.open_file p s).0 ≡ ok tt
          → (N.read_all p t).0 ≡ x
          → N.md5_hex (contents p (verify_checksum N p e s).1) ≡ e
      by_read (ok x) ho hr =
          ground (arith, ho, hr, C.read_ok p x t hr, C.read_keeps p p t, h, eq_iff (N.md5_hex x) e)
      by_read (err x) ho hr = absurd (ground (arith, ho, hr, h))

      by_open :
          (r : Result (Unit {0}))
          → (N.open_file p s).0 ≡ r
          → N.md5_hex (contents p (verify_checksum N p e s).1) ≡ e
      by_open (ok u) ho = by_read (N.read_all p t).0 ho refl
      by_open (err x) ho = absurd (ground (arith, ho, h))

  check_downloaded_ok :
      (p url e : String) (s : State)
      → (e == "") ≡ false
      → (check_downloaded N p url e s).0 ≡ ok tt
      → N.md5_hex (contents p (check_downloaded N p url e s).1) ≡ e
  unfolding check_downloaded
  check_downloaded_ok p url e s he h = by_result (verify_checksum N p e s).0 refl
    where
      by_result :
          (r : Result Bool)
          → (verify_checksum N p e s).0 ≡ r
          → N.md5_hex (contents p (check_downloaded N p url e s).1) ≡ e
      by_result (ok true) eq = ground (arith, eq, he, verify_checksum_right p e s eq)
      by_result (ok false) eq = absurd (ground (arith, eq, he, h))
      by_result (err x) eq = absurd (ground (arith, eq, he, h))

  -- After the step the file has the checksum.
  abbrev Right : String → String → Unit {0} → State → Type 0
  Right p e u s = N.md5_hex (contents p s) ≡ e

  download_image-Ensures :
      (p url e : String) → (e == "") ≡ false → Ensures (Right p e) (download_image N p url e)
  unfolding download_image
  download_image-Ensures p url e he =
      bind-Ensures (Right p e) (N.create p >> N.http_get url) _ (λ r.
        if-Ensures (Right p e) (not (eqb r.status_code 200)) (raise _) _
          (λ _. raise-Ensures (Right p e) _)
          (λ _.
            bind-Ensures (Right p e) (N.copy_body p r.body) _
              (λ _ s u h. check_downloaded_ok p url e s he h)))

  replace_image-Ensures :
      (p url e : String) → (e == "") ≡ false → Ensures (Right p e) (replace_image N p url e)
  unfolding replace_image
  replace_image-Ensures p url e he s u h = by_result (verify_checksum N p e s).0 refl
    where
      t : State
      t = (verify_checksum N p e s).1

      by_result :
          (r : Result Bool)
          → (verify_checksum N p e s).0 ≡ r
          → N.md5_hex (contents p (replace_image N p url e s).1) ≡ e
      by_result (ok true) eq = ground (arith, eq, verify_checksum_right p e s eq)
      by_result (ok false) eq =
          rw (eq, branch)
            (handle-Ensures (Right p e) (N.remove p) (λ _. download_image N p url e) (λ _. raise _)
              (λ _. download_image-Ensures p url e he) (λ _. raise-Ensures (Right p e) _) t u
              (rw (eq, branch) at h))
      by_result (err x) eq = absurd (ground (arith, eq, h))

  -- Where an image with a checksum that is not empty is obtained without an error, whether it was
  -- there, was replaced or was downloaded, the contents of its file have this checksum, for any
  -- answer of the server, as long as reading a file leaves it as it is and gives its contents.
  pub get_image_ok :
      (path url checksum : String) (s : State)
      → (checksum == "") ≡ false
      → (get_image N path url checksum s).0 ≡ ok tt
      → N.md5_hex (contents path (get_image N path url checksum s).1) ≡ checksum
  unfolding get_image
  get_image_ok path url checksum s given h =
      handle-Ensures (Right path checksum) (N.stat path) (λ _. replace_image N path url checksum)
        (λ e. if is_not_exist e then download_image N path url checksum else raise e)
        (λ _. replace_image-Ensures path url checksum given)
        (λ e.
          if-Ensures (Right path checksum) (is_not_exist e) (download_image N path url checksum)
            (raise e) (λ _. download_image-Ensures path url checksum given)
            (λ _. raise-Ensures (Right path checksum) e))
        s tt h

  verify_checksum-Keeps : (p e q : String) → Keeps (contents q) (verify_checksum N p e)
  unfolding verify_checksum
  verify_checksum-Keeps p e q =
      handle-Keeps (contents q) (N.open_file p) _ _ (C.open_keeps p q)
        (λ _.
          handle-Keeps (contents q) (N.read_all p) (λ content. pure (N.md5_hex content == e))
            (λ _. raise (failure _)) (C.read_keeps p q) (λ _ s. refl) (λ _ s. refl))
        (λ _ s. refl)

  check_downloaded-Keeps : (p url e q : String) → Keeps (contents q) (check_downloaded N p url e)
  unfolding check_downloaded
  check_downloaded-Keeps p url e q =
      if-Keeps (contents q) (e == "") (pure tt) _ (λ s. refl)
        (bind-Keeps (contents q) (verify_checksum N p e) _ (verify_checksum-Keeps p e q) (λ match.
          if-Keeps (contents q) match (pure tt) (raise (failure _)) (λ s. refl) (λ s. refl)))

  download_image-Keeps :
      (p url e q : String) → p ≢ q → Keeps (contents q) (download_image N p url e)
  unfolding download_image
  download_image-Keeps p url e q ne =
      bind-Keeps (contents q) (N.create p >> N.http_get url) _
        (then-Keeps (contents q) (N.create p) (N.http_get url) (C.create_keeps p q ne)
          (C.get_keeps url q))
        (λ r.
          if-Keeps (contents q) (not (eqb r.status_code 200)) (raise _) _ (λ s. refl)
            (then-Keeps (contents q) (N.copy_body p r.body) (check_downloaded N p url e)
              (C.copy_keeps p r.body q ne) (check_downloaded-Keeps p url e q)))

  replace_image-Keeps : (p url e q : String) → p ≢ q → Keeps (contents q) (replace_image N p url e)
  unfolding replace_image
  replace_image-Keeps p url e q ne =
      bind-Keeps (contents q) (verify_checksum N p e) _ (verify_checksum-Keeps p e q) (λ match.
        if-Keeps (contents q) match (pure tt) _ (λ s. refl)
          (handle-Keeps (contents q) (N.remove p) (λ _. download_image N p url e)
            (λ _. raise (failure _)) (C.remove_keeps p q ne)
            (λ _. download_image-Keeps p url e q ne) (λ _ s. refl)))

  pub get_image-Keeps : (p url e q : String) → p ≢ q → Keeps (contents q) (get_image N p url e)
  unfolding get_image
  get_image-Keeps p url e q ne =
      handle-Keeps (contents q) (N.stat p) (λ _. replace_image N p url e)
        (λ x. if is_not_exist x then download_image N p url e else raise x) (C.stat_keeps p q)
        (λ _. replace_image-Keeps p url e q ne)
        (λ x.
          if-Keeps (contents q) (is_not_exist x) (download_image N p url e) (raise x)
            (download_image-Keeps p url e q ne) (λ s. refl))
