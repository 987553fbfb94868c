-- ===== src/N3000/Program/Laws.antt =====
-- The theorems about what has to hold before the FPGAs are programmed.
use text.Mathlib.TextLemmas.{append_cancel_left, append_cancel_right}
use openshift_operator.Base.{
  Bool-cases, ◌⊎◌, inl, inr, ℕ, suc, ◌<◌, ◌≡◌, refl, sym, ap, ◌∙◌, arith, true, String, ◌<>◌, List,
  [], ◌∷◌, ◌==◌, atoi, atoi-itoa, itoa, Result, ok, err, Exec, raise, handle, branch, bind-eq-ok,
  Keeps, handle-Keeps, bind-Keeps, then-Keeps,
}
use openshift_operator.Api.Fpga.{N3000Fpga, N3000NodeSpec}
use openshift_operator.N3000.{Node, run_exec}
use openshift_operator.N3000.Images.{get_image, create_folder}
use openshift_operator.N3000.Images.Laws.{Files, get_image_ok, get_image-Keeps}
use openshift_operator.N3000.Bmc.{fpga_info_bmc}
use openshift_operator.N3000.Temperature.{check_fpga_die_temperature}
use openshift_operator.N3000.Program.{
  elements, image_path, fpga_user_image_file, wrap, verify_pci_addrs, get_images,
  verify_preconditions,
}

-- Images with different numbers are in different files.
image_path_injective : (i j : ℕ) → image_path i ≡ image_path j → i ≡ j
unfolding image_path
image_path_injective i j h =
    let same_digits : itoa i ≡ itoa j =
      append_cancel_right (itoa i) (itoa j) ".bin"
        (append_cancel_left fpga_user_image_file (itoa i <> ".bin") (itoa j <> ".bin") h) in
    sym (atoi-itoa i) ∙ ap atoi same_digits ∙ atoi-itoa j

module _ (N : Node) (F : Files N) where
  open N use {State}
  open F use {contents}

  check-Keeps : (pci q : String) → Keeps (contents q) (check_fpga_die_temperature N pci)
  unfolding check_fpga_die_temperature run_exec
  check-Keeps pci q =
      bind-Keeps (contents q) (fpga_info_bmc N) _ (F.command_keeps _ _ q) (λ _ s. refl)

  -- The images from a number on leave the files of the numbers before alone.
  get_images-Keeps :
      (i j : ℕ) (fs : List N3000Fpga) → i < j → Keeps (contents (image_path i)) (get_images N j fs)
  unfolding get_images
  get_images-Keeps i j [] lt = λ s. refl
  get_images-Keeps i j (f ∷ fs) lt =
      let q : String = image_path i in
      let rest = get_images-Keeps i (suc j) fs (ground arith) in
      then-Keeps (contents q) (check_fpga_die_temperature N f.pci_addr) _ (check-Keeps f.pci_addr q)
        (handle-Keeps (contents q) (get_image N (image_path j) f.user_image_url f.checksum)
          (λ _. get_images N (suc j) fs) (λ e. raise (wrap "FPGA image error:" e))
          (get_image-Keeps N F (image_path j) f.user_image_url f.checksum q
            (λ same. ground (arith, lt, image_path_injective j i same)))
          (λ _. rest) (λ _ s. refl))

  -- The files of the images of the FPGAs from a number on have the checksums that are given.
  unfoldable pub AllImages : ℕ → List N3000Fpga → State → Type 0
  AllImages i [] s = Unit
  AllImages i (f ∷ fs) s =
      (((f.checksum == "") ≡ true) ⊎ (N.md5_hex (contents (image_path i) s) ≡ f.checksum))
      × AllImages (suc i) fs s

  abbrev Obtains : ℕ → List N3000Fpga → State → Type 0
  Obtains i fs s = (get_images N i fs s).0 ≡ ok tt → AllImages i fs (get_images N i fs s).1

  -- One image and the ones after it.
  get_one :
      (i : ℕ) (f : N3000Fpga) (fs : List N3000Fpga)
      → ((s : State) → Obtains (suc i) fs s)
      → (s : State) → Obtains i (f ∷ fs) s
  unfolding get_images AllImages
  get_one i f fs ih s h = by_check (check_fpga_die_temperature N f.pci_addr s).0 refl
    where
      s1 : State
      s1 = (check_fpga_die_temperature N f.pci_addr s).1

      m : Exec State (Unit {0})
      m = get_image N (image_path i) f.user_image_url f.checksum

      s2 : State
      s2 = (m s1).1

      by_image :
          (r : Result (Unit {0}))
          → (check_fpga_die_temperature N f.pci_addr s).0 ≡ ok tt
          → (m s1).0 ≡ r
          → AllImages i (f ∷ fs) (get_images N i (f ∷ fs) s).1
      by_image (ok u) ec e =
          let kept = get_images-Keeps i (suc i) fs (ground arith) s2 in
          rw (ec, e, handle, branch)
            (
              elim (Bool-cases (f.checksum == "")) [
                | inl none_given ↦ inl none_given
                | inr given ↦ inr (
                    ap N.md5_hex kept
                    ∙ get_image_ok N F (image_path i) f.user_image_url f.checksum s1 given e)
              ],
              ih s2 (ground (arith, ec, e, h)),
            )
      by_image (err x) ec e = absurd (ground (arith, ec, e, h))

      by_check :
          (r : Result (Unit {0}))
          → (check_fpga_die_temperature N f.pci_addr s).0 ≡ r
          → AllImages i (f ∷ fs) (get_images N i (f ∷ fs) s).1
      by_check (ok u) ec = by_image (m s1).0 ec refl
      by_check (err x) ec = absurd (ground (arith, ec, h))

  get_images_ok : (i : ℕ) (fs : List N3000Fpga) (s : State) → Obtains i fs s
  unfolding get_images AllImages
  get_images_ok i [] s h = tt
  get_images_ok i (f ∷ fs) s h = get_one i f fs (get_images_ok (suc i) fs) s h

  -- Where the preconditions hold, the file of the image of each FPGA that the resource lists with a
  -- checksum has this checksum, also after the images of the FPGAs after it were downloaded.
  pub verify_preconditions-AllImages :
      (spec : N3000NodeSpec) (s : State)
      → (verify_preconditions N spec s).0 ≡ ok tt
      → AllImages 0 (elements spec.fpga) (verify_preconditions N spec s).1
  unfolding verify_preconditions
  verify_preconditions-AllImages spec s h =
      let fs = elements spec.fpga in
      let (_, _, eq1) = bind-eq-ok (verify_pci_addrs N fs) _ s h in
      let s1 = (verify_pci_addrs N fs s).1 in
      let h1 = rw eq1 at h in
      let (_, _, eq2) = bind-eq-ok (create_folder N _) (λ _. get_images N 0 fs) s1 h1 in
      rw (eq1, eq2) (get_images_ok 0 fs _ (rw eq2 at h1))
