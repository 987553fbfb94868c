-- ===== src/Fec/Kernel/Laws.antt =====
-- What the rpm-ostree setter does to the kernel arguments of the next boot.
use openshift_operator.Base.{
  ◌≡◌, refl, String, ◌<>◌, List, [], ◌∷◌, arith, ok, err, Result, str_contains, if◌then◌else◌,
}
use openshift_operator.Fec.{Machine, exec_cmd}
use openshift_operator.Fec.Kernel.{
  kernel_params, rpm_ostree, append_missing, rpmostree_based_kernel_args_setter, rpmostree,
  add_missing_kernel_params,
}

abbrev kargs_command : List String → List String
kargs_command args = "--userspec" ∷ "0" ∷ "/host/" ∷ "rpm-ostree" ∷ "kargs" ∷ args

-- `rpm-ostree kargs` shows the arguments, and with `--append` adds one at their end.
pub record HasKargs (M : Machine) : Type 0 where
  pub kargs : M.State → String
  pub read : (s : M.State) → M.output "chroot" (kargs_command []) s ≡ (ok (kargs s), s)
  pub append :
      (s : M.State) (param out : String)
      → let r = M.output "chroot" (kargs_command ("--append" ∷ param ∷ [])) s in
        r.0 ≡ ok out → kargs r.1 ≡ kargs s <> (" " <> param)

-- The arguments `k` with those of `params` at the end that `seen` has not.
unfoldable pub with_missing : String → List String → String → String
with_missing seen [] k = k
with_missing seen (p ∷ ps) k =
    with_missing seen ps (if str_contains seen p then k else k <> (" " <> p))

module _ (M : Machine) (K : HasKargs M) where
  open K use {kargs}

  kargs-append_missing :
      (seen : String) (params : List String) (s : M.State)
      → (append_missing M seen params s).0 ≡ ok tt
      → kargs (append_missing M seen params s).1 ≡ with_missing seen params (kargs s)
  unfolding append_missing with_missing rpm_ostree exec_cmd
  kargs-append_missing seen [] s h = refl
  kargs-append_missing seen (p ∷ ps) s h =
      by_result (M.output "chroot" (kargs_command ("--append" ∷ p ∷ [])) s).0 refl
        (kargs-append_missing seen ps s)
        (kargs-append_missing seen ps (M.output "chroot" (kargs_command ("--append" ∷ p ∷ [])) s).1)
    where
      by_result :
          (r : Result String)
          → (M.output "chroot" (kargs_command ("--append" ∷ p ∷ [])) s).0 ≡ r
          → ((append_missing M seen ps s).0 ≡ ok tt
              → kargs (append_missing M seen ps s).1 ≡ with_missing seen ps (kargs s))
          → (let s1 = (M.output "chroot" (kargs_command ("--append" ∷ p ∷ [])) s).1 in
              (append_missing M seen ps s1).0 ≡ ok tt
              → kargs (append_missing M seen ps s1).1 ≡ with_missing seen ps (kargs s1))
          → kargs (append_missing M seen (p ∷ ps) s).1 ≡ with_missing seen (p ∷ ps) (kargs s)
      by_result (ok out) e kept added = ground (arith, K.append s p out e, kept, added)
      by_result (err x) e kept added = ground (arith, kept)

  -- Where the setter of an rpm-ostree system returns no error, the kernel arguments are those from
  -- before with each needed parameter that was missing added once, in order, and no other change.
  pub add_missing_kernel_params-rpmostree :
      (s : M.State)
      → (add_missing_kernel_params M rpmostree s).0 ≡ ok tt
      → kargs (add_missing_kernel_params M rpmostree s).1
        ≡ with_missing (kargs s) kernel_params (kargs s)
  unfolding add_missing_kernel_params rpmostree_based_kernel_args_setter rpm_ostree exec_cmd
  add_missing_kernel_params-rpmostree s h =
      ground (arith, K.read s, kargs-append_missing (kargs s) kernel_params s)
