-- ===== src/Fec/Kernel.antt =====
-- sriov-fec/pkg/daemon/kernel_management.go: the kernel parameters that the accelerators need.
pub mod Laws
use openshift_operator.Base.{
  Bool, true, false, String, List, [], ◌∷◌, ◌==◌, str_contains, failure, Exec, pure, raise, ◌>>=◌,
  ◌>>◌, if◌then◌else◌,
}
use openshift_operator.Fec.{Machine, exec_cmd}

abbrev pub kernel_params : List String
kernel_params = "intel_iommu=on" ∷ "iommu=pt" ∷ []

abbrev pub set_kernel_params_grubby : List String
set_kernel_params_grubby =
    "chroot" ∷ "/host" ∷ "grubby" ∷ "--update-kernel=DEFAULT" ∷ "--args=\"intel_iommu=on iommu=pt\""
    ∷ []

abbrev pub proc_cmdline_file_path : String
proc_cmdline_file_path = "/host/proc/cmdline"

-- The field `setKernelArgs` of the kernel controller is one of three functions.
pub data Setter : Type 0 where
  rpmostree grubby unsupported : Setter

-- `createKernelController`, from the lower-cased ID and ID_LIKE of the os-release file, which are
-- empty where the file cannot be read.
unfoldable pub create_kernel_controller : String → String → Setter
create_kernel_controller os_id os_id_like =
    if os_id == "rhcos"
    then rpmostree
    else if str_contains os_id_like "fedora"
    then grubby
    else unsupported

-- The loop of `isAnyKernelParamsMissing` over the parameters.
unfoldable pub any_missing : String → List String → Bool
any_missing cmdline [] = false
any_missing cmdline (param ∷ params) =
    if str_contains cmdline param then any_missing cmdline params else true

module _ (M : Machine) where
  unfoldable pub is_any_kernel_params_missing : Exec M.State Bool
  is_any_kernel_params_missing =
      M.read_file proc_cmdline_file_path >>= λ cmdline. pure (any_missing cmdline kernel_params)

  unfoldable pub rpm_ostree : List String → Exec M.State String
  rpm_ostree args =
      exec_cmd M ("chroot" ∷ "--userspec" ∷ "0" ∷ "/host/" ∷ "rpm-ostree" ∷ "kargs" ∷ args)

  -- The loop of `rpmostreeBasedKernelArgsSetter` over the parameters.
  unfoldable pub append_missing : String → List String → Exec M.State (Unit {0})
  append_missing kargs [] = pure tt
  append_missing kargs (param ∷ params) =
      let rest = append_missing kargs params in
      if str_contains kargs param then rest else (rpm_ostree ("--append" ∷ param ∷ []) >> rest)

  unfoldable pub rpmostree_based_kernel_args_setter : Exec M.State (Unit {0})
  rpmostree_based_kernel_args_setter = rpm_ostree [] >>= λ kargs. append_missing kargs kernel_params

  unfoldable pub add_missing_kernel_params : Setter → Exec M.State (Unit {0})
  add_missing_kernel_params rpmostree = rpmostree_based_kernel_args_setter
  add_missing_kernel_params grubby = exec_cmd M set_kernel_params_grubby >>= λ _. pure tt
  add_missing_kernel_params unsupported =
      raise (failure "cannot modify set kernel params, detected OS is not supported")
