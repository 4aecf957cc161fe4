-- ===== src/Flows/Install.antt =====
-- internal/flows/install.go
use eks_hybrid.Base.{String, Bool, str_eq, if◌then◌else◌, [], ◌∷◌, errorf, err}
use eks_hybrid.Machine.{Bytes, command, Host, Exec, lift, ◌>>◌, act}
use eks_hybrid.PackageManager.{DistroPackageManager, configure}
use eks_hybrid.Components.Binaries.{
  install_kubectl, install_authenticator, install_image_credential_provider,
}
use eks_hybrid.Components.Kubelet
use eks_hybrid.Components.Cni
use eks_hybrid.Components.IamRolesAnywhere
use eks_hybrid.Components.Iptables
use eks_hybrid.Components.Containerd
use eks_hybrid.Components.Ssm
use eks_hybrid.Components.Ssm.{JsonCodec, ignoring}
use eks_hybrid.Flows.Store.{save, get_current_state}

-- The fields of Installer, with what the build and the machine fix: the unit file that is embedded,
-- runtime.GOARCH and the code name of the distribution.
pub record Installer : Type 0 where
  pub eks_version : String
  pub containerd_source : String
  pub package_manager : DistroPackageManager
  pub credential_provider : String
  pub ssm_region : String
  pub private_mode : Bool
  pub json : JsonCodec
  pub unit_file : Bytes
  pub arch : String
  pub code_name : String

module _ (h : Host) (i : Installer) where
  unfoldable pub install_distro_packages : Exec Unit
  install_distro_packages = do
    Containerd.install h i.package_manager i.containerd_source i.eks_version
    ignoring (act h (command "containerd" ("--version" ∷ [])))
    Iptables.install h i.package_manager

  unfoldable pub install_credential_process : Exec Unit
  install_credential_process =
      if str_eq i.credential_provider "iam-ra"
      then IamRolesAnywhere.install h
      else if str_eq i.credential_provider "ssm"
      then Ssm.install h i.json i.ssm_region
      else lift (err (errorf "unable to detect hybrid auth method"))

  unfoldable pub install_eks_artifacts : Exec Unit
  install_eks_artifacts = do
    Kubelet.install h i.unit_file
    install_kubectl h
    Cni.install h
    install_image_credential_provider h
    install_authenticator h

  -- Private mode leaves the packages of the operating system alone.
  unfoldable pub install_rest : Exec Unit
  install_rest = do install_credential_process; install_eks_artifacts; save h

  unfoldable pub install_all : Exec Unit
  install_all = do
    configure h i.package_manager i.arch i.code_name
    install_distro_packages
    install_rest

  -- (*Installer).Run
  unfoldable pub run : Exec Unit
  run = get_current_state h >> (if i.private_mode then install_rest else install_all)
