-- ===== src/Components/Cni.antt =====
-- internal/cni/install.go
use eks_hybrid.Base.{String, errorf, ok}
use eks_hybrid.Machine.{
  Host, Exec, ◌>>=◌, ◌>>◌, wrapping, guard, attempts, get_source, os_remove_all,
}
use eks_hybrid.Artifact.Checksum.{verify_checksum}
use eks_hybrid.Artifact.Install.{install_file, install_tar_gz}
use eks_hybrid.Components.Download.{track}

abbrev pub bin_path : String
bin_path = "/opt/cni/bin"

abbrev pub tgz_path : String
tgz_path = "/opt/cni/plugins/cni-plugins.tgz"

abbrev pub root_dir : String
root_dir = "/opt/cni"

module _ (h : Host) where
  unfoldable pub download_file_to : Exec Unit
  download_file_to = do
    src ← wrapping "getting cni-plugins source" (get_source h "cni-plugins")
    wrapping "installing cni-plugins archive" (install_file h tgz_path src.contents)
    guard (verify_checksum h src) (errorf "cni-plugins checksum mismatch")

  unfoldable pub install_from_source : Exec Unit
  install_from_source = do
    wrapping "installing cni-plugins" (attempts 3 (ok tt) download_file_to)
    wrapping "extracting and installing cni-plugins" (install_tar_gz h bin_path tgz_path)

  unfoldable pub install : Exec Unit
  install = do install_from_source; wrapping "adding cni-plugins to tracker" (track "cniPlugins")

  unfoldable pub uninstall : Exec Unit
  uninstall = os_remove_all h root_dir

  unfoldable pub upgrade : Exec Unit
  upgrade = wrapping "upgrading cni-plugins" install_from_source
