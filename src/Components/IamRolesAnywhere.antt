-- ===== src/Components/IamRolesAnywhere.antt =====
-- internal/iamrolesanywhere/install.go
use eks_hybrid.Base.{String}
use eks_hybrid.Machine.{Host, Exec, ◌>>◌, wrapping, os_remove_all}
use eks_hybrid.Components.Download.{Binary, track, download_file_with_retries, upgrade_binary}

abbrev pub signing_helper : Binary
signing_helper = record {
  name = "aws_signing_helper";
  label = "aws_signing_helper";
  path = "/usr/local/bin/aws_signing_helper";
}

abbrev pub service_file_path : String
service_file_path = "/etc/systemd/system/aws_signing_helper_update.service"

abbrev pub credentials_dir : String
credentials_dir = "/eks-hybrid/.aws"

module _ (h : Host) where
  unfoldable pub install : Exec Unit
  install = do
    wrapping "installing aws_signing_helper"
        (wrapping "downloading aws_signing_helper" (download_file_with_retries h signing_helper))
    wrapping "adding aws_signing_helper to tracker" (track "iamRolesAnywhere")

  unfoldable pub uninstall : Exec Unit
  uninstall = do
    os_remove_all h service_file_path
    os_remove_all h credentials_dir
    os_remove_all h "/usr/local/bin/aws_signing_helper"

  unfoldable pub upgrade : Exec Unit
  upgrade = upgrade_binary h signing_helper
