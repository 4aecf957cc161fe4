-- ===== src/Components/Binaries.antt =====
-- The three components that are one binary: internal/kubectl, internal/iamauthenticator and
-- internal/imagecredentialprovider. The install root is the file system's root, as the flows have it.
use eks_hybrid.Base.{String}
use eks_hybrid.Machine.{Host, Exec, ◌>>◌, wrapping, os_remove_all}
use eks_hybrid.Components.Download.{Binary, track, download_file_with_retries, upgrade_binary}

abbrev pub kubectl_binary : Binary
kubectl_binary = record { name = "kubectl"; label = "kubectl"; path = "/usr/local/bin/kubectl" }

abbrev pub authenticator_binary : Binary
authenticator_binary = record {
  name = "aws-iam-authenticator";
  label = "aws-iam-authenticator";
  path = "/usr/local/bin/aws-iam-authenticator";
}

abbrev pub image_credential_provider_dir : String
image_credential_provider_dir = "/etc/eks/image-credential-provider"

abbrev pub image_credential_provider_binary : Binary
image_credential_provider_binary = record {
  name = "ecr-credential-provider";
  label = "image-credential-provider";
  path = "/etc/eks/image-credential-provider/ecr-credential-provider";
}

module _ (h : Host) where
  unfoldable pub install_kubectl : Exec Unit
  install_kubectl = do
    wrapping "installing kubectl"
        (wrapping "downloading kubectl" (download_file_with_retries h kubectl_binary))
    wrapping "adding kubectl to tracker" (track "kubectl")

  unfoldable pub uninstall_kubectl : Exec Unit
  uninstall_kubectl = os_remove_all h "/usr/local/bin/kubectl"

  unfoldable pub upgrade_kubectl : Exec Unit
  upgrade_kubectl = upgrade_binary h kubectl_binary

  unfoldable pub install_authenticator : Exec Unit
  install_authenticator = do
    wrapping "installing aws-iam-authenticator" (
        wrapping "downloading aws-iam-authenticator"
          (download_file_with_retries h authenticator_binary))
    wrapping "adding aws-iam-authenticator to tracker" (track "iamAuthenticator")

  unfoldable pub uninstall_authenticator : Exec Unit
  uninstall_authenticator = os_remove_all h "/usr/local/bin/aws-iam-authenticator"

  unfoldable pub upgrade_authenticator : Exec Unit
  upgrade_authenticator = upgrade_binary h authenticator_binary

  unfoldable pub install_image_credential_provider : Exec Unit
  install_image_credential_provider = do
    wrapping "installing image-credential-provider" (
        wrapping "downloading image-credential-provider"
          (download_file_with_retries h image_credential_provider_binary))
    wrapping "adding image-credential-provider to tracker" (track "imageCredentialProvider")

  -- The whole directory of the binary goes.
  unfoldable pub uninstall_image_credential_provider : Exec Unit
  uninstall_image_credential_provider = os_remove_all h image_credential_provider_dir

  unfoldable pub upgrade_image_credential_provider : Exec Unit
  upgrade_image_credential_provider = upgrade_binary h image_credential_provider_binary
