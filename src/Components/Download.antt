-- ===== src/Components/Download.antt =====
-- The download that kubelet, kubectl, aws-iam-authenticator, the image credential provider and
-- aws_signing_helper share: downloadFileTo, tried up to three times, and artifact.Upgrade.
use eks_hybrid.Base.{String, ◌<>◌, errorf, ok}
use eks_hybrid.Machine.{Host, Exec, ◌>>=◌, ◌>>◌, wrapping, guard, attempts, get_source, continue}
use eks_hybrid.Tracker.{add}
use eks_hybrid.Artifact.Checksum.{verify_checksum}
use eks_hybrid.Artifact.Install.{install_file}
use eks_hybrid.Artifact.Upgrade

-- what differs between them: the artifact's name in the manifest, the label in messages, the path
pub record Binary : Type 0 where
  pub name : String
  pub label : String
  pub path : String

-- Tracker.Add on the tracker in memory
unfoldable pub track : String → Exec Unit
track name w = continue (add name w.artifacts) (λ a v. (ok tt, record v { artifacts = a })) w

module _ (h : Host) (b : Binary) where
  unfoldable pub download_file_to : Exec Unit
  download_file_to = do
    src ← wrapping ("getting " <> b.label <> " source") (get_source h b.name)
    wrapping ("installing " <> b.label) (install_file h b.path src.contents)
    guard (verify_checksum h src) (errorf (b.label <> " checksum mismatch"))

  unfoldable pub download_file_with_retries : Exec Unit
  download_file_with_retries = attempts 3 (ok tt) download_file_to

  -- the Upgrade function of such a component
  unfoldable pub upgrade_binary : Exec Unit
  upgrade_binary = do
    src ← wrapping ("getting " <> b.label <> " source") (get_source h b.name)
    Upgrade.upgrade h b.label b.path src
