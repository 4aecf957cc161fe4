-- ===== src/Artifact/Upgrade.antt =====
-- internal/artifact/upgrade.go
use eks_hybrid.Base.{String, ◌<>◌, Bool, not, errorf, wrap}
use eks_hybrid.Machine.{
  Source, Host, Exec, pure, ◌>>=◌, ◌>>◌, wrapping, guard, when, os_open, os_read_file,
}
use eks_hybrid.Artifact.Checksum.{bytes_eq, verify_checksum}
use eks_hybrid.Artifact.Install.{install_file}

module _ (h : Host) where
  unfoldable pub checksum_match : String → Source → Exec Bool
  checksum_match path src = do
    wrapping "checking for checksum match" (os_open h path)
    b ← wrapping ("calculating sha256 for " <> path) (os_read_file h path)
    pure (bytes_eq (h.sha256 b) src.expected)

  unfoldable pub upgrade : String → String → Source → Exec Unit
  upgrade name path src = do
    matches ← checksum_match path src
    when (not matches) (do
      wrapping ("installing " <> name) (install_file h path src.contents)
      guard (verify_checksum h src)
          (wrap ("verifying checksum post installing " <> name) (errorf "checksum mismatch")))
