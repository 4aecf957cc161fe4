-- ===== src/Components/Iptables.antt =====
-- internal/iptables/iptables.go
use eks_hybrid.Base.{not}
use eks_hybrid.Machine.{Host, Exec, ◌>>=◌, ◌>>◌, wrapping, when, found, retry}
use eks_hybrid.PackageManager.{DistroPackageManager, get_iptables}
use eks_hybrid.Components.Download.{track}

module _ (h : Host) (pm : DistroPackageManager) where
  -- An iptables that was there before is not tracked.
  unfoldable pub install : Exec Unit
  install = do
    installed ← found h "iptables"
    when (not installed) (do
      wrapping "failed to install iptables" (retry h (get_iptables pm).install_cmd)
      track "iptables")

  unfoldable pub uninstall : Exec Unit
  uninstall = do
    installed ← found h "iptables"
    when installed
        (wrapping "failed to uninstall iptables" (retry h (get_iptables pm).uninstall_cmd))

  unfoldable pub upgrade : Exec Unit
  upgrade = do
    installed ← found h "iptables"
    when installed (wrapping "failed to upgrade iptables" (retry h (get_iptables pm).upgrade_cmd))
