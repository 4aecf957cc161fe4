-- ===== src/Flows/Store.antt =====
-- internal/tracker/artifacts.go: the tracker's file
use eks_hybrid.Base.{String, Option, none, some, not_exist, panic, Result, ok, err, wrap_err}
use eks_hybrid.Machine.{
  Host, Exec, lift, gets, ◌>>=◌, ◌>>◌, os_read_file, os_remove_all, write_file_with_dir,
}
use eks_hybrid.Tracker.{InstalledArtifacts, no_artifacts, containerd_source}
use eks_hybrid.Components.Containerd.{set_source}

abbrev pub tracker_file : String
tracker_file = "/opt/nodeadm/tracker"

abbrev pub tracker_dir : String
tracker_dir = "/opt/nodeadm"

-- the tracker in memory takes these artifacts
unfoldable pub load : InstalledArtifacts → Exec Unit
load a w = (ok tt, record w { artifacts = a })

-- A nil pointer to the artifacts panics where its field is read.
abbrev pub deref : Option InstalledArtifacts → Result InstalledArtifacts
deref none = err (panic "nil artifacts")
deref (some a) = ok a

-- ContainerdSource applied to the artifacts
unfoldable pub normalised : InstalledArtifacts → Result InstalledArtifacts
unfolding containerd_source
normalised a = elim (containerd_source a.containerd) [
  | ok s ↦ ok (record a { containerd = s })
  | err e ↦ err e
]

module _ (h : Host) where
  unfoldable pub save : Exec Unit
  unfolding containerd_source set_source
  save = do
    a ← gets (λ w. w.artifacts)
    source ← lift (containerd_source a.containerd)
    set_source source
    b ← gets (λ w. w.artifacts)
    encoded ← lift (h.marshal b)
    write_file_with_dir h tracker_file encoded

  unfoldable pub clear : Exec Unit
  clear = os_remove_all h tracker_dir

  unfoldable pub get_installed_artifacts : Exec InstalledArtifacts
  unfolding normalised
  get_installed_artifacts = do
    contents ← os_read_file h tracker_file
    decoded ← lift (wrap_err "invalid yaml data in tracker" (h.unmarshal contents))
    a ← lift (deref decoded)
    lift (normalised a)

  -- No tracker file is an empty tracker.
  abbrev pub or_new : Result InstalledArtifacts → Exec Unit
  or_new (ok a) = load a
  or_new (err not_exist) = load no_artifacts
  or_new (err e) = lift (err e)

  unfoldable pub get_current_state : Exec Unit
  unfolding load
  get_current_state w = let (r, w') = get_installed_artifacts w in or_new r w'
