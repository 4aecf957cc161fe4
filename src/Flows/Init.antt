-- ===== src/Flows/Init.antt =====
-- internal/flows/init.go, over internal/nodeprovider/interface.go and internal/daemon/interface.go
use eks_hybrid.Base.{
  String, not, str_eq, contains, if◌then◌else◌, Option, none, some, List, [], ◌∷◌, Result, ok, err,
}
use eks_hybrid.Machine.{World, Exec, pure, lift, ◌>>=◌, ◌>>◌, when}
use eks_hybrid.Release.Defs.{RegionData, Manifest}
use eks_hybrid.Release.Select.{find_region, manifest_url}

-- daemon.Daemon
pub record Daemon : Type 0 where
  pub configure : Exec Unit
  pub ensure_running : Exec Unit
  pub post_launch : Exec Unit

-- nodeprovider.NodeProvider: what a kind of node brings to the flow
pub record NodeProvider : Type 0 where
  pub populate_defaults : World → World
  pub validate_config : Exec Unit
  pub configure_aws : Exec Unit
  pub enrich : Option RegionData → Exec Unit
  pub validate : Exec Unit
  -- Setup of each system aspect
  pub aspects : List (Exec Unit)
  pub pre_process_daemon : Exec Unit
  pub daemons : Exec (List Daemon)
  pub cleanup : Exec Unit
  pub region : String

pub record Initer : Type 0 where
  pub provider : NodeProvider
  pub skip_phases : List String
  pub manifest_override : String
  pub default_url : String
  -- a manifest by its URI: the download and the YAML decoder
  pub fetch_manifest : String → Exec Manifest

unfoldable pub each : List (Exec Unit) → Exec Unit
each [] = pure tt
each (m ∷ ms) = do m; each ms

unfoldable pub configure_each : List Daemon → Exec Unit
configure_each [] = pure tt
configure_each (d ∷ ds) = do d.configure; configure_each ds

unfoldable pub run_each : List Daemon → Exec Unit
run_each [] = pure tt
run_each (d ∷ ds) = do d.ensure_running; d.post_launch; run_each ds

unfoldable pub init_daemons : NodeProvider → List String → Exec Unit
unfolding contains
init_daemons provider skip_phases = do
  when (not (contains skip_phases "preprocess")) provider.pre_process_daemon
  daemons ← provider.daemons
  when (not (contains skip_phases "config")) (configure_each daemons)
  when (not (contains skip_phases "run")) (run_each daemons)

-- GetRegionConfig and GetRegionConfigFromManifest
unfoldable pub region_config : Initer → Exec RegionData
region_config i = do
  m ← i.fetch_manifest (
      if str_eq i.manifest_override ""
      then manifest_url i.default_url i.provider.region
      else i.manifest_override)
  lift (find_region i.provider.region m.region_config)

-- A region that cannot be found is only warned about.
abbrev pub found_region : Result RegionData → Result (Option RegionData)
found_region (ok r) = ok (some r)
found_region (err _) = ok none

-- (*Initer).Run
unfoldable pub run : Initer → Exec Unit
run i = do
  (λ w. (ok tt, i.provider.populate_defaults w))
  i.provider.validate_config
  i.provider.configure_aws
  region ← (λ w. let (r, w') = region_config i w in (found_region r, w'))
  i.provider.enrich region
  i.provider.validate
  each i.provider.aspects
  init_daemons i.provider i.skip_phases
  i.provider.cleanup
