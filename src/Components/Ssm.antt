-- ===== src/Components/Ssm.antt =====
-- internal/ssm/install.go and internal/ssm/registration.go
use eks_hybrid.Base.{
  ℕ, String, str_eq, ◌==◌, if◌then◌else◌, Bool, true, false, ◌&&◌, ◌||◌, not, Option, none, some,
  List, [], ◌∷◌, ◌++◌, codes, not_exist, wrap, Result, ok, err, of_error,
}
use eks_hybrid.Machine.{
  Bytes, mkdir_all, stat, service, Host, Exec, pure, lift, gets, ◌>>=◌, ◌>>◌, wrapping, when,
  attempts, act, test, get_source, os_remove_all, os_open_append, or_empty, os_read_file,
  os_write_file, retry,
}
use eks_hybrid.Machine.Lines.{scan}
use eks_hybrid.PackageManager.{DistroPackageManager, get_ssm_package}
use eks_hybrid.Artifact.Install.{install_file}
use eks_hybrid.Components.Download.{track}
use eks_hybrid.Components.Gather.{run_all}

abbrev pub installer_path : String
installer_path = "/opt/ssm/ssm-setup-cli"

abbrev pub config_path : String
config_path = "/etc/amazon/ssm/amazon-ssm-agent.json"

abbrev pub config_root : String
config_root = "/etc/amazon"

abbrev pub registration_path : String
registration_path = "/var/lib/amazon/ssm/registration"

-- A JSON value, as far as the code looks into one; `other` is any value but an object.
mutual
  pub data Json : Type 0 where
    number : ℕ → Json
    object : Fields → Json
    other : Bytes → Json

  pub data Fields : Type 0 where
    end : Fields
    field : String → Json → Fields → Fields

unfoldable pub get_field : String → Fields → Option Json
get_field k end = none
get_field k (field j v fs) = if str_eq j k then some v else get_field k fs

unfoldable pub set_field : String → Json → Fields → Fields
set_field k v end = field k v end
set_field k v (field j u fs) = if str_eq j k then field k v fs else field j u (set_field k v fs)

-- config["Ssm"].(map[string]interface{}), made anew where it is not there
abbrev pub ssm_section : Option Json → Fields
ssm_section (some (object fs)) = fs
ssm_section _ = end

unfoldable pub with_credential_retry : Fields → Fields
unfolding get_field set_field
with_credential_retry config =
    set_field "Ssm"
      (object (
        set_field "CredentialRetryMaxSleepSeconds" (number 60)
          (ssm_section (get_field "Ssm" config))))
      config

-- encoding/json; `none` is the nil map that `null` gives
pub record JsonCodec : Type 0 where
  pub parse : Bytes → Result (Option Fields)
  pub render : Fields → Result Bytes

abbrev pub config_of : Option Fields → Fields
config_of none = end
config_of (some fs) = fs

abbrev pub starts_bytes : Bytes → Bytes → Bool
starts_bytes [] _ = true
starts_bytes (d ∷ ds) [] = false
starts_bytes (d ∷ ds) (c ∷ cs) = (d == c) && starts_bytes ds cs

-- strings.Contains, on bytes
unfoldable pub holds : Bytes → Bytes → Bool
holds wanted [] = starts_bytes wanted []
holds wanted (c ∷ cs) = starts_bytes wanted (c ∷ cs) || holds wanted cs

unfoldable pub some_line_holds : Bytes → List Bytes → Bool
some_line_holds wanted [] = false
some_line_holds wanted (line ∷ lines) = holds wanted line || some_line_holds wanted lines

module _ (h : Host) where
  -- util.WriteFileUniqueLine: the data is appended unless a scanned line holds it.
  unfoldable pub write_file_unique_line : String → Bytes → Exec Unit
  write_file_unique_line path wanted = do
    act h (mkdir_all (h.dir path))
    os_open_append h path
    file ← gets (λ w. or_empty (w.files path))
    when (not (some_line_holds wanted (scan file)))
        (os_write_file h path (file ++ (wanted ++ codes "\n")))

  abbrev home_dir : Option String → String
  home_dir none = "/root"
  home_dir (some d) = d

  unfoldable pub write_gpg_config : Exec Unit
  write_gpg_config =
      write_file_unique_line (h.join (home_dir h.home) ".gnupg/gpg.conf") (codes "no-tty")

  -- The installer is written only if its signature holds.
  unfoldable pub download_file_to : Exec Unit
  download_file_to = do
    installer ← wrapping "getting ssm-setup-cli" (get_source h "ssm-setup-cli")
    signature ← wrapping "getting ssm-setup-cli signature" (get_source h "ssm-setup-cli.sig")
    wrapping "validating ssm-setup-cli signature"
        (lift (of_error (h.signature_error installer.contents signature.contents)))
    wrapping "installing ssm-setup-cli" (install_file h installer_path installer.contents)

  unfoldable pub run_install : String → Exec Unit
  run_install region = retry h (record {
    path = installer_path;
    args = "-install" ∷ "-region" ∷ region ∷ "-version" ∷ "latest" ∷ [];
  })

-- A failing os.Stat is passed over.
abbrev pub ignoring : Exec (Unit {0}) → Exec (Unit {0})
ignoring m w = (ok tt, (m w).1)

module _ (h : Host) (json : JsonCodec) where
  -- The file's content as fields, or no fields where there is no file.
  abbrev read_config : Result Bytes → Exec Fields
  read_config (ok b) = do
    ignoring (act h (stat config_path))
    fs ← wrapping "failed to parse existing config file" (lift (json.parse b))
    pure (config_of fs)
  read_config (err not_exist) = do
    wrapping "failed to create config directory" (act h (mkdir_all (h.dir config_path)))
    pure end
  read_config (err e) = lift (err (wrap "failed to read existing config file" e))

  unfoldable pub configure_agent : Exec Unit
  unfolding with_credential_retry
  configure_agent = do
    config ← (λ w. let (r, w') = os_read_file h config_path w in read_config r w')
    updated ←
        wrapping "failed to marshal config data" (lift (json.render (with_credential_retry config)))
    wrapping "failed to write config file" (os_write_file h config_path updated)

  unfoldable pub install_from_source : String → Exec Unit
  install_from_source region = do
    wrapping "writing gpg config file" (write_gpg_config h)
    wrapping "failed to install ssm installer" (attempts 3 (ok tt) (download_file_to h))
    wrapping "failed to install ssm agent" (run_install h region)
    wrapping "failed to configure ssm agent" configure_agent

  unfoldable pub install : String → Exec Unit
  install region = do install_from_source region; track "ssm"

  unfoldable pub upgrade : String → Exec Unit
  upgrade region = install_from_source region

module _ (h : Host) where
  -- GetManagedHybridInstanceId
  unfoldable pub managed_instance_id : Exec String
  managed_instance_id = do
    contents ← os_read_file h registration_path
    (id, _) ← lift (h.registration contents)
    pure id

  abbrev region_or_empty : Result (String × String) → Result String
  region_or_empty (ok (_, region)) = ok region
  region_or_empty (err _) = ok ""

  abbrev pub region_if_registered : Result String → Exec String
  region_if_registered (err _) w = (ok "", w)
  region_if_registered (ok _) w =
      let (r, w') = (os_read_file h registration_path >>= λ b. lift (h.registration b)) w in
      (region_or_empty r, w')

  -- GetRegion: any error reads as the empty region.
  unfoldable pub get_region : Exec String
  get_region w = let (r, w') = managed_instance_id w in region_if_registered r w'

  -- isInstanceManaged: whether any instance information comes back
  unfoldable pub is_instance_managed : Exec Bool
  is_instance_managed = do
    act h (service "DescribeInstanceInformation")
    test h (service "InstanceInformationList")

  abbrev pub deregister_id : Result String → Exec Unit
  deregister_id (err not_exist) = pure tt
  deregister_id (err e) = lift (err (wrap "reading ssm registration file" e))
  deregister_id (ok _) = do
    managed ← wrapping "getting managed instance information" is_instance_managed
    when managed (
        wrapping "deregistering ssm managed instance" (act h (service "DeregisterManagedInstance")))

  -- A node that is not registered has nothing to deregister.
  unfoldable pub deregister : Exec Unit
  deregister w = let (r, w') = managed_instance_id w in deregister_id r w'

  abbrev remove_path : String → String → Exec Unit
  remove_path path message = wrapping message (os_remove_all h path)

module _ (h : Host) (pm : DistroPackageManager) where
  unfoldable pub uninstall_pre_register_components : Exec Unit
  uninstall_pre_register_components = do
    wrapping "uninstalling ssm" (retry h (get_ssm_package pm).uninstall_cmd)
    os_remove_all h installer_path

  -- All six actions run, and their errors are joined.
  unfoldable pub uninstall : Exec Unit
  uninstall = run_all (
      deregister h
      ∷ remove_path h registration_path "uninstalling ssm registration file"
      ∷ uninstall_pre_register_components
      ∷ remove_path h config_root "uninstalling ssm config files"
      ∷ remove_path h "/eks-hybrid/.aws" "uninstalling ssm aws config symlink"
      ∷ remove_path h "/root/.aws" "uninstalling ssm aws config"
      ∷ [])
