-- ===== src/Examples/System.antt =====
-- The theorems on processors, kubelet, retries, the mirror, swap and unique lines, applied to small
-- inputs.
use eks_hybrid.Base.{
  pos, All, codes, ℕ, ◌+◌, ◌==◌, ◌≤◌, String, ◌<>◌, str_eq, ◌≡◌, ◌↔◌, refl, Bool, true, false, none,
  some, List, [], ◌∷◌, ◌++◌, map, if◌then◌else◌, errorf, arith, Result, ok, err,
}
use eks_hybrid.Config.Validate.{extract_flag}
use eks_hybrid.Examples.Quiet.{empty_world, quiet_host, west}
use eks_hybrid.System.Cores.{
  Core, CpuDir, thread_count, usable, get_cores_info, get_cores_info-count,
}
use eks_hybrid.System.Online.{in_some, online_in, online_in-AllStandFor}
use eks_hybrid.Kubelet.NodeName.{
  hybrid_provider_id, get_node_name, get_node_name-hybrid_provider_id,
}
use eks_hybrid.Kubelet.Write.{Formats, kubelet_args}
use eks_hybrid.Kubelet.Flags.{kubelet_args-last}
use eks_hybrid.Retrier.{max_consecutive, state_after, max_consecutive-after_success}
use eks_hybrid.Machine.Lines.{unlines, IsLine}
use eks_hybrid.Machine.{or_empty, Bytes, pure, World}
use eks_hybrid.System.SwapSetup.{set_up_swap}
use eks_hybrid.System.SwapGone.{IsRewritten, set_up_swap-IsRewritten}
use eks_hybrid.Components.Ssm.{write_file_unique_line}
use eks_hybrid.Components.UniqueLine.{OneHolds, write_file_unique_line-OneHolds}
use eks_hybrid.Mirror.{ArtifactInfo, Downloader, collect_artifacts, custom_manifest}
use eks_hybrid.Mirror.Run.{MirrorHost, run_mirror}
use eks_hybrid.Mirror.Synced.{AllMirrored, IsWritten, run_mirror-AllMirrored}

abbrev cpu : ℕ → ℕ → CpuDir
cpu thread physical = record {
  cpu_id = ok thread;
  core_id = ok (pos physical);
  package_id = ok (pos 0);
}

-- three processors on two cores, of which the second is offline
abbrev cpus : List CpuDir
cpus = cpu 0 0 ∷ cpu 1 0 ∷ cpu 2 1 ∷ []

abbrev two_online : ℕ → Bool
two_online id = if id == 1 then false else true

abbrev cores : List Core
cores =
    record { id = pos 0; threads = 0 ∷ []; socket_id = pos 0 }
    ∷ record { id = pos 1; threads = 2 ∷ []; socket_id = pos 0 }
    ∷ []

get_cores_info-count_example : thread_count cores ≡ usable two_online cpus + 0
unfolding get_cores_info eks_hybrid.System.Cores.add_thread eks_hybrid.System.Cores.add_to_last
    thread_count
get_cores_info-count_example = get_cores_info-count two_online cpus [] cores refl

abbrev parse_digit : String → Result ℕ
parse_digit s =
    if str_eq s "0"
    then ok 0
    else if str_eq s "3"
    then ok 3
    else if str_eq s "7"
    then ok 7
    else err (errorf "syntax")

online_in-AllStandFor_example :
    online_in parse_digit 2 (("0" ∷ "3" ∷ []) ∷ ("7" ∷ []) ∷ [])
    ≡ ok (in_some parse_digit 2 ((0, 3) ∷ (7, 7) ∷ []))
online_in-AllStandFor_example =
    online_in-AllStandFor parse_digit 2 (("0" ∷ "3" ∷ []) ∷ ("7" ∷ []) ∷ []) ((0, 3) ∷ (7, 7) ∷ [])
      ((refl, refl, omega arith), ((refl, refl), tt))

get_node_name-hybrid_provider_id_example :
    get_node_name (ok (some (hybrid_provider_id "us-west-2" "prod" "mi-0123"))) ≡ ok "mi-0123"
unfolding eks_hybrid.Kubelet.NodeName.has_slash eks_hybrid.Config.Patterns.has_newline
get_node_name-hybrid_provider_id_example =
    get_node_name-hybrid_provider_id "us-west-2" "prod" "mi-0123" (λ e. cc) refl (λ e. cc) refl
      (λ e. cc) refl

abbrev formats : Formats
formats = record {
  config_json = λ c. ok [];
  merged_json = λ c d. ok [];
  user_json = λ d. ok [];
  hybrid_kubeconfig = λ v. ok [];
  kubeconfig = λ v. ok [];
  provider_json = λ n t. ok [];
  to_bytes = λ s. [];
  iterate = λ t. t;
  dir = λ p. p;
  base = λ p. p;
  provider_path = none;
}

kubelet_args-last_example :
    extract_flag ""
      (kubelet_args formats
        (("v", "2") ∷ [])
        ("--v=3" ∷ "--node-ip=::" ∷ [] ++ (("--" <> "v" <> "=" <> "4") ∷ [])))
      "v"
    ≡ "4"
kubelet_args-last_example =
    kubelet_args-last formats (("v", "2") ∷ []) ("--v=3" ∷ "--node-ip=::" ∷ []) "v" "4"

max_consecutive-after_success_example :
    (((max_consecutive 2).handle
        (state_after
          (max_consecutive 2)
          5
          ((some (errorf "a") ∷ []) ++ (none ∷ map some (errorf "b" ∷ []))))
        (some (errorf "c"))).0
      ≡ none)
    ↔ (2 ≤ 2)
max_consecutive-after_success_example =
    max_consecutive-after_success 2 5 (some (errorf "a") ∷ []) (errorf "b" ∷ []) (errorf "c")

abbrev downloader : Downloader
downloader = record {
  source = record {
    eks = record {
      version = "1.31.2";
      patch_version = "2";
      release_date = "2025-01-01";
      artifacts =
          record {
            name = "kubelet";
            arch = "amd64";
            os = "linux";
            uri = "https://kubelet";
            checksum_uri = "https://kubelet.sha256";
            gzip_uri = "";
          }
          ∷ [];
    };
    iam = record { version = "1.2.0"; artifacts = [] };
    region_info = west;
  };
  arch = "amd64";
  os = "linux";
  region = "us-west-2";
  s3_bucket = "mirror";
  s3_prefix = "nodes/";
  timestamp = "1700000000";
}

abbrev mirror_host : MirrorHost
mirror_host = record {
  get = λ url. pure (200, 1 ∷ 2 ∷ []);
  upload = λ key b. pure tt;
  head_bucket = pure tt;
  error_text = λ e. "";
  marshal = λ manifest. ok [];
}

run_mirror-AllMirrored_example :
    (found : List ArtifactInfo) × (collect_artifacts downloader ≡ ok found)
    × AllMirrored quiet_host mirror_host downloader
        (custom_manifest downloader found)
        found
        empty_world
    × IsWritten quiet_host mirror_host downloader
        (custom_manifest downloader found)
        (run_mirror quiet_host mirror_host downloader empty_world).1
unfolding eks_hybrid.Mirror.Run.run_mirror eks_hybrid.Machine.◌>>=◌ eks_hybrid.Machine.wrapping
    collect_artifacts eks_hybrid.Mirror.eks_infos eks_hybrid.Mirror.find_artifact
    eks_hybrid.Mirror.Run.sync_all eks_hybrid.Mirror.Run.sync_artifact
    eks_hybrid.Mirror.Run.stream_to_s3 eks_hybrid.Mirror.ssm_installer_url
    eks_hybrid.Mirror.Run.generate_custom_manifest eks_hybrid.Machine.os_write_file
run_mirror-AllMirrored_example =
    run_mirror-AllMirrored quiet_host mirror_host downloader empty_world tt

-- a machine on which /proc/swaps lists one file, and /etc/fstab mounts it
abbrev fstab : List Bytes
fstab = codes "# disks" ∷ codes "/dev/a / ext4" ∷ codes "/swapfile none swap" ∷ []

abbrev swap_world : World
swap_world = record empty_world {
  files = λ p.
      if str_eq p "/etc/fstab"
      then some (unlines fstab)
      else if str_eq p "/proc/swaps"
      then some (unlines (codes "Filename" ∷ codes "/swapfile file 1 0 0" ∷ []))
      else none;
}

fstab-IsLine : All IsLine fstab
unfolding eks_hybrid.Machine.Lines.has_break eks_hybrid.Machine.Lines.drop_return
fstab-IsLine =
    ((refl, refl, omega arith), ((refl, refl, omega arith), ((refl, refl, omega arith), tt)))

set_up_swap-IsRewritten_example :
    IsRewritten fstab (set_up_swap quiet_host (λ b. "/swapfile") "/proc/swaps" swap_world).1
unfolding set_up_swap eks_hybrid.Machine.◌>>=◌ eks_hybrid.System.SwapSetup.get_swapfile_paths
    eks_hybrid.Machine.os_open eks_hybrid.Rules.Swap.swap_areas eks_hybrid.Machine.Lines.scan_from
    unlines eks_hybrid.Machine.Lines.drop_return eks_hybrid.Rules.Swap.partition_swap_exists
    eks_hybrid.Artifact.Checksum.bytes_eq eks_hybrid.System.SwapSetup.swap_off
    eks_hybrid.System.SwapSetup.turn_off eks_hybrid.Machine.act eks_hybrid.Machine.reporting
    eks_hybrid.System.SwapSetup.disable_swap_on_fstab eks_hybrid.Rules.Swap.kept_lines
    eks_hybrid.System.SwapSetup.rewrite_fstab eks_hybrid.Machine.io_copy
    eks_hybrid.Machine.os_open_trunc eks_hybrid.Rules.Swap.fields_from
    eks_hybrid.Rules.Swap.parse_fstab_line eks_hybrid.Rules.Swap.parse_proc_swaps_line
    eks_hybrid.Rules.Swap.trim_left
set_up_swap-IsRewritten_example =
    set_up_swap-IsRewritten quiet_host (λ b. "/swapfile") "/proc/swaps" fstab swap_world
      fstab-IsLine refl tt

-- a machine with one line in gpg's configuration
abbrev gpg_lines : List Bytes
gpg_lines = codes "use-agent" ∷ []

abbrev gpg_world : World
gpg_world = record empty_world {
  files = λ p. if str_eq p "/root/.gnupg/gpg.conf" then some (unlines gpg_lines) else none;
}

write_file_unique_line-OneHolds_example : OneHolds (codes "no-tty") gpg_lines (
    or_empty (
      (write_file_unique_line quiet_host "/root/.gnupg/gpg.conf" (codes "no-tty") gpg_world).1.files
        "/root/.gnupg/gpg.conf"))
unfolding write_file_unique_line eks_hybrid.Machine.Lines.has_break
    eks_hybrid.Machine.Lines.drop_return eks_hybrid.Machine.◌>>=◌ eks_hybrid.Machine.act
    eks_hybrid.Machine.os_open_append eks_hybrid.Components.Ssm.some_line_holds
    eks_hybrid.Machine.Lines.scan_from unlines eks_hybrid.Components.Ssm.holds
    eks_hybrid.Machine.os_write_file
write_file_unique_line-OneHolds_example =
    write_file_unique_line-OneHolds quiet_host "/root/.gnupg/gpg.conf" (codes "no-tty") gpg_lines
      gpg_world ((refl, refl, omega arith), tt) refl tt
