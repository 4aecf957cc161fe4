-- ===== src/Tracker.antt =====
-- internal/tracker/artifacts.go: the record of what nodeadm has installed. The file behind it is
-- read and written in `Flows.Store`.
use eks_hybrid.Base.{String, ◌<>◌, Bool, true, false, str_eq, ◌||◌, if◌then◌else◌}
use eks_hybrid.Base.{Result, ok, err, errorf}

abbrev pub source_none : String
source_none = "none"

abbrev pub source_distro : String
source_distro = "distro"

abbrev pub source_docker : String
source_docker = "docker"

-- internal/artifact/hybrid.go: the names under which artifacts are tracked.
pub data Component : Type 0 where
  cni_plugins iam_authenticator iam_roles_anywhere image_credential_provider : Component
  kubectl kubelet ssm containerd iptables : Component

abbrev pub component_name : Component → String
component_name cni_plugins = "cniPlugins"
component_name iam_authenticator = "iamAuthenticator"
component_name iam_roles_anywhere = "iamRolesAnywhere"
component_name image_credential_provider = "imageCredentialProvider"
component_name kubectl = "kubectl"
component_name kubelet = "kubelet"
component_name ssm = "ssm"
component_name containerd = "containerd"
component_name iptables = "iptables"

pub record InstalledArtifacts : Type 0 where
  pub containerd : String
  pub cni_plugins : Bool
  pub iam_authenticator : Bool
  pub iam_roles_anywhere : Bool
  pub image_credential_provider : Bool
  pub kubectl : Bool
  pub kubelet : Bool
  pub ssm : Bool
  pub iptables : Bool

-- The zero value of the struct.
abbrev pub no_artifacts : InstalledArtifacts
no_artifacts = record {
  containerd = "";
  cni_plugins = false;
  iam_authenticator = false;
  iam_roles_anywhere = false;
  image_credential_provider = false;
  kubectl = false;
  kubelet = false;
  ssm = false;
  iptables = false;
}

-- (*Tracker).Add, over the artifacts that the tracker points to.
unfoldable pub add : String → InstalledArtifacts → Result InstalledArtifacts
add name a =
    if str_eq name "cniPlugins"
    then ok (record a { cni_plugins = true })
    else if str_eq name "iamAuthenticator"
    then ok (record a { iam_authenticator = true })
    else if str_eq name "iamRolesAnywhere"
    then ok (record a { iam_roles_anywhere = true })
    else if str_eq name "imageCredentialProvider"
    then ok (record a { image_credential_provider = true })
    else if str_eq name "kubectl"
    then ok (record a { kubectl = true })
    else if str_eq name "kubelet"
    then ok (record a { kubelet = true })
    else if str_eq name "ssm"
    then ok (record a { ssm = true })
    else if str_eq name "iptables"
    then ok (record a { iptables = true })
    else err (errorf "invalid artifact to track")

-- ContainerdSource: the empty source counts as "none".
unfoldable pub containerd_source : String → Result String
containerd_source s =
    if str_eq s source_distro
    then ok source_distro
    else if str_eq s source_docker
    then ok source_docker
    else if str_eq s "" || str_eq s "none"
    then ok source_none
    else err (errorf ("invalid containerd source: " <> s))
