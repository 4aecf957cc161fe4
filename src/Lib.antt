-- ===== src/Lib.antt =====
-- nodeadm, the program that makes a machine a node of an EKS cluster (cmd/nodeadm, internal/).
--
-- The parts and the files that model them:
--   Base        shared names, Go errors as values, tests on numbers and texts, and integers (Base/Int)
--   Machine     the operating system and the libraries, as a parameter `Host`, and the monad the code
--               runs in: `Exec A` is World → Result A × World. The world holds the calls made so far,
--               the files and the tracker in memory. The host answers each call, and sees all calls made
--               before it, so a theorem over all hosts covers every order of failures. Machine/Retry is
--               internal/util/cmd/retry.go, Machine/Lines the lines that bufio.Scanner reads.
--               Machine/Triple, Gives, Frame, Absent, Retried and Success hold the lemmas on what code
--               reaches and what it leaves alone.
--   Tracker     internal/tracker/artifacts.go in memory; Flows/Store is its file
--   Artifact    internal/artifact: checksums, InstallFile, InstallTarGz, Upgrade
--   Release     internal/aws/manifest.go, source.go and partition.go: the choice of a release
--   PackageManager  internal/packagemanager/packagemanager.go and internal/artifact/package.go
--   Components  one file for each thing installed: kubelet, kubectl, the authenticator and the image
--               credential provider (Binaries), the CNI plugins, IAM Roles Anywhere, iptables,
--               containerd and the SSM agent, as in the directories of internal/ of those names, with
--               WriteFileUniqueLine of internal/util/files.go (Ssm, UniqueLine)
--   Flows       internal/flows: install, uninstall, upgrade and init, composed from the components
--   Rules       rules without effects: kubelet's reservations (internal/kubelet/config.go), the node's
--               address (internal/network), swap (internal/system/swap.go) and the runner of
--               validations (internal/validation)
--   Config      internal/api/types.go and internal/creds: the configuration of a node; its defaults and
--               its validation (internal/node/hybrid/validator.go, defaults.go), with the two patterns
--               for activations; Config/Certificate is internal/certificate and internal/kubernetes/cert.go
--   Node        internal/node and internal/node/hybrid: the pods of a drained node, the version skew, the
--               access entries, the inactive node, the enrichment of the configuration, the image registry
--               (internal/aws/ecr), and the AWS configuration (Aws, internal/iamrolesanywhere/aws_config.go)
--   Daemons     internal/daemon (Manager, Wait), and the daemons of containerd, SSM and IAM Roles
--               Anywhere (Services) over it
--   Kubelet     internal/kubelet: the configuration, the node's name, the files and the daemon
--   System      internal/system: the aspects (swap in SwapSetup, over the lines of Rules/Swap), cores and
--               processors that are online, and the validator of time; internal/firewall
--   Retrier     internal/retry
--   Proxy       internal/network/proxy.go and proxy_validator.go
--   Connection  internal/network/connection.go
--   Mirror      cmd/nodeadm/sync_artifacts; Mirror/Run is what it does to the bucket, Mirror/Listed which
--               artifacts the custom manifest lists
--   Commands    the commands install, uninstall, upgrade and init (cmd/nodeadm), which gate the flows,
--               and the checks of internal/node/validations.go they make first
--   Examples    the theorems applied to a machine on which every call succeeds and to small inputs
--
-- An operation of the source is a definition of the same name in snake case. A flow calls its
-- components, a component calls Artifact and Machine, and each reports to the tracker, whose file is
-- what a later uninstallation or upgrade starts from.
--
-- Bounds: downloads are tried three times, as in the source. A retried command runs for as many waits
-- as the host says pass before its context is done; a context that is never done with a command that
-- never succeeds is not covered. The waits of internal/daemon are bounded in the same way. The loop over
-- the pages of access entries has a number of rounds, of which as many as there are pages are enough. A
-- difference of minor versions is read as a signed 64-bit number, as the source converts it, and the
-- number of a processor is cut to 16 bits. A line of a scanned file has at most 65535 bytes before its
-- line break: at a longer one the scan ends, as in the source. No other code needs fuel.
--
-- Not modelled: logging; file permissions and owners, which no modelled step reads; closing of files;
-- the transport of downloads, decompression and YAML, JSON and PGP libraries, which are fields of Host
-- or parameters, as are x509, semantic versions, D-Bus, S3, the Kubernetes client and the services of
-- AWS. A symbolic link is the link's own path; what lies behind it is told by the host. The merge of
-- configurations but for kubelet's options, the table of pods by instance type and the limits
-- of processes are not modelled; nor are the EC2 node provider and the end-to-end tests, which call
-- AWS throughout, and generated code.
pub mod Base
pub mod Tracker
pub mod Machine
pub mod Artifact
pub mod Release
pub mod PackageManager
pub mod Components
pub mod Flows
pub mod Rules
pub mod Config
pub mod Node
pub mod Daemons
pub mod System
pub mod Kubelet
pub mod Retrier
pub mod Proxy
pub mod Connection
pub mod Mirror
pub mod Commands
pub mod Examples
