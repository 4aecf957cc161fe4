-- ===== src/Node/Enrich.antt =====
-- internal/node/hybrid/configenricher.go and getCluster of hybrid.go. DescribeCluster and the
-- base64 decoder are parameters.
use eks_hybrid.Base.{
  String, str_eq, if◌then◌else◌, ◌≡◌, refl, Bool, true, false, ◌||◌, Option, none, some, errorf,
  panic, Result, ok, err, Bool-cases, Option-cases, inl, inr,
}
use eks_hybrid.Machine.{Bytes}
use eks_hybrid.Release.Defs.{RegionData}
use eks_hybrid.Config.Defs.{ClusterDetails, NodeConfig}
use eks_hybrid.Config.Validate.{or_default}
use eks_hybrid.Node.Registry.{RegistryHost, get_hybrid_registry, sandbox_image_of}

-- types.Cluster: what is read of it, a nil pointer on the way to a value being `none`
pub record EksCluster : Type 0 where
  pub status : String
  pub has_remote_network_config : Bool
  pub endpoint : Option String
  pub certificate_authority : Option String
  pub service_ipv4_cidr : Option String

pub record HybridNodeProvider : Type 0 where
  pub node_config : NodeConfig
  -- the cluster that DescribeCluster returned before
  pub cluster : Option EksCluster

abbrev pub deref : Option String → Result String
deref (some s) = ok s
deref none = err (panic "nil pointer dereference")

pub record ClusterService : Type 0 where
  pub describe_cluster : String → Result EksCluster
  pub decode : String → Result Bytes

abbrev pub cluster_of : HybridNodeProvider → ClusterDetails
cluster_of p = p.node_config.spec.cluster

abbrev pub with_cluster : ClusterDetails → HybridNodeProvider → HybridNodeProvider
with_cluster d p = record p {
  node_config = record p.node_config { spec = record p.node_config.spec { cluster = d } };
}

abbrev pub is_nil : Option Bytes → Bool
is_nil none = true
is_nil (some b) = false

unfoldable pub needs_cluster_details : ClusterDetails → Bool
needs_cluster_details d =
    str_eq d.api_server_endpoint "" || (is_nil d.certificate_authority || str_eq d.cidr "")

module _ (s : ClusterService) where
  abbrev pub cached :
      HybridNodeProvider → Result EksCluster → Result EksCluster × HybridNodeProvider
  cached p (ok c) = (ok c, record p { cluster = some c })
  cached p (err e) = (err e, p)

  abbrev pub cluster_or_read :
      HybridNodeProvider → Option EksCluster → Result EksCluster × HybridNodeProvider
  cluster_or_read p (some c) = (ok c, p)
  cluster_or_read p none = cached p (s.describe_cluster (cluster_of p).name)

  -- getCluster
  unfoldable pub get_cluster : HybridNodeProvider → Result EksCluster × HybridNodeProvider
  get_cluster p = cluster_or_read p p.cluster

  -- One of the three assignments, on the details as they are so far
  abbrev pub Filled : Type 0
  Filled = Result (Unit {0}) × ClusterDetails

  abbrev pub assign : {A : Type 0} → Result A → (A → ClusterDetails) → ClusterDetails → Filled
  assign (ok a) set d = (ok tt, set a)
  assign (err e) set d = (err e, d)

  abbrev pub fill_endpoint : EksCluster → ClusterDetails → Filled
  fill_endpoint c d =
      if str_eq d.api_server_endpoint ""
      then assign (deref c.endpoint) (λ e. record d { api_server_endpoint = e }) d
      else (ok tt, d)

  abbrev pub decoded_or : Result String → Result Bytes
  decoded_or (ok text) = s.decode text
  decoded_or (err e) = err e

  abbrev pub fill_authority : EksCluster → ClusterDetails → Filled
  fill_authority c d =
      if is_nil d.certificate_authority
      then assign (decoded_or (deref c.certificate_authority))
          (λ b. record d { certificate_authority = some b }) d
      else (ok tt, d)

  abbrev pub fill_cidr : EksCluster → ClusterDetails → Filled
  fill_cidr c d =
      if str_eq d.cidr ""
      then assign (deref c.service_ipv4_cidr) (λ x. record d { cidr = x }) d
      else (ok tt, d)

  abbrev pub and_then : Filled → (ClusterDetails → Filled) → Filled
  and_then (ok _, d) next = next d
  and_then (err e, d) next = (err e, d)

  unfoldable pub fill_details : EksCluster → ClusterDetails → Filled
  fill_details c d =
      if str_eq c.status "ACTIVE"
      then (if c.has_remote_network_config
          then and_then (and_then (fill_endpoint c d) (fill_authority c)) (fill_cidr c)
          else (
            err (
                errorf
                  "eks cluster does not have remoteNetworkConfig enabled, which is required for Hybrid Nodes"),
            d,
          ))
      else (err (errorf "eks cluster is not active"), d)

  abbrev pub filled_from :
      Result EksCluster × HybridNodeProvider → Result (Unit {0}) × HybridNodeProvider
  filled_from (err e, p) = (err e, p)
  filled_from (ok c, p) = let (r, d) = fill_details c (cluster_of p) in (r, with_cluster d p)

  -- ensureClusterDetails
  unfoldable pub ensure_cluster_details :
      HybridNodeProvider → Result (Unit {0}) × HybridNodeProvider
  ensure_cluster_details p = filled_from (get_cluster p)

  abbrev pub with_image : String → HybridNodeProvider → HybridNodeProvider
  with_image registry p = record p {
    node_config = record p.node_config {
      status = record p.node_config.status { sandbox_image = sandbox_image_of registry };
    };
  }

  abbrev pub enriched : HybridNodeProvider → Result String → Result (Unit {0}) × HybridNodeProvider
  enriched p (err e) = (err e, p)
  enriched p (ok registry) =
      if needs_cluster_details (cluster_of p)
      then ensure_cluster_details (with_image registry p)
      else (ok tt, with_image registry p)

  -- Enrich
  unfoldable pub enrich :
      RegistryHost → HybridNodeProvider → Option RegionData → Result (Unit {0}) × HybridNodeProvider
  enrich h p config = enriched p (get_hybrid_registry h (cluster_of p).region config)

  abbrev pub authority_or : Option Bytes → Bytes → Option Bytes
  authority_or none b = some b
  authority_or (some a) b = some a

  endpoint_filled :
      (c : EksCluster) (d : ClusterDetails) (e : String)
      → c.endpoint ≡ some e
      → fill_endpoint c d
        ≡ (ok tt, record d { api_server_endpoint = or_default d.api_server_endpoint e })
  endpoint_filled c d e q = rw q (elim (Bool-cases (str_eq d.api_server_endpoint "")) [
    | inl y ↦ rw y refl
    | inr n ↦ rw n refl
  ])

  authority_filled :
      (c : EksCluster) (d : ClusterDetails) (text : String) (ca : Bytes)
      → c.certificate_authority ≡ some text
      → s.decode text ≡ ok ca
      → fill_authority c d
        ≡ (ok tt, record d { certificate_authority = authority_or d.certificate_authority ca })
  authority_filled c d text ca q r =
      rw (q, r)
        (elim (Option-cases d.certificate_authority) [ inl y ↦ rw y refl | inr (a, y) ↦ rw y refl ])

  cidr_filled :
      (c : EksCluster) (d : ClusterDetails) (x : String)
      → c.service_ipv4_cidr ≡ some x
      → fill_cidr c d ≡ (ok tt, record d { cidr = or_default d.cidr x })
  cidr_filled c d x q =
      rw q (elim (Bool-cases (str_eq d.cidr "")) [ inl y ↦ rw y refl | inr n ↦ rw n refl ])

  -- From an active cluster that has a remote network, each of the three details that the
  -- configuration leaves open is filled in, and each that it gives stays.
  pub fill_details-open :
      (c : EksCluster) (d : ClusterDetails) (endpoint text cidr : String) (ca : Bytes)
      → c.status ≡ "ACTIVE"
      → c.has_remote_network_config ≡ true
      → c.endpoint ≡ some endpoint
      → c.certificate_authority ≡ some text
      → s.decode text ≡ ok ca
      → c.service_ipv4_cidr ≡ some cidr
      → fill_details c d ≡ (
        ok tt,
        record d {
          api_server_endpoint = or_default d.api_server_endpoint endpoint;
          certificate_authority = authority_or d.certificate_authority ca;
          cidr = or_default d.cidr cidr;
        },
      )
  unfolding fill_details
  fill_details-open c d endpoint text cidr ca e1 e2 e3 e4 e5 e6 =
      rw
        (
          endpoint_filled c d endpoint e3,
          authority_filled c _ text ca e4 e5,
          cidr_filled c _ cidr e6,
          e1,
          e2,
        )
        refl
