-- ===== src/Rules/Network.antt =====
-- internal/network/utils.go and interface.go: whether the node's address is one the cluster expects.
use eks_hybrid.Base.{
  ℕ, String, ◌<>◌, str_eq, cut_prefix, leb, Bool, true, false, not, ◌&&◌, ◌||◌, if◌then◌else◌,
  Option, none, some, List, [], ◌∷◌, errorf, wrap, Result, ok, err, wrap_err,
}
use eks_hybrid.Machine.{Bytes}
use eks_hybrid.Release.Select.{◌>>=◌, ◌>>◌, require}

-- net.Interface as far as it is read
pub record Interface : Type 0 where
  pub loopback : Bool
  pub up : Bool
  pub mtu : ℕ
  pub addrs : Result (List (Option Bytes))

-- The package net, and the host's network stack behind the interface Network. An address is the
-- bytes of a net.IP that is not nil.
pub record Net : Type 0 where
  pub parse_ip : String → Option Bytes
  -- the network's Contains
  pub parse_cidr : String → Result (Bytes → Bool)
  pub is_v4 : Bytes → Bool
  pub is_v16 : Bytes → Bool
  pub is_loopback : Bytes → Bool
  pub is_multicast : Bytes → Bool
  pub is_link_local : Bytes → Bool
  pub is_unspecified : Bytes → Bool
  pub equal : Bytes → Bytes → Bool
  pub lookup_ip : String → List Bytes
  pub resolve_bind_address : Option Bytes → Result (Option Bytes)
  pub interface_addrs : Result (List (Option Bytes))
  pub interfaces : Result (List Interface)

-- the last non-empty value so far
abbrev pub taken : Option String → String → String
taken none value = value
taken (some v) value = if str_eq v "" then value else v

unfoldable pub extract_flag_value : String → List String → String → String
extract_flag_value value [] flag = value
extract_flag_value value (arg ∷ args) flag =
    extract_flag_value (taken (cut_prefix arg ("--" <> flag <> "=")) value) args flag

unfoldable pub node_cidrs : List (List String) → List String
node_cidrs [] = []
node_cidrs ([] ∷ networks) = node_cidrs networks
node_cidrs ((cidr ∷ cidrs) ∷ networks) =
    let rest = node_cidrs (cidrs ∷ networks) in if str_eq cidr "" then rest else cidr ∷ rest

-- ValidateMTU
unfoldable pub validate_mtu : ℕ → Result (Unit {0})
validate_mtu mtu =
    if leb mtu 0
    then err (errorf "MTU must be a positive value")
    else if leb 68 mtu && leb mtu 1500
    then ok tt
    else if leb 8000 mtu && leb mtu 9001
    then ok tt
    else err (errorf "MTU is not in acceptable ranges")

module _ (n : Net) where
  unfoldable pub contains_ip : String → Bytes → Result Bool
  contains_ip cidr ip = do inside ← n.parse_cidr cidr; ok (inside ip)

  abbrev pub in_or : Bytes → String → Result Bool → Result Bool → Result Bool
  in_or ip cidr (err e) more = err (wrap "error checking IP in CIDR" e)
  in_or ip cidr (ok true) more = ok true
  in_or ip cidr (ok false) more = more

  unfoldable pub in_some_cidr : Bytes → List String → Result Bool
  unfolding contains_ip
  in_some_cidr ip [] = ok false
  in_some_cidr ip (cidr ∷ cidrs) = in_or ip cidr (contains_ip cidr ip) (in_some_cidr ip cidrs)

  unfoldable pub is_ip_in_cidrs : Bytes → List String → Result Bool
  is_ip_in_cidrs ip cidrs =
      if n.is_v4 ip then in_some_cidr ip cidrs else err (errorf "error: ip is invalid")

  -- ExtractNodeIPFromFlags
  abbrev pub parsed_ip : Option Bytes → Result (Option Bytes)
  parsed_ip none = err (errorf "invalid ip in --node-ip flag. only 1 IPv4 address is allowed")
  parsed_ip (some ip) =
      if n.is_v4 ip
      then ok (some ip)
      else err (errorf "invalid IPv6 address in --node-ip flag. only IPv4 is supported")

  unfoldable pub node_ip_from_flags : List String → Result (Option Bytes)
  unfolding extract_flag_value
  node_ip_from_flags args =
      let text = extract_flag_value "" args "node-ip" in
      if str_eq text "" then ok none else parsed_ip (n.parse_ip text)

  abbrev pub has_addr : Bytes → List (Option Bytes) → Bool
  has_addr ip [] = false
  has_addr ip (none ∷ addrs) = has_addr ip addrs
  has_addr ip (some a ∷ addrs) = n.equal a ip || has_addr ip addrs

  unfoldable pub validate_node_ip : Bytes → Result (Unit {0})
  validate_node_ip ip = do
    require (n.is_v4 ip || n.is_v16 ip) (errorf "nodeIP must be a valid IP address")
    require (not (n.is_loopback ip)) (errorf "nodeIP can't be loopback address")
    require (not (n.is_multicast ip)) (errorf "nodeIP can't be a multicast address")
    require (not (n.is_link_local ip)) (errorf "nodeIP can't be a link-local unicast address")
    require (not (n.is_unspecified ip)) (errorf "nodeIP can't be an all zeros address")
    addrs ← n.interface_addrs
    require (has_addr ip addrs) (errorf "node IP not found in the host's network interfaces")

  abbrev pub is_ok : Result (Unit {0}) → Bool
  is_ok (ok _) = true
  is_ok (err _) = false

  -- the first address of the node's name that is IPv4 and valid on this host
  unfoldable pub looked_up : List Bytes → Option Bytes
  unfolding validate_node_ip
  looked_up [] = none
  looked_up (ip ∷ ips) =
      let rest = looked_up ips in
      if n.is_v4 ip && is_ok (validate_node_ip ip) then some ip else rest

  abbrev pub usable : Option Bytes → Result Bytes
  usable none = err (errorf "couldn't get ip address of node")
  usable (some ip) = ok ip

  abbrev pub resolved : Option Bytes → Option Bytes → Result Bytes
  resolved node_ip (some ip) = ok ip
  resolved node_ip none =
      wrap_err "couldn't get ip address of node" (n.resolve_bind_address node_ip) >>= usable

  abbrev pub by_name : Option Bytes → String → Result Bytes
  unfolding looked_up
  by_name node_ip node_name =
      resolved node_ip (if str_eq node_name "" then none else looked_up (n.lookup_ip node_name))

  abbrev pub specified : String → Option Bytes → Result Bytes
  specified node_name none = by_name none node_name
  specified node_name (some ip) =
      if n.is_v4 ip && not (n.is_unspecified ip) then ok ip else by_name (some ip) node_name

  unfoldable pub get_node_ip : List String → String → Result Bytes
  unfolding node_ip_from_flags
  get_node_ip args node_name = node_ip_from_flags args >>= specified node_name

  -- FindNetworkInterfaceForIP: an interface whose addresses cannot be listed is passed over.
  abbrev pub listed : Result (List (Option Bytes)) → List (Option Bytes)
  listed (ok addrs) = addrs
  listed (err _) = []

  unfoldable pub find_interface : Bytes → List Interface → Result Interface
  find_interface ip [] = err (errorf "no active network interface found with IP")
  find_interface ip (i ∷ rest) =
      let more = find_interface ip rest in
      if i.loopback || not i.up then more else if has_addr ip (listed i.addrs) then ok i else more

  unfoldable pub validate_interface_mtu : Bytes → Result (Unit {0})
  unfolding find_interface validate_mtu
  validate_interface_mtu ip = do
    interfaces ← wrap_err "failed to get network interfaces" n.interfaces
    i ← find_interface ip interfaces
    wrap_err "interface has invalid MTU" (validate_mtu i.mtu)

-- The cluster as far as it is read: the CIDR blocks of its remote node networks, if it has a remote
-- network configuration and networks in it.
abbrev pub RemoteNetworks : Type 0
RemoteNetworks = Option (Option (List (List String)))

abbrev pub networks_of : RemoteNetworks → Result (List (List String))
networks_of none = err (errorf "remote network config is not set for cluster")
networks_of (some none) =
    err (errorf "remote node networks not found in remote network config for cluster")
networks_of (some (some networks)) = ok networks

module _ (n : Net) where
  -- what Run does once there is a cluster; the remediations are left out.
  unfoldable pub validate_in : Bool → RemoteNetworks → List String → String → Result (Unit {0})
  unfolding get_node_ip node_cidrs
  validate_in check_mtu cluster args node_name = do
    networks ← networks_of cluster
    ip ← get_node_ip n args node_name
    valid ← is_ip_in_cidrs n ip (node_cidrs networks)
    require valid (errorf "node IP is not in any of the remote network CIDR blocks")
    if check_mtu then validate_interface_mtu n ip else ok tt

  -- (NetworkInterfaceValidator).Run: without a cluster the validation is skipped.
  unfoldable pub validate : Bool → Option RemoteNetworks → List String → String → Result (Unit {0})
  unfolding validate_in
  validate check_mtu none args node_name = ok tt
  validate check_mtu (some cluster) args node_name = validate_in check_mtu cluster args node_name
