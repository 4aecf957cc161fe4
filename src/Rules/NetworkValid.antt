-- ===== src/Rules/NetworkValid.antt =====
-- What a node's network that passed validation has.
use eks_hybrid.Base.{
  ℕ, ◌≤◌, String, ◌≡◌, refl, ◌⊎◌, Bool, true, false, not, ◌||◌, if◌then◌else◌, arith, List, [], ◌∷◌,
  some, errorf, Result, ok, err, wrap_err,
}
use mathlib.Core.List.{Memᴰ}
use mathlib.Core.List.Memᴰ.{head, tail}
use eks_hybrid.Machine.{Bytes}
use eks_hybrid.Machine.Triple.{wrap_err-eq-ok}
use eks_hybrid.Release.Select.{require}
use eks_hybrid.Release.Chosen.{>>=-ok, require-ok}
use eks_hybrid.Rules.Network.{
  Interface, Net, node_cidrs, validate_mtu, contains_ip, in_or, in_some_cidr, is_ip_in_cidrs,
  get_node_ip, has_addr, listed, find_interface, validate_interface_mtu, RemoteNetworks,
  networks_of, validate_in, validate,
}

module _ (n : Net) where
  -- some block of the list holds the address
  abbrev InSome : Bytes → List String → Type 0
  InSome ip cidrs = (cidr : String) × (Memᴰ cidr cidrs × contains_ip n cidr ip ≡ ok true)

  InSome-cons :
      (ip : Bytes) (cidr : String) (cidrs : List String) (r : Result Bool)
      → contains_ip n cidr ip ≡ r
      → (in_some_cidr n ip cidrs ≡ ok true → InSome ip cidrs)
      → in_or n ip cidr r (in_some_cidr n ip cidrs) ≡ ok true
      → InSome ip (cidr ∷ cidrs)
  InSome-cons ip cidr cidrs (err x) c ih e = cc
  InSome-cons ip cidr cidrs (ok true) c ih e = (cidr, (head refl, c))
  InSome-cons ip cidr cidrs (ok false) c ih e = let (d, (m, i)) = ih e in (d, (tail m, i))

  in_some_cidr-InSome :
      (ip : Bytes) (cidrs : List String) → in_some_cidr n ip cidrs ≡ ok true → InSome ip cidrs
  unfolding in_some_cidr
  in_some_cidr-InSome ip [] e = cc
  in_some_cidr-InSome ip (cidr ∷ cidrs) e =
      InSome-cons ip cidr cidrs (contains_ip n cidr ip) refl (in_some_cidr-InSome ip cidrs) e

  is_ip_in_cidrs-InSome :
      (ip : Bytes) (cidrs : List String) → is_ip_in_cidrs n ip cidrs ≡ ok true → InSome ip cidrs
  unfolding is_ip_in_cidrs
  is_ip_in_cidrs-InSome ip cidrs e = in_some_cidr-InSome ip cidrs (of_v4 (n.is_v4 ip) e)
    where
      of_v4 :
          (b : Bool)
          → (if b then in_some_cidr n ip cidrs else err (errorf "error: ip is invalid")) ≡ ok true
          → in_some_cidr n ip cidrs ≡ ok true
      of_v4 true e = e
      of_v4 false e = cc

  ok_true : (r : Result Bool) (b : Bool) → r ≡ ok b → b ≡ true → r ≡ ok true
  ok_true r b e t = rw (← t) e

  -- When the validation passes and there is a cluster, the cluster has remote networks, the node has an
  -- address, and one of their CIDR blocks contains it.
  pub validate-InSome :
      (check_mtu : Bool) (cluster : RemoteNetworks) (args : List String) (node_name : String)
      {u : Unit {0}}
      → validate n check_mtu (some cluster) args node_name ≡ ok u
      → (networks : List (List String)) × (ip : Bytes) × (cidr : String) × (networks_of cluster
            ≡ ok networks
          × get_node_ip n args node_name ≡ ok ip
          × Memᴰ cidr (node_cidrs networks)
          × contains_ip n cidr ip ≡ ok true)
  unfolding validate validate_in
  validate-InSome check_mtu cluster args node_name e =
      let (networks, (p, e1)) = >>=-ok (networks_of cluster) _ e in
      let (ip, (q, e2)) = >>=-ok (get_node_ip n args node_name) _ e1 in
      let (valid, (r, e3)) = >>=-ok (is_ip_in_cidrs n ip (node_cidrs networks)) _ e2 in
      let (_, (t, _)) = >>=-ok (require valid _) _ e3 in
      let (cidr, (m, c)) = is_ip_in_cidrs-InSome ip _ (ok_true _ valid r (require-ok valid _ t)) in
      (networks, ip, cidr, (p, q, m, c))

  -- an interface that is up, is no loopback and has the address
  abbrev pub Serves : Bytes → Interface → Type 0
  Serves ip i = i.loopback ≡ false × i.up ≡ true × has_addr n ip (listed n i.addrs) ≡ true

  find_interface-Serves :
      (ip : Bytes) (is : List Interface) (i : Interface)
      → find_interface n ip is ≡ ok i
      → Memᴰ i is × Serves ip i
  unfolding find_interface
  find_interface-Serves ip [] i e = cc
  find_interface-Serves ip (j ∷ is) i e =
      cases j.loopback j.up (has_addr n ip (listed n j.addrs)) refl refl refl
        (find_interface-Serves ip is i) e
    where
      later :
          (find_interface n ip is ≡ ok i → Memᴰ i is × Serves ip i)
          → find_interface n ip is ≡ ok i
          → Memᴰ i (j ∷ is) × Serves ip i
      later ih e = let (m, serves) = ih e in (tail m, serves)

      here : Serves ip j → ok j ≡ ok i → Memᴰ i (j ∷ is) × Serves ip i
      here (a, b, c) e = let s = injective e in (head s, (rw s a, rw s b, rw s c))
        where
          injective : {x y : Interface} → ok x ≡ ok y → y ≡ x
          injective e = cc

      cases :
          (l u a : Bool)
          → j.loopback ≡ l
          → j.up ≡ u
          → has_addr n ip (listed n j.addrs) ≡ a
          → (find_interface n ip is ≡ ok i → Memᴰ i is × Serves ip i)
          → (if l || not u
              then find_interface n ip is
              else if a
              then ok j
              else find_interface n ip is)
            ≡ ok i
          → Memᴰ i (j ∷ is) × Serves ip i
      cases true u a p q r ih e = later ih e
      cases false false a p q r ih e = later ih e
      cases false true true p q r ih e = here (p, q, r) e
      cases false true false p q r ih e = later ih e

  abbrev pub InRange : ℕ → Type 0
  InRange mtu = (68 ≤ mtu × mtu ≤ 1500) ⊎ (8000 ≤ mtu × mtu ≤ 9001)

  validate_mtu-InRange : (mtu : ℕ) {u : Unit {0}} → validate_mtu mtu ≡ ok u → InRange mtu
  unfolding validate_mtu
  validate_mtu-InRange mtu e = ground arith

  -- When the validation with the check of the MTU passes and there is a cluster, an interface that is
  -- up, is no loopback and has the node's address has an MTU from 68 to 1500 or from 8000 to 9001.
  pub validate-InRange :
      (cluster : RemoteNetworks) (args : List String) (node_name : String) {u : Unit {0}}
      → validate n true (some cluster) args node_name ≡ ok u
      → (ip : Bytes) × (is : List Interface) × (i : Interface) × (get_node_ip n args node_name
            ≡ ok ip
          × n.interfaces ≡ ok is
          × Memᴰ i is
          × Serves ip i
          × InRange i.mtu)
  unfolding validate validate_in validate_interface_mtu
  validate-InRange cluster args node_name e =
      let (networks, (_, e1)) = >>=-ok (networks_of cluster) _ e in
      let (ip, (q, e2)) = >>=-ok (get_node_ip n args node_name) _ e1 in
      let (valid, (_, e3)) = >>=-ok (is_ip_in_cidrs n ip (node_cidrs networks)) _ e2 in
      let (_, (_, e4)) = >>=-ok (require valid _) _ e3 in
      let (is, (r, e5)) = >>=-ok (wrap_err _ n.interfaces) _ e4 in
      let (i, (f, e6)) = >>=-ok (find_interface n ip is) _ e5 in
      let (m, serves) = find_interface-Serves ip is i f in
      (
        ip,
        is,
        i,
        (
          q,
          wrap_err-eq-ok _ n.interfaces r,
          m,
          serves,
          validate_mtu-InRange i.mtu (wrap_err-eq-ok _ _ e6),
        ),
      )
