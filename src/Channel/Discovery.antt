-- ===== src/Channel/Discovery.antt =====
-- From the nodes that src/Zrpcprovider.cc registers to the call that src/Zrpcchannel.cc makes.
use rpc_base_on_zookeeper.Base.{
  Bytes, text, bytes_eq, bytes_eq_refl, eq_of-bytes_eq, ◌&&◌, ℕ, pos, ◌≡◌, ◌≢◌, refl, ap, sym, ◌∙◌,
  Bool, true, false, Option, none, some, [], ◌∷◌, ◌++◌, All, length, drop, arith, Bool-cases, inl,
  inr,
}
use rpc_base_on_zookeeper.Table.{Table, find}
use rpc_base_on_zookeeper.ZkClient.{Node, ZooKeeper, ZooKeeperLaws, continues, get_data}
use rpc_base_on_zookeeper.ZkClient.Nodes.{get_data-terminated}
use rpc_base_on_zookeeper.Provider.{ServiceInfo, address_of, create_services}
use rpc_base_on_zookeeper.Provider.Registration.{
  services_told, method_nodes, service_nodes, create_services-node, find-append,
}
use rpc_base_on_zookeeper.Channel.{method_path_of}

abbrev pub NoSlash : Bytes → Type 0
NoSlash s = All (λ c. c ≢ b'/') s

abbrev first_byte : Bytes → ℕ
first_byte [] = 0
first_byte (c ∷ s) = c

split_slash :
    (a b a' b' : Bytes)
    → NoSlash a
    → NoSlash a'
    → a ++ b'/' ∷ b ≡ a' ++ b'/' ∷ b'
    → (a ≡ a') × (b ≡ b')
split_slash [] b [] b' h h' e = (refl, ap (drop 1) e)
split_slash [] b (x ∷ a') b' h h' e = absurd (h'.0 (sym (ap first_byte e)))
split_slash (x ∷ a) b [] b' h h' e = absurd (h.0 (ap first_byte e))
split_slash (x ∷ a) b (y ∷ a') b' h h' e =
    let (p, q) = split_slash a b a' b' h.1 h'.1 (ap (drop 1) e) in
    let same : x ≡ y = ap first_byte e in (rw (same, p) refl, q)

NoSlash-ne : (a a' b : Bytes) → NoSlash a → a ≢ a' ++ b'/' ∷ b
NoSlash-ne [] [] b h e = cc
NoSlash-ne [] (x ∷ a') b h e = cc
NoSlash-ne (x ∷ a) [] b h e = h.0 (ap first_byte e)
NoSlash-ne (x ∷ a) (y ∷ a') b h e = NoSlash-ne a a' b h.1 (ap (drop 1) e)

abbrev slashed : Bytes → Bytes → Bytes
slashed name method = b'/' ∷ (name ++ b'/' ∷ method)

-- Two paths of methods are equal exactly if the services and the methods are.
bytes_eq-slashed :
    (a m name n : Bytes)
    → NoSlash a
    → NoSlash name
    → bytes_eq (slashed a m) (slashed name n) ≡ (bytes_eq a name && bytes_eq m n)
bytes_eq-slashed a m name n h k = elim (Bool-cases (bytes_eq (slashed a m) (slashed name n))) [
  | inl same ↦
      let (p, q) =
        split_slash a m name n h k
          (ap (drop 1) (eq_of-bytes_eq (slashed a m) (slashed name n) same)) in
      rw (p, q, bytes_eq_refl (slashed name n), bytes_eq_refl name, bytes_eq_refl n) refl
  | inr other ↦ elim (Bool-cases (bytes_eq a name)) [
    | inr differ ↦ rw (other, differ) refl
    | inl p ↦ elim (Bool-cases (bytes_eq m n)) [
      | inr differ ↦ rw (other, p, differ) refl
      | inl q ↦ absurd (
          true-ne-false (
            sym
              (rw (eq_of-bytes_eq a name p, eq_of-bytes_eq m n q) (bytes_eq_refl (slashed name n)))
            ∙ other))
    ]
  ]
]
  where
    true-ne-false : true ≢ false
    true-ne-false e = cc

-- The path of a service is the path of no method.
bytes_eq-service : (a name n : Bytes) → NoSlash a → bytes_eq (b'/' ∷ a) (slashed name n) ≡ false
bytes_eq-service a name n h = elim (Bool-cases (bytes_eq (b'/' ∷ a) (slashed name n))) [
  | inr other ↦ other
  | inl same ↦
      absurd (NoSlash-ne a name n h (ap (drop 1) (eq_of-bytes_eq (b'/' ∷ a) (slashed name n) same)))
]

abbrev pub method_node : Bytes → Node
method_node contents = record { data_of = contents; ephemeral = true }

abbrev pub node_if : {M : Type 0} → Bytes → Bool → Option M → Option Node
node_if contents false m = none
node_if contents true none = none
node_if contents true (some m) = some (method_node contents)

find-method_nodes :
    {M : Type 0} (name n contents a : Bytes) (t : Table M)
    → NoSlash name
    → NoSlash a
    → find (slashed name n) (method_nodes (b'/' ∷ a) contents t)
      ≡ node_if contents (bytes_eq a name) (find n t)
unfolding method_nodes text find
find-method_nodes name n contents a [] k h = ground arith
find-method_nodes name n contents a ((m, pmd) ∷ t) k h =
    ground (arith, bytes_eq-slashed a m name n h k, find-method_nodes name n contents a t k h)

-- No service has a slash in its name.
abbrev pub AllClean : {M : Type 0} → Table (ServiceInfo M) → Type 0
AllClean [] = Unit
AllClean ((name, info) ∷ t) = NoSlash name × AllClean t

find-service_nodes :
    {M : Type 0} (name n contents : Bytes) (t : Table (ServiceInfo M)) (info : ServiceInfo M)
    (m : M)
    → NoSlash name
    → AllClean t
    → find name t ≡ some info
    → find n info.method_map ≡ some m
    → find (slashed name n) (service_nodes contents t) ≡ some (method_node contents)
unfolding service_nodes text find
find-service_nodes name n contents [] info m k c e f = cc
find-service_nodes name n contents ((a, other) ∷ t) info m k c e f = ground (
  arith,
  bytes_eq-service a name n c.0,
  find-append (slashed name n) (method_nodes (b'/' ∷ a) contents other.method_map)
      (service_nodes contents t),
  find-method_nodes name n contents a other.method_map k c.0,
  find-service_nodes name n contents t info m k c.1,
)

-- After a server has registered its services under names without slashes, GetData for a method of one
-- of them gives the server's address, if nothing stood at its path before, no zoo_exists of the registration got an error, the address has no zero
-- byte, and the buffer holds a zero right behind it.
pub get_data-registered :
    {M Z : Type 0} (zk : ZooKeeper Z) (laws : ZooKeeperLaws zk) (ip : Bytes) (port : ℕ)
    (t : Table (ServiceInfo M)) (z z' : Z) (name n : Bytes) (info : ServiceInfo M) (m : M)
    (front rest : Bytes)
    → NoSlash name
    → AllClean t
    → find name t ≡ some info
    → find n info.method_map ≡ some m
    → zk.node (method_path_of name n) z ≡ none
    → services_told zk ip (pos port) t z ≡ true
    → create_services zk ip (pos port) t z ≡ continues z'
    → All (λ c. c ≢ 0) (address_of ip (pos port))
    → length (address_of ip (pos port)) ≡ length front
    → get_data zk (method_path_of name n) (front ++ 0 ∷ rest) z' ≡ some (address_of ip (pos port))
unfolding method_path_of text
get_data-registered zk laws ip port t z z' name n info m front rest k c e f free told made nonzero
      fits =
    let address = address_of ip (pos port) in
    let there : zk.node (slashed name n) z' ≡ some (method_node address) =
      create_services-node zk laws (slashed name n) ip (pos port) t z z' told made
      ∙ rw free (find-service_nodes name n address t info m k c e f) in
    get_data-terminated zk laws (slashed name n) z' (method_node address) there front 0 rest fits
      nonzero refl
