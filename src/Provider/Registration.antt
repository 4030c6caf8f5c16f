-- ===== src/Provider/Registration.antt =====
-- What Run of src/Zrpcprovider.cc leaves in ZooKeeper's tree.
use rpc_base_on_zookeeper.Base.{
  Bytes, text, bytes_eq, bytes_eq_iff, ℤ, ◌≡◌, refl, Bool, true, false, ◌&&◌, none, some, [], ◌∷◌,
  ◌++◌, or_else, length, arith, ltb, if◌then◌else◌,
}
use rpc_base_on_zookeeper.Table.{Table, find}
use rpc_base_on_zookeeper.ZkClient.{
  Node, ZooKeeper, ZooKeeperLaws, Run, continues, exits, overruns, create, ◌>>=◌,
}
use rpc_base_on_zookeeper.ZkClient.Nodes.{tells, node-create}
use rpc_base_on_zookeeper.Provider.{ServiceInfo, address_of, create_methods, create_services}

module _ {M : Type 0} where
  -- The nodes in the order in which they are created: a lasting one for a service, then one for each of
  -- its methods that goes with the server's session and holds the server's address.
  unfoldable pub method_nodes : Bytes → Bytes → Table M → Table Node
  method_nodes service_path contents [] = []
  method_nodes service_path contents ((method, pmd) ∷ t) =
      (service_path ++ (text "/" ++ method), record { data_of = contents; ephemeral = true })
      ∷ method_nodes service_path contents t

  unfoldable pub service_nodes : Bytes → Table (ServiceInfo M) → Table Node
  service_nodes contents [] = []
  service_nodes contents ((name, info) ∷ t) =
      (text "/" ++ name, record { data_of = []; ephemeral = false })
      ∷ (method_nodes (text "/" ++ name) contents info.method_map ++ service_nodes contents t)

pub find-append {ℓ} :
    {V : Type ℓ} (q : Bytes) (s t : Table V) → find q (s ++ t) ≡ or_else (find q s) (find q t)
unfolding find
find-append q [] t = refl
find-append q ((k, v) ∷ s) t = ground (arith, find-append q s t)

continues-bind :
    {A B : Type 0} (m : Run A) (f : A → Run B) (b : B)
    → (m >>= f) ≡ continues b
    → (a : A) × (m ≡ continues a) × (f a ≡ continues b)
continues-bind (continues a) f b h = (a, refl, h)
continues-bind exits f b h = cc
continues-bind overruns f b h = cc

unless_overrun :
    {A : Type 0} (b : Bool) (m : Run A) (a : A)
    → (if b then m else overruns) ≡ continues a
    → m ≡ continues a
unless_overrun true m a h = h
unless_overrun false m a h = cc

both_told : (a b : Bool) → (a && b) ≡ true → (a ≡ true) × (b ≡ true)
both_told true b h = (refl, h)
both_told false b h = cc

-- A test of what comes after a step, if the process goes on.
abbrev pub still : {A : Type 0} → Run A → (A → Bool) → Bool
still (continues a) f = f a
still exits f = true
still overruns f = true

-- No zoo_exists of the registration gets an error.
module _ {M Z : Type 0} (zk : ZooKeeper Z) (ip : Bytes) (port : ℤ) where
  unfoldable pub methods_told : Bytes → Table M → Z → Bool
  methods_told path [] z = true
  methods_told path ((method, pmd) ∷ t) z =
      let here = path ++ (text "/" ++ method) in
      tells (zk.zoo_exists here z)
      && still (create zk here (address_of ip port) true z) (λ u. methods_told path t u)

  unfoldable pub services_told : Table (ServiceInfo M) → Z → Bool
  services_told [] z = true
  services_told ((name, info) ∷ t) z =
      let path = text "/" ++ name in
      tells (zk.zoo_exists path z)
      && still (create zk path [] false z) (λ u.
        methods_told path info.method_map u
        && still (create_methods zk path ip port info.method_map u) (λ v. services_told t v))

module _ {Z : Type 0} (zk : ZooKeeper Z) (laws : ZooKeeperLaws zk) (q : Bytes) where
  -- One creation, seen from any path.
  created-node :
      (path contents : Bytes) (ephemeral : Bool) (z z' : Z)
      → tells (zk.zoo_exists path z) ≡ true
      → create zk path contents ephemeral z ≡ continues z'
      → zk.node q z'
        ≡ or_else (zk.node q z) (
            if bytes_eq path q
            then some (record { data_of = contents; ephemeral = ephemeral })
            else none)
  created-node path contents ephemeral z z' told e =
      ground
        (arith, told, node-create zk laws path contents ephemeral z z' q e, bytes_eq_iff path q)

module _ {M Z : Type 0} (zk : ZooKeeper Z) (laws : ZooKeeperLaws zk) (q ip : Bytes) (port : ℤ) where
  create_methods-node :
      (path : Bytes) (t : Table M) (z z' : Z)
      → methods_told zk ip port path t z ≡ true
      → create_methods zk path ip port t z ≡ continues z'
      → zk.node q z' ≡ or_else (zk.node q z) (find q (method_nodes path (address_of ip port) t))
  unfolding create_methods method_nodes find methods_told
  create_methods-node path [] z z' told e = ground arith
  create_methods-node path ((method, pmd) ∷ t) z z' told e =
      let here = path ++ (text "/" ++ method) in
      let contents = address_of ip port in
      let (z'', made, rest) =
        continues-bind (create zk here contents true z) (λ u. create_methods zk path ip port t u) z'
          (unless_overrun (ltb (length contents) 128) _ z' e) in
      let (first, later) = both_told _ _ told in
      let later' : methods_told zk ip port path t z'' ≡ true = rw made at later in
      ground (
        arith,
        created-node zk laws q here contents true z z'' first made,
        create_methods-node path t z'' z' later' rest,
      )

  -- When the registration returns, and no zoo_exists of it got an error, a node that was there before
  -- is as it was, and every other path has the first node that the services and methods put there, or
  -- none.
  pub create_services-node :
      (t : Table (ServiceInfo M)) (z z' : Z)
      → services_told zk ip port t z ≡ true
      → create_services zk ip port t z ≡ continues z'
      → zk.node q z' ≡ or_else (zk.node q z) (find q (service_nodes (address_of ip port) t))
  unfolding create_services service_nodes find services_told
  create_services-node [] z z' told e = ground arith
  create_services-node ((name, info) ∷ t) z z' told e =
      let path = text "/" ++ name in
      let contents = address_of ip port in
      let (u, made, more) =
        continues-bind (create zk path [] false z)
          (λ u. create_methods zk path ip port info.method_map u >>= λ v.
            create_services zk ip port t v)
          z' e in
      let (v, methods, rest) =
        continues-bind (create_methods zk path ip port info.method_map u)
          (λ v. create_services zk ip port t v) z' more in
      let (first, later) = both_told _ _ told in
      let (second, last) = both_told _ _ (rw made at later) in
      let last' : services_told zk ip port t v ≡ true = rw methods at last in
      ground (
        arith,
        created-node zk laws q path [] false z u first made,
        create_methods-node path info.method_map u v second methods,
        create_services-node t v z' last' rest,
        find-append q (method_nodes path contents info.method_map) (service_nodes contents t),
      )
