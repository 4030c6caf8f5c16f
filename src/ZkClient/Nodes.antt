-- ===== src/ZkClient/Nodes.antt =====
-- Create and GetData of src/zookeeperutil.cc.
use rpc_base_on_zookeeper.Base.{
  ℤ, eqbℤ, ◌||◌, ◌&&◌, Bytes, bytes_eq, bytes_eq_iff, ℕ, ◌≡◌, ◌≢◌, refl, ap, ◌∙◌, Bool, some, none,
  Option, [], ◌∷◌, ◌++◌, All, arith, length, length-append, drop, if◌then◌else◌,
}
use rpc_base_on_zookeeper.ZkClient.{
  Node, ZooKeeper, ZooKeeperLaws, zok, znonode, continues, c_string_in, create, get_data,
}

-- What Create promises of the tree: the node is there, with the data of the first creation.
abbrev pub kept_or_new : Option Node → Node → Node
kept_or_new none n = n
kept_or_new (some old) n = old

-- Whether zoo_exists tells something of the node, and not of an error.
abbrev pub tells : ℤ → Bool
tells flag = eqbℤ flag zok || eqbℤ flag znonode

module _ {Z : Type 0} (zk : ZooKeeper Z) (laws : ZooKeeperLaws zk) where
  pub node-create :
      (path contents : Bytes) (ephemeral : Bool) (z z' : Z) (q : Bytes)
      → create zk path contents ephemeral z ≡ continues z'
      → zk.node q z' ≡ (
          if tells (zk.zoo_exists path z) && bytes_eq path q
          then some
              (kept_or_new (zk.node path z) (record { data_of = contents; ephemeral = ephemeral }))
          else zk.node q z)
  unfolding create
  node-create path contents ephemeral z z' q e = go (zk.node path z) refl
    where
      go :
          (o : Option Node)
          → zk.node path z ≡ o
          → zk.node q z' ≡ (
              if tells (zk.zoo_exists path z) && bytes_eq path q
              then some (kept_or_new o (record { data_of = contents; ephemeral = ephemeral }))
              else zk.node q z)
      go none f =
          ground
            (arith, f, laws.exists_present path z, laws.create_done path contents ephemeral z q)
      go (some n) f = ground (arith, f, laws.exists_missing path z, bytes_eq_iff path q)

c_string_in-append : (d rest : Bytes) → All (λ c. c ≢ 0) d → c_string_in (d ++ 0 ∷ rest) ≡ some d
unfolding c_string_in
c_string_in-append [] rest h = refl
c_string_in-append (c ∷ d) rest h = ground (arith, c_string_in-append d rest h.1, h.0)

c_string_in-longer :
    (d : Bytes) (x : ℕ) (rest : Bytes) → x ≢ 0 → c_string_in (d ++ x ∷ rest) ≢ some d
unfolding c_string_in
c_string_in-longer [] x rest h e = ground arith
c_string_in-longer (c ∷ d) x rest h e = c_string_in-longer d x rest h (ground arith)

drop-length :
    (d front rest : Bytes) → length d ≡ length front → drop (length d) (front ++ rest) ≡ rest
drop-length [] [] rest h = refl
drop-length [] (x ∷ front) rest h = absurd (omega arith)
drop-length (c ∷ d) [] rest h = absurd (omega arith)
drop-length (c ∷ d) (x ∷ front) rest h = drop-length d front rest (omega arith)

module _ {Z : Type 0} (zk : ZooKeeper Z) (laws : ZooKeeperLaws zk) where
  module _ (path : Bytes) (z : Z) (n : Node) (there : zk.node path z ≡ some n) (front : Bytes)
      (x : ℕ) (rest : Bytes) (fits : length n.data_of ≡ length front) where
    get_data-fills : get_data zk path (front ++ x ∷ rest) z ≡ c_string_in (n.data_of ++ x ∷ rest)
    unfolding get_data
    get_data-fills =
        rw
          (laws.get_fills path (front ++ x ∷ rest) n z there
            (omega (arith, length-append front (x ∷ rest))))
          (ap (λ t. c_string_in (n.data_of ++ t)) (drop-length n.data_of front (x ∷ rest) fits))

    -- GetData returns the data of a node if they have no zero byte, are shorter than the buffer, and
    -- the buffer happens to hold a zero right behind them.
    pub get_data-terminated :
        All (λ c. c ≢ 0) n.data_of → x ≡ 0 → get_data zk path (front ++ x ∷ rest) z ≡ some n.data_of
    get_data-terminated h e = get_data-fills ∙ rw e (c_string_in-append n.data_of rest h)

    -- If the buffer holds a byte other than zero right behind the data of a node that fit into it,
    -- what GetData returns is not the data of the node.
    pub get_data-residue : x ≢ 0 → get_data zk path (front ++ x ∷ rest) z ≢ some n.data_of
    get_data-residue h = rw get_data-fills (c_string_in-longer n.data_of x rest h)
