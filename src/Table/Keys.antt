-- ===== src/Table/Keys.antt =====
-- The keys of a map, each of which stands in its list once.
use rpc_base_on_zookeeper.Base.{Bytes, bytes_eq_iff, ◌≡◌, refl, none, [], ◌∷◌, arith}
use rpc_base_on_zookeeper.Table.{
  Table, find, assign, emplace, erase, find-assign, find-emplace, find-erase,
}

module _ {ℓ} {V : Type ℓ} where
  abbrev pub UniqueKeys : Table V → Type ℓ
  UniqueKeys [] = Unit {ℓ}
  UniqueKeys ((k, v) ∷ t) = (find k t ≡ none) × UniqueKeys t

  pub assign-UniqueKeys :
      (k : Bytes) (v : V) (t : Table V) → UniqueKeys t → UniqueKeys (assign k v t)
  unfolding assign find
  assign-UniqueKeys k v [] u = (refl, tt)
  assign-UniqueKeys k v ((j, w) ∷ t) u =
      ground (
        arith,
        find-assign k j v t,
        bytes_eq_iff j k,
        bytes_eq_iff k j,
        assign-UniqueKeys k v t u.1,
      )

  pub erase-UniqueKeys : (k : Bytes) (t : Table V) → UniqueKeys t → UniqueKeys (erase k t)
  unfolding erase
  erase-UniqueKeys k [] u = u
  erase-UniqueKeys k ((j, w) ∷ t) u = ground (arith, find-erase k j t, erase-UniqueKeys k t u.1)

  pub emplace-UniqueKeys :
      (k : Bytes) (v : V) (t : Table V) → UniqueKeys t → UniqueKeys (emplace k v t)
  unfolding emplace find
  emplace-UniqueKeys k v [] u = (refl, tt)
  emplace-UniqueKeys k v ((j, w) ∷ t) u = ground (
    arith,
    find-emplace k j v t,
    bytes_eq_iff j k,
    bytes_eq_iff k j,
    emplace-UniqueKeys k v t u.1,
  )
