-- ===== src/Table.antt =====
-- `std::unordered_map<std::string, V>`: an association list with the map's operations. The list's
-- order stands for the iteration order, which the library leaves open.
pub mod Keys
use rpc_base_on_zookeeper.Base.{
  Bytes, bytes_eq, bytes_eq_iff, ◌≡◌, refl, Option, none, some, List, [], ◌∷◌, arith, if◌then◌else◌,
}

abbrev pub Table {ℓ} : Type ℓ → Type ℓ
Table V = List (Bytes × V)

module _ {ℓ} {V : Type ℓ} where
  unfoldable pub find : Bytes → Table V → Option V
  find k [] = none
  find k ((j, v) ∷ t) = if bytes_eq j k then some v else find k t

  -- `t[k] = v`
  unfoldable pub assign : Bytes → V → Table V → Table V
  assign k v [] = (k, v) ∷ []
  assign k v ((j, w) ∷ t) = if bytes_eq j k then (j, v) ∷ t else (j, w) ∷ assign k v t

  -- `t.insert({k, v})` and `t.emplace(k, v)`: a key that is there keeps its value.
  unfoldable pub emplace : Bytes → V → Table V → Table V
  emplace k v [] = (k, v) ∷ []
  emplace k v ((j, w) ∷ t) = if bytes_eq j k then (j, w) ∷ t else (j, w) ∷ emplace k v t

  unfoldable pub erase : Bytes → Table V → Table V
  erase k [] = []
  erase k ((j, w) ∷ t) = let rest = erase k t in if bytes_eq j k then rest else (j, w) ∷ rest

  pub find-assign :
      (k j : Bytes) (v : V) (t : Table V)
      → find j (assign k v t) ≡ (if bytes_eq k j then some v else find j t)
  unfolding find assign
  find-assign k j v [] = refl
  find-assign k j v ((i, w) ∷ t) =
      ground (arith, bytes_eq_iff k j, bytes_eq_iff i k, bytes_eq_iff i j, find-assign k j v t)

  abbrev pub first_of_two : Option V → V → Option V
  first_of_two none v = some v
  first_of_two (some w) v = some w

  pub find-emplace :
      (k j : Bytes) (v : V) (t : Table V)
      → find j (emplace k v t) ≡ (if bytes_eq k j then first_of_two (find j t) v else find j t)
  unfolding find emplace
  find-emplace k j v [] = ground arith
  find-emplace k j v ((i, w) ∷ t) =
      ground (arith, bytes_eq_iff k j, bytes_eq_iff i k, bytes_eq_iff i j, find-emplace k j v t)

  pub find-erase :
      (k j : Bytes) (t : Table V) → find j (erase k t) ≡ (if bytes_eq k j then none else find j t)
  unfolding find erase
  find-erase k j [] = ground arith
  find-erase k j ((i, w) ∷ t) =
      ground (arith, bytes_eq_iff k j, bytes_eq_iff i k, bytes_eq_iff i j, find-erase k j t)

pub ruleset table_laws = (find-assign, find-emplace, find-erase)
