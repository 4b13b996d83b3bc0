-- ===== src/AddrMap/Laws.antt =====
-- An address map is a finite map: what is found after a call, for every key.
use p2p_cluster.Common.{
  ℕ, ◌%◌, ◌≡◌, ◌≢◌, refl, ap, ◌∙◌, true, false, Bool-cases, ◌==◌, if◌then◌else◌, Option, none, some,
  inl, inr, arith,
}
use p2p_cluster.Common.Memory.{update}
use p2p_cluster.Ioaddr.{IoaAddr, addr_eq}
use p2p_cluster.Ioaddr.Equality.{addr_hash_congruent}
use p2p_cluster.AddrMap.{
  AddrList, UrAddrMap, magic_hash, addr_list_free, addr_list_get, addr_list_remove, put_in,
  addr_map_index, ur_addr_map_valid, ur_addr_map_init, ur_addr_map_put, ur_addr_map_get,
  ur_addr_map_del,
}
use p2p_cluster.AddrMap.Lists.{get-congruent, put_in-get, remove-get}

index_congruent : (a b : IoaAddr) → addr_eq a b ≡ true → addr_map_index a ≡ addr_map_index b
unfolding addr_map_index
index_congruent a b h = ap (λ n. n % 1024) (addr_hash_congruent a b h)

-- Addresses that `addr_eq` takes for the same are found alike.
pub find-congruent :
    (map : UrAddrMap) (a b : IoaAddr)
    → addr_eq a b ≡ true
    → ur_addr_map_get map a ≡ ur_addr_map_get map b
unfolding ur_addr_map_get
find-congruent map a b h = rw (index_congruent a b h) (
    ap (λ o. if ur_addr_map_valid map then o else none)
      (get-congruent (map.lists (addr_map_index b)) a b h))

-- The map with one list replaced
abbrev with_list : UrAddrMap → ℕ → AddrList → UrAddrMap
with_list map i slh = record map { lists = update map.lists i slh }

-- Where the new list of a key differs only at this key, so does the map.
with_list-get :
    (map : UrAddrMap) (key other : IoaAddr) (slh : AddrList) (now : Option ℕ)
    → map.magic ≡ magic_hash
    → ((j : IoaAddr)
        → addr_list_get slh j
          ≡ (if addr_eq key j then now else addr_list_get (map.lists (addr_map_index key)) j))
    → ur_addr_map_get (with_list map (addr_map_index key) slh) other
      ≡ (if addr_eq key other then now else ur_addr_map_get map other)
unfolding ur_addr_map_get
with_list-get map key other slh now valid h =
    let guard : (map.magic == magic_hash) ≡ true = ground arith in
    rw guard (elim (Bool-cases (addr_map_index key == addr_map_index other)) [
      | inl e ↦
          let q : addr_map_index key ≡ addr_map_index other = ground arith in
          rw e (
            h other
            ∙ ap (λ i. if addr_eq key other then now else addr_list_get (map.lists i) other) q)
      | inr ne ↦ rw ne (elim (Bool-cases (addr_eq key other)) [
        | inl same ↦ let q = index_congruent key other same in absurd (ground arith)
        | inr d ↦ rw d refl
      ])
    ])

-- The result of a call that put the value
pub data Put (map : UrAddrMap) (key : IoaAddr) (value : ℕ) : Option UrAddrMap → Type 0 where
  put :
      {map' : UrAddrMap}
      → map'.magic ≡ magic_hash
      → ((other : IoaAddr)
          → ur_addr_map_get map' other
            ≡ (if addr_eq key other then some value else ur_addr_map_get map other))
      → Put map key value (some map')

-- In an initialised map `ur_addr_map_put` of a value other than 0 succeeds; then every address that
-- `addr_eq` takes for the key is found with the value, and every other is found as before.
pub ur_addr_map_put_lem :
    (map : UrAddrMap) (key : IoaAddr) (value : ℕ)
    → map.magic ≡ magic_hash
    → value ≢ 0
    → Put map key value (ur_addr_map_put map key value)
unfolding ur_addr_map_put
ur_addr_map_put_lem map key value valid nz =
    let guard : (map.magic == magic_hash) ≡ true = ground arith in
    rw guard (
      put valid λ other.
        with_list-get map key other (put_in (map.lists (addr_map_index key)) key value) (some value)
          valid (λ j. put_in-get (map.lists (addr_map_index key)) key value j nz))

get-invalid :
    (map : UrAddrMap) (key : IoaAddr)
    → (map.magic == magic_hash) ≡ false
    → ur_addr_map_get map key ≡ none
unfolding ur_addr_map_get
get-invalid map key h = rw h refl

-- After `ur_addr_map_del` no address that `addr_eq` takes for the key is found, and every other
-- is found as before.
pub ur_addr_map_del-get :
    (map : UrAddrMap) (key other : IoaAddr)
    → ur_addr_map_get (ur_addr_map_del map key).0 other
      ≡ (if addr_eq key other then none else ur_addr_map_get map other)
unfolding ur_addr_map_del
ur_addr_map_del-get map key other = elim (Bool-cases (map.magic == magic_hash)) [
  | inl e ↦ rw e (
      with_list-get map key other (addr_list_remove (map.lists (addr_map_index key)) key) none
        (ground arith) (λ j. remove-get (map.lists (addr_map_index key)) key j))
  | inr ne ↦ ground (arith, get-invalid map other)
]

-- A new map finds nothing.
pub init-get : (key : IoaAddr) → ur_addr_map_get ur_addr_map_init key ≡ none
unfolding ur_addr_map_get ur_addr_map_init addr_list_free addr_list_get
init-get key = ground arith
