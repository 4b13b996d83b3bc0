-- ===== src/AddrMap.antt =====
-- Maps from addresses: ur_addr_map of coturn/src/server/ns_turn_maps.c. The pointers are not NULL.
mod Lists
pub mod Laws
mod Tests
use p2p_cluster.Common.{
  ℕ, zero, suc, ◌+◌, ◌%◌, Bool, true, false, ltb, ◌==◌, ◌&&◌, not, if◌then◌else◌, Option, none,
  some, List, [], ◌∷◌, ◌++◌,
}
use p2p_cluster.Common.Memory.{update}
use p2p_cluster.Common.Text.{length}
use p2p_cluster.Ioaddr.{IoaAddr, addr_set_any, addr_eq, addr_hash}

abbrev pub addr_map_size : ℕ
addr_map_size = 1024

abbrev pub addr_array_size : ℕ
addr_array_size = 4

abbrev pub magic_hash : ℕ
magic_hash = 0x90ABCDEF

-- A value is a pointer or a number, and 0 says that the element is free.
pub record AddrElem : Type 0 where
  pub key : IoaAddr
  pub value : ℕ

-- addr_list_header: the elements of main_list, then those of extra_list. Each loop of the source
-- runs over the first and then, in the same way, over the second.
abbrev pub AddrList : Type 0
AddrList = List AddrElem

pub record UrAddrMap : Type 0 where
  pub lists : ℕ → AddrList
  pub magic : ℕ

abbrev pub free_elem : AddrElem
free_elem = record { key = addr_set_any; value = 0 }

-- What bzero makes of a list
unfoldable pub addr_list_free : AddrList
addr_list_free = free_elem ∷ free_elem ∷ free_elem ∷ free_elem ∷ []

abbrev pub is_at : IoaAddr → AddrElem → Bool
is_at key e = not (e.value == 0) && addr_eq e.key key

-- The first free element, or a new one at the end
unfoldable pub add_elem : AddrList → IoaAddr → ℕ → AddrList
add_elem [] key value = record { key = key; value = value } ∷ []
add_elem (e ∷ es) key value =
    let rest = e ∷ add_elem es key value in
    if e.value == 0 then record { key = key; value = value } ∷ es else rest

unfoldable pub addr_list_add : AddrList → IoaAddr → ℕ → AddrList
addr_list_add slh key value = if value == 0 then slh else add_elem slh key value

unfoldable pub addr_list_remove : AddrList → IoaAddr → AddrList
addr_list_remove [] key = []
addr_list_remove (e ∷ es) key =
    (if is_at key e then record e { value = 0 } else e) ∷ addr_list_remove es key

-- The values that the callback is called on; their number is `*counter`.
unfoldable pub removed : AddrList → IoaAddr → List ℕ
removed [] key = []
removed (e ∷ es) key = let rest = removed es key in if is_at key e then e.value ∷ rest else rest

-- The value of the element that addr_list_get and addr_list_get_const return; `none` is NULL.
unfoldable pub addr_list_get : AddrList → IoaAddr → Option ℕ
addr_list_get [] key = none
addr_list_get (e ∷ es) key =
    let rest = addr_list_get es key in if is_at key e then some e.value else rest

-- elem->value = value, of the element that addr_list_get returns
unfoldable pub set_elem : AddrList → IoaAddr → ℕ → AddrList
set_elem [] key value = []
set_elem (e ∷ es) key value =
    let rest = e ∷ set_elem es key value in
    if is_at key e then record e { value = value } ∷ es else rest

-- The values in use, in the order of the loops
unfoldable pub addr_list_foreach : AddrList → List ℕ
addr_list_foreach [] = []
addr_list_foreach (e ∷ es) =
    let rest = addr_list_foreach es in if e.value == 0 then rest else e.value ∷ rest

unfoldable pub addr_list_num_elements : AddrList → ℕ
addr_list_num_elements slh = length (addr_list_foreach slh)

unfoldable pub addr_list_size : AddrList → ℕ
addr_list_size slh = length slh

-- addr_hash(key) & (ADDR_MAP_SIZE - 1)
unfoldable pub addr_map_index : IoaAddr → ℕ
addr_map_index key = addr_hash key % addr_map_size

abbrev pub ur_addr_map_valid : UrAddrMap → Bool
ur_addr_map_valid map = map.magic == magic_hash

unfoldable pub ur_addr_map_init : UrAddrMap
ur_addr_map_init = record { lists = λ i. addr_list_free; magic = magic_hash }

unfoldable pub ur_addr_map_clean : UrAddrMap → UrAddrMap
ur_addr_map_clean map =
    if ur_addr_map_valid map then record { lists = λ i. addr_list_free; magic = 0 } else map

unfoldable pub put_in : AddrList → IoaAddr → ℕ → AddrList
put_in slh key value = elim (addr_list_get slh key) [
  | some old ↦ set_elem slh key value
  | none ↦ addr_list_add slh key value
]

-- `none` is -1.
unfoldable pub ur_addr_map_put : UrAddrMap → IoaAddr → ℕ → Option UrAddrMap
ur_addr_map_put map key value =
    if ur_addr_map_valid map
    then some (record map {
      lists =
          update map.lists (addr_map_index key) (put_in (map.lists (addr_map_index key)) key value);
    })
    else none

unfoldable pub ur_addr_map_get : UrAddrMap → IoaAddr → Option ℕ
ur_addr_map_get map key =
    if ur_addr_map_valid map then addr_list_get (map.lists (addr_map_index key)) key else none

-- The map after the call, and the values for the callback; the result is 1 if there are any.
unfoldable pub ur_addr_map_del : UrAddrMap → IoaAddr → UrAddrMap × List ℕ
ur_addr_map_del map key =
    let slh = map.lists (addr_map_index key) in
    if ur_addr_map_valid map
    then (
      record map { lists = update map.lists (addr_map_index key) (addr_list_remove slh key) },
      removed slh key,
    )
    else (map, [])

-- The loop over the first lists
unfoldable pub values_in : ℕ → UrAddrMap → List ℕ
values_in zero map = []
values_in (suc n) map = values_in n map ++ addr_list_foreach (map.lists n)

-- The values that the callback is called on
unfoldable pub ur_addr_map_foreach : UrAddrMap → List ℕ
ur_addr_map_foreach map = if ur_addr_map_valid map then values_in addr_map_size map else []

unfoldable pub sum_lists : (AddrList → ℕ) → ℕ → UrAddrMap → ℕ
sum_lists size zero map = 0
sum_lists size (suc n) map = sum_lists size n map + size (map.lists n)

pub ur_addr_map_num_elements : UrAddrMap → ℕ
ur_addr_map_num_elements map =
    if ur_addr_map_valid map then sum_lists addr_list_num_elements addr_map_size map else 0

pub ur_addr_map_size : UrAddrMap → ℕ
ur_addr_map_size map =
    if ur_addr_map_valid map then sum_lists addr_list_size addr_map_size map else 0
