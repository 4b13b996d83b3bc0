-- ===== src/StringMap.antt =====
-- Maps from strings: ur_string_map of coturn/src/server/ns_turn_maps.c. A string is the list of its
-- bytes without the final 0, and the pointers are not NULL.
pub mod Laws
mod Tests
use p2p_cluster.Common.{
  ℕ, zero, suc, ◌+◌, ◌-◌, ◌*◌, ◌%◌, ◌^◌, Bool, true, false, ◌==◌, ◌&&◌, if◌then◌else◌, Option, none,
  some, List, [], ◌∷◌, ◌++◌,
}
use p2p_cluster.Common.Memory.{update}
use p2p_cluster.Common.Text.{length}

abbrev pub string_map_size : ℕ
string_map_size = 1024

abbrev pub string_map_magic : ℕ
string_map_magic = 0x90ABCDEF

-- strcmp(a, b) == 0
unfoldable pub str_equal : List ℕ → List ℕ → Bool
str_equal [] [] = true
str_equal [] (d ∷ ds) = false
str_equal (c ∷ cs) [] = false
str_equal (c ∷ cs) (d ∷ ds) = c == d && str_equal cs ds

pub record StringElem : Type 0 where
  pub key : List ℕ
  pub value : ℕ

pub record UrStringMap : Type 0 where
  pub lists : ℕ → List StringElem
  pub magic : ℕ

unfoldable pub string_list_size : List StringElem → ℕ
string_list_size [] = 0
string_list_size (e ∷ es) = 1 + string_list_size es

abbrev pub string_list_add : List StringElem → List ℕ → ℕ → List StringElem
string_list_add sl key value = record { key = key; value = value } ∷ sl

-- All elements with the key go.
unfoldable pub string_list_remove : List StringElem → List ℕ → List StringElem
string_list_remove [] key = []
string_list_remove (e ∷ es) key =
    let rest = string_list_remove es key in if str_equal e.key key then rest else e ∷ rest

-- The values that string_list_remove calls del_value_func on
unfoldable pub deleted_values : List StringElem → List ℕ → List ℕ
deleted_values [] key = []
deleted_values (e ∷ es) key =
    let rest = deleted_values es key in if str_equal e.key key then e.value ∷ rest else rest

unfoldable pub string_list_get : List StringElem → List ℕ → Option ℕ
string_list_get [] key = none
string_list_get (e ∷ es) key =
    let rest = string_list_get es key in if str_equal e.key key then some e.value else rest

-- elem->value = value, of the element that string_list_get finds
unfoldable pub set_value : List StringElem → List ℕ → ℕ → List StringElem
set_value [] key value = []
set_value (e ∷ es) key value =
    let rest = e ∷ set_value es key value in
    if str_equal e.key key then record e { value = value } ∷ es else rest

-- The loop of string_hash, in uint32_t
unfoldable pub hash_from : ℕ → List ℕ → ℕ
hash_from hash [] = hash
hash_from hash (c ∷ cs) =
    hash_from ((c + hash * 2 ^ 6 + hash * 2 ^ 16 + (2 ^ 32 - hash)) % 2 ^ 32) cs

unfoldable pub string_hash : List ℕ → ℕ
string_hash key = hash_from 0 key

-- The remainder is below STRING_MAP_SIZE, so the cast to int changes nothing.
unfoldable pub string_map_index : List ℕ → ℕ
string_map_index key = string_hash key % string_map_size

unfoldable pub ur_string_map_create : UrStringMap
ur_string_map_create = record { lists = λ i. []; magic = string_map_magic }

abbrev pub ur_string_map_valid : UrStringMap → Bool
ur_string_map_valid map = map.magic == string_map_magic

-- The list after a put, and the values that del_value_func is called on
unfoldable pub put_value : List StringElem → List ℕ → ℕ → Option ℕ → List StringElem × List ℕ
put_value sl key value none = (string_list_add sl key value, [])
put_value sl key value (some old) =
    if old == value then (sl, []) else (set_value sl key value, old ∷ [])

-- `none` is -1.
unfoldable pub ur_string_map_put : UrStringMap → List ℕ → ℕ → Option (UrStringMap × List ℕ)
ur_string_map_put map key value =
    let sl = map.lists (string_map_index key) in
    let (sl', freed) = put_value sl key value (string_list_get sl key) in
    if ur_string_map_valid map
    then some (record map { lists = update map.lists (string_map_index key) sl' }, freed)
    else none

unfoldable pub ur_string_map_get : UrStringMap → List ℕ → Option ℕ
ur_string_map_get map key =
    if ur_string_map_valid map then string_list_get (map.lists (string_map_index key)) key else none

-- The result is 1 if a value is deleted.
unfoldable pub ur_string_map_del : UrStringMap → List ℕ → UrStringMap × List ℕ
ur_string_map_del map key =
    let sl = map.lists (string_map_index key) in
    if ur_string_map_valid map
    then (
      record map { lists = update map.lists (string_map_index key) (string_list_remove sl key) },
      deleted_values sl key,
    )
    else (map, [])

unfoldable pub ur_string_map_clean : UrStringMap → UrStringMap
ur_string_map_clean map = if ur_string_map_valid map then record map { lists = λ i. [] } else map

unfoldable pub sizes : ℕ → UrStringMap → ℕ
sizes zero map = 0
sizes (suc n) map = sizes n map + string_list_size (map.lists n)

pub ur_string_map_size : UrStringMap → ℕ
ur_string_map_size map = if ur_string_map_valid map then sizes string_map_size map else 0
