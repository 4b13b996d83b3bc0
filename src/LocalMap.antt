-- ===== src/LocalMap.antt =====
-- Local maps: lm_map of coturn/src/server/ns_turn_maps.c.
mod Slots
pub mod Buckets
pub mod Laws
pub mod Defects
pub mod History
pub mod Entries
pub mod Placement
pub mod Visits
mod Tests
use p2p_cluster.Common.{
  ℕ, zero, suc, ◌+◌, ◌%◌, Bool, true, false, ◌==◌, ◌||◌, ◌&&◌, not, if◌then◌else◌, Option, none,
  some, List, [], ◌∷◌, ◌++◌,
}
use p2p_cluster.Common.Memory.{update}

abbrev pub lm_map_hash_size : ℕ
lm_map_hash_size = 8

-- A key and its value at one index of main_keys and main_values, or of extra_keys and extra_values.
-- A value is a pointer, of which only its being 0 counts.
pub record Slot : Type 0 where
  pub key : ℕ
  pub value : ℕ

-- The extra arrays grow together, one entry at a time, and no entry of theirs is ever NULL.
pub record LmMapArray : Type 0 where
  pub main : List Slot
  pub extra : List Slot

abbrev pub LmMap : Type 0
LmMap = ℕ → LmMapArray

abbrev pub free_slot : Slot
free_slot = record { key = 0; value = 0 }

unfoldable pub lm_map_init : LmMap
lm_map_init i = record { main = free_slot ∷ free_slot ∷ free_slot ∷ []; extra = [] }

-- key & (LM_MAP_HASH_SIZE - 1)
abbrev pub index_of : ℕ → ℕ
index_of key = key % lm_map_hash_size

abbrev pub is_free : Slot → Bool
is_free s = s.key == 0 || s.value == 0

-- How the loop over the main slots ends: written, or returned 0 or -1 at the key, or run to the end
pub data Placed : Type 0 where
  placed : List Slot → Placed
  same : Placed
  clash : Placed
  full : Placed

unfoldable pub behind : Slot → Placed → Placed
behind s (placed ss) = placed (s ∷ ss)
behind s same = same
behind s clash = clash
behind s full = full

unfoldable pub put_main : ℕ → ℕ → List Slot → Placed
put_main key value [] = full
put_main key value (s ∷ ss) =
    let rest = behind s (put_main key value ss) in
    if s.key == key
    then if s.value == value then same else clash
    else if is_free s
    then placed (record { key = key; value = value } ∷ ss)
    else rest

-- The first free extra slot, or a new one
unfoldable pub put_extra : ℕ → ℕ → List Slot → List Slot
put_extra key value [] = record { key = key; value = value } ∷ []
put_extra key value (s ∷ ss) =
    let rest = s ∷ put_extra key value ss in
    if is_free s then record { key = key; value = value } ∷ ss else rest

unfoldable pub put_placed : LmMap → ℕ → ℕ → LmMapArray → Placed → Option LmMap
put_placed map key value a (placed ss) = some (update map (index_of key) (record a { main = ss }))
put_placed map key value a same = some map
put_placed map key value a clash = none
put_placed map key value a full =
    some (update map (index_of key) (record a { extra = put_extra key value a.extra }))

-- The map after a call that returns 0; `none` where it returns -1, which changes nothing.
unfoldable pub lm_map_put : LmMap → ℕ → ℕ → Option LmMap
lm_map_put map key value =
    if key == 0 || value == 0
    then none
    else put_placed map key value (map (index_of key))
        (put_main key value (map (index_of key)).main)

unfoldable pub get_main : ℕ → List Slot → Option ℕ
get_main key [] = none
get_main key (s ∷ ss) =
    let rest = get_main key ss in if s.key == key && not (s.value == 0) then some s.value else rest

unfoldable pub get_extra : ℕ → List Slot → Option ℕ
get_extra key [] = none
get_extra key (s ∷ ss) = let rest = get_extra key ss in if s.key == key then some s.value else rest

abbrev pub or_else : Option ℕ → Option ℕ → Option ℕ
or_else (some v) o = some v
or_else none o = o

unfoldable pub lm_map_get : LmMap → ℕ → Option ℕ
lm_map_get map key =
    if key == 0
    then none
    else or_else (get_main key (map (index_of key)).main) (get_extra key (map (index_of key)).extra)

unfoldable pub is_some : Option ℕ → Bool
is_some (some v) = true
is_some none = false

pub lm_map_exist : LmMap → ℕ → Bool
lm_map_exist map key = is_some (lm_map_get map key)

-- The slots after the first match is cleared
unfoldable pub del_main : ℕ → List Slot → List Slot
del_main key [] = []
del_main key (s ∷ ss) =
    let rest = s ∷ del_main key ss in
    if s.key == key && not (s.value == 0) then free_slot ∷ ss else rest

unfoldable pub del_extra : ℕ → List Slot → List Slot
del_extra key [] = []
del_extra key (s ∷ ss) =
    let rest = s ∷ del_extra key ss in if s.key == key then free_slot ∷ ss else rest

unfoldable pub del_in : ℕ → LmMapArray → LmMapArray
del_in key a =
    if is_some (get_main key a.main)
    then record a { main = del_main key a.main }
    else record a { extra = del_extra key a.extra }

-- The value that `delfunc` is called on, and the map after that; 0 is `none`.
unfoldable pub del_found : LmMap → ℕ → Option ℕ → Option (ℕ × LmMap)
del_found map key none = none
del_found map key (some value) =
    some (value, update map (index_of key) (del_in key (map (index_of key))))

unfoldable pub lm_map_del : LmMap → ℕ → Option (ℕ × LmMap)
lm_map_del map key = del_found map key (lm_map_get map key)

-- What was allocated is freed, and lm_map_init clears the rest.
unfoldable pub lm_map_clean : LmMap → LmMap
lm_map_clean map = lm_map_init

-- The slots in use, in the order of the loops
unfoldable pub used : List Slot → List Slot
used [] = []
used (s ∷ ss) = let rest = used ss in if is_free s then rest else s ∷ rest

unfoldable pub used_in : ℕ → LmMap → List Slot
used_in zero map = []
used_in (suc n) map = used_in n map ++ used (map n).main ++ used (map n).extra

unfoldable pub count : List Slot → ℕ
count [] = 0
count (s ∷ ss) = 1 + count ss

unfoldable pub lm_map_size : LmMap → ℕ
lm_map_size map = count (used_in lm_map_hash_size map)

-- The callback returns whether to stop, and changes a state of its own; it does not change the map.
unfoldable pub visit :
    {State : Type 0} → (ℕ → ℕ → State → Bool × State) → List Slot → State → Bool × State
visit func [] state = (false, state)
visit func (s ∷ ss) state =
    let step = func s.key s.value state in
    let rest = visit func ss step.1 in if step.0 then (true, step.1) else rest

unfoldable pub lm_map_foreach :
    {State : Type 0} → (ℕ → ℕ → State → Bool × State) → LmMap → State → Bool × State
lm_map_foreach func map state = visit func (used_in lm_map_hash_size map) state
