-- ===== src/Allocation.antt =====
-- Permissions and channels of an allocation: coturn/src/server/ns_turn_allocation.c. An
-- `allocation` has a table of the permissions by the host of the peer and a table of the channels
-- by number; each permission has a local map of its channels by the port of the peer.
-- Timers and kernel channels, which other files start and stop, are left out.
pub mod Tables
pub mod Invariant
pub mod Permissions
pub mod Changed
pub mod Channels
pub mod Deletion
pub mod Sweep
pub mod Cleaning
pub mod Unsent
pub mod Laws
use p2p_cluster.Common.{
  ℕ, zero, suc, ◌+◌, ◌-◌, ◌*◌, ◌%◌, Bool, true, false, ◌==◌, ◌&&◌, not, if◌then◌else◌, Option, none,
  some,
}
use p2p_cluster.Common.Memory.{update}
use p2p_cluster.Ioaddr.{IoaAddr, addr_set_any, addr_hash_no_port, addr_eq_no_port, addr_get_port}
use p2p_cluster.LocalMap.{LmMap, lm_map_init, lm_map_put, lm_map_get, lm_map_del, lm_map_foreach}
use p2p_cluster.Stun.Types.{stun_valid_channel}

-- TURN_PERMISSION_HASHTABLE_SIZE and CH_MAP_HASH_SIZE
abbrev pub hash_size : ℕ
hash_size = 8

-- A hash table of 8 arrays of slots: slot `i` of array `b` is the cell `b + 8 * i`. The first three
-- slots of an array are the main ones, and `size b` counts the extra ones too. The number of a cell
-- stands for the pointer to its slot, which stays valid as the array grows.
pub record SlotTable (A : Type 0) : Type 0 where
  pub cell : ℕ → A
  pub size : ℕ → ℕ

abbrev pub slot_ref : ℕ → ℕ → ℕ
slot_ref b i = b + hash_size * i

unfoldable pub or_later {ℓ} : {A : Type ℓ} → Option A → Option A → Option A
or_later (some x) o = some x
or_later none o = o

-- The first index below the bound at which a loop stops
unfoldable pub first : (ℕ → Bool) → ℕ → Option ℕ
first stops zero = none
first stops (suc n) = or_later (first stops n) (if stops n then some n else none)

unfoldable pub at_slot : ℕ → Option ℕ → Option ℕ
at_slot b none = none
at_slot b (some i) = some (slot_ref b i)

-- The slot of array `b` at which the loops over its main and its extra slots stop
abbrev pub find_slot : {A : Type 0} → SlotTable A → (A → Bool) → ℕ → Option ℕ
find_slot t stops b = at_slot b (first (λ i. stops (t.cell (slot_ref b i))) (t.size b))

unfoldable pub grown : {A : Type 0} → SlotTable A → A → ℕ → Option ℕ → ℕ × SlotTable A
grown t zeroed b (some ref) = (ref, t)
grown t zeroed b none =
    let ref = slot_ref b (t.size b) in
    (ref, record { cell = update t.cell ref zeroed; size = update t.size b (t.size b + 1) })

-- A free slot of array `b`, or a new one at its end, which is zeroed
abbrev pub claim_slot : {A : Type 0} → SlotTable A → (A → Bool) → A → ℕ → ℕ × SlotTable A
claim_slot t is_allocated zeroed b = grown t zeroed b (find_slot t (λ x. not (is_allocated x)) b)

-- `ch_info`. The owner is the cell of a permission.
pub record ChInfo : Type 0 where
  pub chnum : ℕ
  pub allocated : Bool
  pub port : ℕ
  pub peer_addr : IoaAddr
  pub expiration_time : ℕ
  pub owner : Option ℕ

-- `turn_permission_info`. A value of `chns` is the cell of a channel and 1, as 0 is NULL; `owner`
-- says whether the pointer to the allocation is not NULL.
pub record Permission : Type 0 where
  pub allocated : Bool
  pub chns : LmMap
  pub addr : IoaAddr
  pub expiration_time : ℕ
  pub owner : Bool

pub record Allocation : Type 0 where
  pub addr_to_perm : SlotTable Permission
  pub chns : SlotTable ChInfo

-- bzero
abbrev pub zero_ch_info : ChInfo
zero_ch_info = record {
  chnum = 0;
  allocated = false;
  port = 0;
  peer_addr = addr_set_any;
  expiration_time = 0;
  owner = none;
}

abbrev pub zero_permission : Permission
zero_permission = record {
  allocated = false;
  chns = lm_map_init;
  addr = addr_set_any;
  expiration_time = 0;
  owner = false;
}

abbrev pub empty_table : {A : Type 0} → A → SlotTable A
empty_table zeroed = record { cell = λ r. zeroed; size = λ b. 3 }

abbrev pub init_allocation : Allocation
init_allocation = record {
  addr_to_perm = empty_table zero_permission;
  chns = empty_table zero_ch_info;
}

abbrev pub perm_index : IoaAddr → ℕ
perm_index addr = addr_hash_no_port addr % hash_size

unfoldable pub get_from_turn_permission_hashtable : SlotTable Permission → IoaAddr → Option ℕ
get_from_turn_permission_hashtable map addr =
    find_slot map (λ p. p.allocated && addr_eq_no_port p.addr addr) (perm_index addr)

unfoldable pub allocation_get_permission : Allocation → IoaAddr → Option ℕ
allocation_get_permission a addr = get_from_turn_permission_hashtable a.addr_to_perm addr

pub can_accept_tcp_connection_from_peer : Allocation → IoaAddr → Bool → Bool
can_accept_tcp_connection_from_peer a peer_addr server_relay =
    if server_relay
    then true
    else is_there (get_from_turn_permission_hashtable a.addr_to_perm peer_addr)
  where
    is_there : Option ℕ → Bool
    is_there none = false
    is_there (some q) = true

-- The permission that is made, and the allocation after that
unfoldable pub allocation_add_permission : Allocation → IoaAddr → ℕ × Allocation
allocation_add_permission a addr =
    let claimed = claim_slot a.addr_to_perm (λ p. p.allocated) zero_permission (perm_index addr) in
    let elem = record zero_permission { allocated = true; addr = addr; owner = true } in
    (
      claimed.0,
      record a { addr_to_perm = record claimed.1 { cell = update claimed.1.cell claimed.0 elem } },
    )

-- ch_map_get(map, chnum, 0)
unfoldable pub ch_map_get : SlotTable ChInfo → ℕ → Option ℕ
ch_map_get map chnum = find_slot map (λ c. c.allocated && c.chnum == chnum) (chnum % hash_size)

-- ch_map_get(map, chnum, 1): the slot, and the table after that
unfoldable pub ch_map_get_new : SlotTable ChInfo → ℕ → ℕ × SlotTable ChInfo
ch_map_get_new map chnum = claim_slot map (λ c. c.allocated) zero_ch_info (chnum % hash_size)

unfoldable pub or_add : Allocation → IoaAddr → Option ℕ → ℕ × Allocation
or_add a peer_addr (some q) = (q, a)
or_add a peer_addr none = allocation_add_permission a peer_addr

-- The map of a permission after a call of lm_map_put or lm_map_del that may fail
unfoldable pub set_chns : SlotTable Permission → ℕ → Option LmMap → SlotTable Permission
set_chns perms q none = perms
set_chns perms q (some map) = record perms {
  cell = update perms.cell q (record (perms.cell q) { chns = map });
}

-- The expiration time is what it was in the slot.
unfoldable pub bind_to : Allocation → ℕ → ℕ → IoaAddr → Allocation
bind_to a tinfo chnum peer_addr =
    let claimed = ch_map_get_new a.chns chnum in
    let chn = record (claimed.1.cell claimed.0) {
      allocated = true;
      chnum = chnum;
      port = addr_get_port peer_addr;
      peer_addr = peer_addr;
      owner = some tinfo;
    } in
    let chns =
      lm_map_put (a.addr_to_perm.cell tinfo).chns (addr_get_port peer_addr) (suc claimed.0) in
    record {
      addr_to_perm = set_chns a.addr_to_perm tinfo chns;
      chns = record claimed.1 { cell = update claimed.1.cell claimed.0 chn };
    }

unfoldable pub allocation_get_new_ch_info : Allocation → ℕ → IoaAddr → ℕ × Allocation
allocation_get_new_ch_info a chnum peer_addr =
    let tinfo = or_add a peer_addr (get_from_turn_permission_hashtable a.addr_to_perm peer_addr) in
    ((ch_map_get_new tinfo.1.chns chnum).0, bind_to tinfo.1 tinfo.0 chnum peer_addr)

unfoldable pub allocation_get_ch_info : Allocation → ℕ → Option ℕ
allocation_get_ch_info a chnum = ch_map_get a.chns chnum

-- The channel behind a pointer, where it is not NULL and the number is valid
unfoldable pub valid_channel : SlotTable ChInfo → Option ℕ → Option ℕ
valid_channel chns none = none
valid_channel chns (some zero) = none
valid_channel chns (some (suc r)) = if stun_valid_channel (chns.cell r).chnum then some r else none

unfoldable pub get_turn_channel : Allocation → ℕ → IoaAddr → Option ℕ
get_turn_channel a tinfo addr =
    valid_channel a.chns (lm_map_get (a.addr_to_perm.cell tinfo).chns (addr_get_port addr))

unfoldable pub number_of : SlotTable ChInfo → Option ℕ → ℕ
number_of chns none = 0
number_of chns (some r) = (chns.cell r).chnum

pub get_turn_channel_number : Allocation → ℕ → IoaAddr → ℕ
get_turn_channel_number a tinfo addr = number_of a.chns (get_turn_channel a tinfo addr)

unfoldable pub channel_of : Allocation → IoaAddr → Option ℕ → Option ℕ
channel_of a peer_addr none = none
channel_of a peer_addr (some tinfo) = get_turn_channel a tinfo peer_addr

unfoldable pub allocation_get_ch_info_by_peer_addr : Allocation → IoaAddr → Option ℕ
allocation_get_ch_info_by_peer_addr a peer_addr =
    channel_of a peer_addr (get_from_turn_permission_hashtable a.addr_to_perm peer_addr)

unfoldable pub ch_info_clean : (ℕ → ChInfo) → ℕ → (ℕ → ChInfo)
ch_info_clean cells r = update cells r zero_ch_info

-- The callback of lm_map_foreach, which clears the channel behind the pointer and goes on
unfoldable pub delete_channel_info_from_allocation_map : ℕ → ℕ → (ℕ → ChInfo) → Bool × (ℕ → ChInfo)
delete_channel_info_from_allocation_map key zero cells = (false, cells)
delete_channel_info_from_allocation_map key (suc r) cells = (false, ch_info_clean cells r)

unfoldable pub without : SlotTable Permission → ℕ → ℕ → Option (ℕ × LmMap) → SlotTable Permission
without perms q port none = perms
without perms q port (some (value, map)) = set_chns perms q (some map)

unfoldable pub owner_without : SlotTable Permission → Option ℕ → ℕ → SlotTable Permission
owner_without perms none port = perms
owner_without perms (some q) port = without perms q port (lm_map_del (perms.cell q).chns port)

unfoldable pub turn_channel_delete : Allocation → ℕ → Allocation
turn_channel_delete a chn =
    let info = a.chns.cell chn in
    record {
      addr_to_perm = owner_without a.addr_to_perm info.owner (addr_get_port info.peer_addr);
      chns = record a.chns { cell = ch_info_clean a.chns.cell chn };
    }

unfoldable pub turn_permission_clean : Allocation → ℕ → Allocation
turn_permission_clean a tinfo =
    let info = a.addr_to_perm.cell tinfo in
    if info.allocated
    then record {
      addr_to_perm = record a.addr_to_perm {
        cell = update a.addr_to_perm.cell tinfo zero_permission;
      };
      chns = record a.chns {
        cell = (lm_map_foreach delete_channel_info_from_allocation_map info.chns a.chns.cell).1;
      };
    }
    else a
