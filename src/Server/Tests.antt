-- ===== src/Server/Tests.antt =====
-- A session that binds two channels, and the theorems at it.
use p2p_cluster.Common.{
  ltb, ◌++◌, ◌≤◌, ℕ, ◌≡◌, ◌≢◌, ◌↔◌, refl, true, false, ◌==◌, if◌then◌else◌, Option, none, some,
  List, [], ◌∷◌, arith,
}
use p2p_cluster.Common.Memory.{Mem}
use p2p_cluster.Ioaddr.{
  IoaAddr, IoaAddrRange, af_inet, addr_eq, addr_any, bytes_eq, addr_get_port, addr_hash_no_port,
  hash_int32, addr_eq_no_port, ioa_addr_is_multicast, ioa_addr_is_loopback,
}
use p2p_cluster.LocalMap.{
  lm_map_put, put_placed, put_main, lm_map_init, lm_map_get, get_main, get_extra,
}
use p2p_cluster.Stun.Types.{stun_valid_channel}
use p2p_cluster.Allocation.{
  Allocation, init_allocation, allocation_get_permission, allocation_get_ch_info, ch_map_get,
  ch_map_get_new, allocation_get_ch_info_by_peer_addr, channel_of, get_turn_channel, valid_channel,
  get_from_turn_permission_hashtable, first, or_later, at_slot, grown, allocation_get_new_ch_info,
  or_add, allocation_add_permission, bind_to, set_chns, turn_channel_delete, turn_permission_clean,
}
use p2p_cluster.Allocation.Invariant.{IsAllocation}
use p2p_cluster.Allocation.Channels.{Bound}
use p2p_cluster.Allocation.Deletion.{Erased, turn_channel_delete_lem}
use p2p_cluster.Allocation.Cleaning.{Revoked, turn_permission_clean_lem}
use p2p_cluster.Allocation.Laws.{
  allocation_get_ch_info_by_peer_addr_lem, allocation_get_new_ch_info_lem,
}
use p2p_cluster.Allocation.Unsent.{
  UnsentBuffer, max_unsent_buffer_size, slots, handles, head, tail, pops, clear_unsent_buffer,
  add_unsent_buffer, top_unsent_buffer, pop_unsent_buffer, unsent_buffer_lem, unsent_buffer_stuck,
}
use p2p_cluster.Server.{
  TurnServer, Session, Attr, skipped, channel_number, xor_peer_address, no_request,
  handle_turn_channel_bind, handle_turn_create_permission, bind_request, bind_attrs, bind_attr,
  get_relay_socket, bind_number, bind_new, bind_owned, with_lifetime, good_peer_addr, listed,
  update_channel_lifetime, chn_lifetime, owned_lifetime, update_turn_permission_lifetime,
}
use p2p_cluster.Server.Laws.{
  Reached, started, channel_bind, BindAnswer, handle_turn_channel_bind_lem, PermissionAnswer,
  handle_turn_create_permission_lem, Reached-IsAllocation, channels_one_to_one, channels_permitted,
}

abbrev ip : Mem
ip i = if i == 0 then 10 else if i == 3 then 1 else 0

abbrev peer : ℕ → IoaAddr
peer port = record { family = af_inet; port = port; ip4 = ip; ip6 = λ i. 0 }

abbrev server : TurnServer
server = record {
  no_multicast_peers = true;
  allow_loopback_peers = false;
  ip_whitelist = [];
  engine_whitelist = [];
  ip_blacklist = [];
  engine_blacklist = [];
  permission_lifetime = 300;
  channel_lifetime = 600;
  ctime = 1000;
}

abbrev session : Allocation → Session
session a = record {
  server = some server;
  alloc = a;
  is_valid = true;
  is_tcp_relay = false;
  relay_ipv4 = true;
  relay_ipv6 = false;
  realm_name = [];
}

abbrev request : ℕ → ℕ → List Attr
request number port = skipped ∷ channel_number number ∷ xor_peer_address (peer port) ∷ []

abbrev answer : Option (ℕ × Allocation) → ℕ × Allocation
answer none = (999, init_allocation)
answer (some o) = o

abbrev one : Allocation
one = (answer (handle_turn_channel_bind server (session init_allocation) (request 0x4000 5000))).1

abbrev two : Allocation
two = (answer (handle_turn_channel_bind server (session one) (request 0x4001 5001))).1

answered_one :
    handle_turn_channel_bind server (session init_allocation) (request 0x4000 5000)
    ≡ some
        (answer (handle_turn_channel_bind server (session init_allocation) (request 0x4000 5000)))
unfolding handle_turn_channel_bind
answered_one = refl

reached_one : Reached one
reached_one =
    channel_bind server (session init_allocation) (request 0x4000 5000) started answered_one

answered_two :
    handle_turn_channel_bind server (session one) (request 0x4001 5001)
    ≡ some (answer (handle_turn_channel_bind server (session one) (request 0x4001 5001)))
unfolding handle_turn_channel_bind
answered_two = refl

reached_two : Reached two
reached_two = channel_bind server (session one) (request 0x4001 5001) reached_one answered_two

-- The second request succeeds, and both channels and their permission are in use.
made :
    ((answer (handle_turn_channel_bind server (session one) (request 0x4001 5001))).0 ≡ 0)
    × ((two.chns.cell 0).allocated ≡ true)
    × ((two.chns.cell 1).allocated ≡ true)
    × ((two.addr_to_perm.cell 5).allocated ≡ true)
unfolding handle_turn_channel_bind bind_request bind_attrs bind_attr get_relay_socket bind_number
    bind_new bind_owned with_lifetime good_peer_addr listed update_channel_lifetime owned_lifetime
    chn_lifetime update_turn_permission_lifetime stun_valid_channel addr_any bytes_eq addr_get_port
    addr_hash_no_port hash_int32 addr_eq_no_port ioa_addr_is_multicast ioa_addr_is_loopback
    allocation_get_ch_info ch_map_get ch_map_get_new allocation_get_ch_info_by_peer_addr channel_of
    get_turn_channel valid_channel get_from_turn_permission_hashtable first or_later at_slot grown
    allocation_get_new_ch_info or_add allocation_add_permission bind_to set_chns lm_map_put
    put_placed put_main lm_map_init lm_map_get get_main get_extra
made = (refl, refl, refl, refl)

valid : IsAllocation two
valid = Reached-IsAllocation reached_two

valid_one : IsAllocation one
valid_one = Reached-IsAllocation reached_one

valid_none : IsAllocation init_allocation
valid_none = Reached-IsAllocation started

Reached-IsAllocation_example : IsAllocation two
Reached-IsAllocation_example = Reached-IsAllocation reached_two

channels_one_to_one_example :
    ((two.chns.cell 0).chnum ≡ (two.chns.cell 1).chnum)
    ↔ (addr_eq (two.chns.cell 0).peer_addr (two.chns.cell 1).peer_addr ≡ true)
channels_one_to_one_example = channels_one_to_one reached_two 0 1 made.1 made.2

channels_permitted_example :
    (q : ℕ) × (allocation_get_permission two (two.chns.cell 1).peer_addr ≡ some q)
channels_permitted_example = channels_permitted reached_two 1 made.2

handle_turn_channel_bind_lem_example :
    BindAnswer
      (session one)
      (bind_attrs (session one) (request 0x4000 5001) no_request).chnum
      (bind_attrs (session one) (request 0x4000 5001) no_request).peer_addr
      (handle_turn_channel_bind server (session one) (request 0x4000 5001))
handle_turn_channel_bind_lem_example =
    handle_turn_channel_bind_lem server (session one) (request 0x4000 5001) valid_one

abbrev permission : List Attr
permission = skipped ∷ xor_peer_address (peer 9) ∷ []

handle_turn_create_permission_lem_example :
    PermissionAnswer server
      (session init_allocation)
      permission
      (handle_turn_create_permission server (session init_allocation) permission)
handle_turn_create_permission_lem_example =
    handle_turn_create_permission_lem server (session init_allocation) permission valid_none

-- 10.0.0.0 to 10.255.255.255
abbrev net10 : IoaAddrRange
net10 = record {
  min = record { family = af_inet; port = 0; ip4 = λ i. if i == 0 then 10 else 0; ip6 = λ i. 0 };
  max = record { family = af_inet; port = 0; ip4 = λ i. if i == 0 then 10 else 255; ip6 = λ i. 0 };
}

-- The network is on a black list, and for one realm on a white list.
abbrev guarded : TurnServer
guarded = record server {
  ip_whitelist = record { enc = net10; realm = 7 ∷ [] } ∷ [];
  ip_blacklist = record { enc = net10; realm = [] } ∷ [];
}

turn_channel_delete_lem_example : Erased two 1 (turn_channel_delete two 1)
turn_channel_delete_lem_example = turn_channel_delete_lem two 1 valid made.2

turn_permission_clean_lem_example : Revoked two 5 (turn_permission_clean two 5)
turn_permission_clean_lem_example = turn_permission_clean_lem two 5 valid made.3

allocation_get_ch_info_by_peer_addr_lem_example :
    (allocation_get_ch_info_by_peer_addr two (peer 5001) ≡ some 1) ↔ (
      ((two.chns.cell 1).allocated ≡ true)
      × (addr_eq (two.chns.cell 1).peer_addr (peer 5001) ≡ true))
allocation_get_ch_info_by_peer_addr_lem_example =
    allocation_get_ch_info_by_peer_addr_lem two (peer 5001) 1 valid

known : addr_eq_no_port (peer 5000) (peer 5000) ≡ true
unfolding addr_eq_no_port bytes_eq
known = refl

has_port : addr_get_port (peer 5000) ≢ 0
unfolding addr_get_port
has_port = omega arith

no_number : allocation_get_ch_info init_allocation 0x4000 ≡ none
unfolding allocation_get_ch_info ch_map_get first or_later at_slot
no_number = refl

no_peer : allocation_get_ch_info_by_peer_addr init_allocation (peer 5000) ≡ none
unfolding allocation_get_ch_info_by_peer_addr channel_of get_from_turn_permission_hashtable first
    or_later at_slot addr_hash_no_port hash_int32
no_peer = refl

number : stun_valid_channel 0x4000 ≡ true
unfolding stun_valid_channel
number = refl

allocation_get_new_ch_info_lem_example :
    Bound init_allocation.chns 0x4000
      (peer 5000)
      (allocation_get_new_ch_info init_allocation 0x4000 (peer 5000)).0
      (allocation_get_new_ch_info init_allocation 0x4000 (peer 5000)).1
allocation_get_new_ch_info_lem_example =
    allocation_get_new_ch_info_lem init_allocation 0x4000 (peer 5000) valid_none known has_port
      number no_number no_peer

unsent_buffer_lem_example :
    (top_unsent_buffer (none ∷ some 4 ∷ []) ≡ head (handles (none ∷ some 4 ∷ [])))
    × (handles (pop_unsent_buffer (none ∷ some 4 ∷ [])) ≡ tail (handles (none ∷ some 4 ∷ [])))
    × (handles (add_unsent_buffer (none ∷ some 4 ∷ []) 5).0 ≡ (
        if ltb (slots (none ∷ some 4 ∷ [])) max_unsent_buffer_size
        then handles (none ∷ some 4 ∷ []) ++ 5 ∷ []
        else handles (none ∷ some 4 ∷ [])))
    × ((add_unsent_buffer (none ∷ some 4 ∷ []) 5).1
        ≡ (if ltb (slots (none ∷ some 4 ∷ [])) max_unsent_buffer_size then none else some 5))
    × ((clear_unsent_buffer (none ∷ some 4 ∷ [])).1 ≡ handles (none ∷ some 4 ∷ []))
unsent_buffer_lem_example = unsent_buffer_lem (none ∷ some 4 ∷ []) 5

abbrev sixteen : UnsentBuffer
sixteen =
    some 1
    ∷ some 2
    ∷ some 3
    ∷ some 4
    ∷ some 5
    ∷ some 6
    ∷ some 7
    ∷ some 8
    ∷ some 9
    ∷ some 10
    ∷ some 11
    ∷ some 12
    ∷ some 13
    ∷ some 14
    ∷ some 15
    ∷ some 16
    ∷ []

is_full : max_unsent_buffer_size ≤ slots sixteen
unfolding slots
is_full = omega arith

-- Nothing is left in the buffer, and the handle is deleted.
sixteen_stuck : add_unsent_buffer (pops 16 sixteen) 17 ≡ (pops 16 sixteen, some 17)
sixteen_stuck = unsent_buffer_stuck sixteen 16 17 is_full
