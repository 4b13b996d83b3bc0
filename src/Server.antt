-- ===== src/Server.antt =====
-- Requests of a client that bind channels and make permissions:
-- coturn/src/server/ns_turn_server.c. The attributes of a request come decoded, and timers are
-- events of the session.
mod Peers
mod Lifetimes
mod Binding
mod Permissions
mod Permitting
pub mod Laws
mod Tests
use p2p_cluster.Common.{
  ℕ, zero, suc, ◌+◌, ◌%◌, ◌^◌, Bool, true, false, ltb, leb, ◌==◌, ◌&&◌, ◌||◌, not, if◌then◌else◌,
  Option, none, some, List, [], ◌∷◌,
}
use p2p_cluster.Common.Memory.{update}
use p2p_cluster.Ioaddr.{
  IoaAddr, IoaAddrRange, af_inet6, addr_set_any, addr_any, addr_eq, addr_eq_no_port, addr_get_port,
  addr_set_port, ioa_addr_in_range, ioa_addr_is_multicast, ioa_addr_is_loopback,
}
use p2p_cluster.StringMap.{str_equal}
use p2p_cluster.Stun.Types.{stun_valid_channel}
use p2p_cluster.Allocation.{
  Allocation, ChInfo, Permission, allocation_get_permission, allocation_add_permission,
  allocation_get_ch_info, allocation_get_ch_info_by_peer_addr, allocation_get_new_ch_info,
  get_turn_channel, or_add, turn_channel_delete, turn_permission_clean,
}

-- `ip_range_t`. A realm is the characters before the NUL.
pub record IpRange : Type 0 where
  pub enc : IoaAddrRange
  pub realm : List ℕ

-- What the handlers read of `turn_turnserver`. A list that is NULL is empty; the two lists of the
-- engine are those of ioa_get_whitelist and ioa_get_blacklist.
pub record TurnServer : Type 0 where
  pub no_multicast_peers : Bool
  pub allow_loopback_peers : Bool
  pub ip_whitelist : List IpRange
  pub engine_whitelist : List IpRange
  pub ip_blacklist : List IpRange
  pub engine_blacklist : List IpRange
  pub permission_lifetime : ℕ
  pub channel_lifetime : ℕ
  pub ctime : ℕ

-- What the handlers read and change of `ts_ur_super_session`. `server` is `none` where the pointer
-- is NULL; `relay_ipv4` and `relay_ipv6` say whether the allocation has a relay socket of the family.
pub record Session : Type 0 where
  pub server : Option TurnServer
  pub alloc : Allocation
  pub is_valid : Bool
  pub is_tcp_relay : Bool
  pub relay_ipv4 : Bool
  pub relay_ipv6 : Bool
  pub realm_name : List ℕ

unfoldable pub is_empty : List ℕ → Bool
is_empty [] = true
is_empty (x ∷ xs) = false

-- CHECK_REALM goes on to the next range where this is false.
unfoldable pub check_realm : List ℕ → List ℕ → Bool
check_realm r realm = is_empty r || is_empty realm || str_equal r realm

-- The loop over the ranges of a list, from the last to the first
unfoldable pub listed : List IpRange → List ℕ → IoaAddr → Bool
listed [] realm addr = false
listed (r ∷ rs) realm addr =
    listed rs realm addr || (check_realm r.realm realm && ioa_addr_in_range r.enc addr)

unfoldable pub good_peer_addr : TurnServer → List ℕ → IoaAddr → Bool
good_peer_addr server realm peer_addr =
    if server.no_multicast_peers && ioa_addr_is_multicast peer_addr
    then false
    else if not server.allow_loopback_peers && ioa_addr_is_loopback peer_addr
    then false
    else if listed server.ip_whitelist realm peer_addr
    then true
    else if listed server.engine_whitelist realm peer_addr
    then true
    else if listed server.ip_blacklist realm peer_addr
    then false
    else not (listed server.engine_blacklist realm peer_addr)

-- get_relay_socket: whether it is not NULL
unfoldable pub get_relay_socket : Session → ℕ → Bool
get_relay_socket ss family = if family == af_inet6 then ss.relay_ipv6 else ss.relay_ipv4

-- turn_time_t is a 32-bit number. The first argument is `ss->server`; `none` is -1, where that is
-- NULL or the permission has no owner.
unfoldable pub update_turn_permission_lifetime :
    Option TurnServer → Allocation → ℕ → ℕ → Option Allocation
update_turn_permission_lifetime none a tinfo time_delta = none
update_turn_permission_lifetime (some server) a tinfo time_delta =
    let delta = if time_delta == 0 then server.permission_lifetime else time_delta in
    let info = record (a.addr_to_perm.cell tinfo) {
      expiration_time = (server.ctime + delta) % 2 ^ 32;
    } in
    if (a.addr_to_perm.cell tinfo).owner
    then some (record a {
      addr_to_perm = record a.addr_to_perm { cell = update a.addr_to_perm.cell tinfo info };
    })
    else none

-- The channel after the lifetime of its permission is updated
unfoldable pub chn_lifetime : TurnServer → ℕ → Option Allocation → Option Allocation
chn_lifetime server chn none = none
chn_lifetime server chn (some a) =
    let info = record (a.chns.cell chn) {
      expiration_time = (server.ctime + server.channel_lifetime) % 2 ^ 32;
    } in
    some (record a { chns = record a.chns { cell = update a.chns.cell chn info } })

unfoldable pub owned_lifetime : Option TurnServer → Allocation → ℕ → Option ℕ → Option Allocation
owned_lifetime none a chn owner = none
owned_lifetime (some server) a chn none = none
owned_lifetime (some server) a chn (some tinfo) =
    let done = update_turn_permission_lifetime (some server) a tinfo server.channel_lifetime in
    if (a.addr_to_perm.cell tinfo).owner then chn_lifetime server chn done else none

-- `none` is -1.
unfoldable pub update_channel_lifetime : Option TurnServer → Allocation → ℕ → Option Allocation
update_channel_lifetime server a chn = owned_lifetime server a chn (a.chns.cell chn).owner

-- An attribute of a request, after it is decoded: one of SKIP_ATTRIBUTES, CHANNEL-NUMBER with what
-- stun_attr_get_channel_number returns, XOR-PEER-ADDRESS with what stun_attr_get_addr_str leaves in
-- peer_addr, or any other with its type.
pub data Attr : Type 0 where
  skipped : Attr
  channel_number : ℕ → Attr
  xor_peer_address : IoaAddr → Attr
  other : ℕ → Attr

-- The variables of the loop of handle_turn_channel_bind. `err_code` is 0 where there is no error.
pub record BindRequest : Type 0 where
  pub chnum : ℕ
  pub peer_addr : IoaAddr
  pub addr_found : Bool
  pub err_code : ℕ
  pub ua_num : ℕ

abbrev pub no_request : BindRequest
no_request = record {
  chnum = 0;
  peer_addr = addr_set_any;
  addr_found = false;
  err_code = 0;
  ua_num = 0;
}

unfoldable pub bind_attr : Session → Attr → BindRequest → BindRequest
bind_attr ss skipped r = r
bind_attr ss (channel_number n) r =
    if not (r.chnum == 0)
    then record r { chnum = 0; err_code = 400 }
    else if n == 0
    then record r { chnum = 0; err_code = 400 }
    else record r { chnum = n }
bind_attr ss (xor_peer_address addr) r =
    let err = if get_relay_socket ss addr.family then r.err_code else 443 in
    if addr_get_port addr == 0
    then record r { peer_addr = addr; err_code = 400 }
    else record r { peer_addr = addr; err_code = err; addr_found = true }
bind_attr ss (other attr_type) r =
    if leb attr_type 0x7FFF then record r { ua_num = r.ua_num + 1 } else r

-- MAX_NUMBER_OF_UNKNOWN_ATTRS
abbrev pub max_number_of_unknown_attrs : ℕ
max_number_of_unknown_attrs = 128

unfoldable pub bind_attrs : Session → List Attr → BindRequest → BindRequest
bind_attrs ss [] r = r
bind_attrs ss (x ∷ xs) r =
    let rest = bind_attrs ss xs (bind_attr ss x r) in
    if r.err_code == 0 && ltb r.ua_num max_number_of_unknown_attrs then rest else r

-- The error code of a request, 0 where it succeeds, and the allocation after it
unfoldable pub with_lifetime : Allocation → Option Allocation → ℕ × Allocation
with_lifetime a none = (500, a)
with_lifetime a (some a') = (0, a')

-- The checks of a channel that has the number already
unfoldable pub owner_error : Allocation → IoaAddr → ℕ → Option ℕ → ℕ
owner_error a peer_addr chn none = 500
owner_error a peer_addr chn (some tinfo) =
    if not (addr_eq_no_port peer_addr (a.addr_to_perm.cell tinfo).addr)
    then 500
    else if not ((a.chns.cell chn).port == addr_get_port peer_addr)
    then 500
    else 0

unfoldable pub known_error : Allocation → IoaAddr → ℕ → ℕ
known_error a peer_addr chn =
    if not (addr_eq peer_addr (a.chns.cell chn).peer_addr)
    then 400
    else owner_error a peer_addr chn (a.chns.cell chn).owner

unfoldable pub bind_owned : Option TurnServer → Allocation → ℕ → Option ℕ → ℕ × Allocation
bind_owned server a chn none = (500, a)
bind_owned server a chn (some tinfo) = with_lifetime a (update_channel_lifetime server a chn)

unfoldable pub bind_new : TurnServer → Session → ℕ → IoaAddr → Option ℕ → ℕ × Allocation
bind_new server ss chnum peer_addr (some chn) = (400, ss.alloc)
bind_new server ss chnum peer_addr none =
    if not (good_peer_addr server ss.realm_name peer_addr)
    then (403, ss.alloc)
    else (let made = allocation_get_new_ch_info ss.alloc chnum peer_addr in
        bind_owned ss.server made.1 made.0 (made.1.chns.cell made.0).owner)

unfoldable pub bind_number : TurnServer → Session → ℕ → IoaAddr → Option ℕ → ℕ × Allocation
bind_number server ss chnum peer_addr (some chn) =
    let err = known_error ss.alloc peer_addr chn in
    if err == 0
    then with_lifetime ss.alloc (update_channel_lifetime ss.server ss.alloc chn)
    else (err, ss.alloc)
bind_number server ss chnum peer_addr none =
    bind_new server ss chnum peer_addr (allocation_get_ch_info_by_peer_addr ss.alloc peer_addr)

unfoldable pub bind_request : TurnServer → Session → BindRequest → ℕ × Allocation
bind_request server ss r =
    if ltb 0 r.ua_num
    then (420, ss.alloc)
    else if not (r.err_code == 0)
    then (r.err_code, ss.alloc)
    else if r.chnum == 0 || addr_any r.peer_addr || not r.addr_found
    then (400, ss.alloc)
    else if not (stun_valid_channel r.chnum)
    then (400, ss.alloc)
    else bind_number server ss r.chnum r.peer_addr (allocation_get_ch_info ss.alloc r.chnum)

-- `none`: no error and no response, where the allocation is not valid
unfoldable pub handle_turn_channel_bind : TurnServer → Session → List Attr → Option (ℕ × Allocation)
handle_turn_channel_bind server ss attrs =
    if ss.is_tcp_relay
    then some (403, ss.alloc)
    else if ss.is_valid
    then some (bind_request server ss (bind_attrs ss attrs no_request))
    else none

unfoldable pub refresh_channel : Option TurnServer → Allocation → Option ℕ → ℕ × Allocation
refresh_channel server a none = (0, a)
refresh_channel server a (some chn) = with_lifetime a (update_channel_lifetime server a chn)

-- What follows the update of the permission's lifetime
unfoldable pub renew_permission :
    Option TurnServer → Allocation → ℕ → IoaAddr → Option Allocation → ℕ × Allocation
renew_permission server a tinfo peer_addr none = (500, a)
renew_permission server a tinfo peer_addr (some a') =
    refresh_channel server a' (get_turn_channel a' tinfo peer_addr)

-- The first component is 0, or 500 where update_permission returns -1.
unfoldable pub update_permission : Option TurnServer → Allocation → IoaAddr → ℕ × Allocation
update_permission server a peer_addr =
    let tinfo = or_add a peer_addr (allocation_get_permission a peer_addr) in
    renew_permission server tinfo.1 tinfo.0 peer_addr
      (update_turn_permission_lifetime server tinfo.1 tinfo.0 0)

-- The variables of the first loop of handle_turn_create_permission
pub record PermissionRequest : Type 0 where
  pub addr_found : ℕ
  pub err_code : ℕ
  pub ua_num : ℕ

abbrev pub no_permissions : PermissionRequest
no_permissions = record { addr_found = 0; err_code = 0; ua_num = 0 }

unfoldable pub permission_attr : TurnServer → Session → Attr → PermissionRequest → PermissionRequest
permission_attr server ss skipped r = r
permission_attr server ss (channel_number n) r = record r { ua_num = r.ua_num + 1 }
permission_attr server ss (xor_peer_address addr) r =
    if not (get_relay_socket ss addr.family)
    then record r { err_code = 443 }
    else if not (good_peer_addr server ss.realm_name addr)
    then record r { err_code = 403 }
    else record r { addr_found = r.addr_found + 1 }
permission_attr server ss (other attr_type) r =
    if leb attr_type 0x7FFF then record r { ua_num = r.ua_num + 1 } else r

unfoldable pub permission_attrs :
    TurnServer → Session → List Attr → PermissionRequest → PermissionRequest
permission_attrs server ss [] r = r
permission_attrs server ss (x ∷ xs) r =
    let rest = permission_attrs server ss xs (permission_attr server ss x r) in
    if r.err_code == 0 && ltb r.ua_num max_number_of_unknown_attrs then rest else r

-- The second loop, with the error code and the allocation so far
unfoldable pub permit_attrs : Option TurnServer → List Attr → ℕ × Allocation → ℕ × Allocation
permit_attrs server [] now = now
permit_attrs server (xor_peer_address addr ∷ xs) now =
    let done = update_permission server now.1 (addr_set_port addr 0) in
    permit_attrs server xs (if done.0 == 0 then now.0 else 500, done.1)
permit_attrs server (skipped ∷ xs) now = permit_attrs server xs now
permit_attrs server (channel_number n ∷ xs) now = permit_attrs server xs now
permit_attrs server (other attr_type ∷ xs) now = permit_attrs server xs now

unfoldable pub permission_request :
    TurnServer → Session → List Attr → PermissionRequest → ℕ × Allocation
permission_request server ss attrs r =
    if ltb 0 r.ua_num
    then (420, ss.alloc)
    else if not (r.err_code == 0)
    then (r.err_code, ss.alloc)
    else if r.addr_found == 0
    then (400, ss.alloc)
    else permit_attrs ss.server attrs (0, ss.alloc)

-- `none`: -1, without an error or a response, where the allocation is not valid
unfoldable pub handle_turn_create_permission :
    TurnServer → Session → List Attr → Option (ℕ × Allocation)
handle_turn_create_permission server ss attrs =
    if ss.is_valid
    then some (permission_request server ss attrs (permission_attrs server ss attrs no_permissions))
    else none

unfoldable pub client_ss_channel_timeout_handler : Allocation → ℕ → Allocation
client_ss_channel_timeout_handler a chn = turn_channel_delete a chn

unfoldable pub client_ss_perm_timeout_handler : Allocation → ℕ → Allocation
client_ss_perm_timeout_handler a tinfo =
    if not (a.addr_to_perm.cell tinfo).allocated then a else turn_permission_clean a tinfo
