-- ===== src/Lib.antt =====
-- A verification library for coturn, the TURN server under coturn/ of this repository: the parts of
-- its C code that are pure logic over explicit state.
--
-- The program. A TURN server relays packets for its clients. A request is a STUN message
-- (coturn/src/client/ns_turn_msg.c). The server keeps an allocation for each client and takes a relay
-- port for it (coturn/src/apps/relay/turn_ports.c). A client makes permissions for its peers and binds
-- channels to them (coturn/src/server/ns_turn_server.c), which the allocation keeps in tables
-- (coturn/src/server/ns_turn_allocation.c) that rest on maps (coturn/src/server/ns_turn_maps.c).
-- Sockets, threads, TLS and databases stand around these parts and are not modelled.
--
-- Files.
-- - Common: the names that all share. Common/Tests has C's comparisons, Common/Memory C's arrays and
--   buffers as functions from an index, Common/Tables masks over small ranges, Common/Text literals.
-- - Ports: coturn/src/apps/relay/turn_ports.c. `Turnports` is struct _turnports, and each function has
--   the C function's name. Ports/Invariant says what holds between calls; Ports/Create, Ports/Allocate, Ports/Release and Ports/Even are about one operation each,
--   Ports/Exhausted about a defect, and Ports/History about any sequence of calls. Ports/PerAddress is
--   struct _turnipports, a ring for each address and transport.
-- - Stun: coturn/src/client/ns_turn_msg.c. Stun/Types are message types, Stun/Header headers, Stun/Attr
--   the attributes, with Stun/Attr/Walk for the sequence of attributes, Stun/Attr/Bounds for hostile
--   bytes, Stun/Attr/Add for the writer and Stun/Attr/Values for typed values. Stun/Channel is channel
--   data, Stun/Framing the splitting of a stream into messages, Stun/Lifetime the lifetime limits,
--   Stun/Crc the checksum of fingerprints and Stun/Saslprep the preparation of user names. Stun/Address
--   is coturn/src/client/ns_turn_msg_addr.c, the fields of addresses; Stun/Address/Carried is about
--   copies of a field, Stun/Address/Attribute about attributes with addresses.
-- - Ioaddr: coturn/src/client/ns_turn_ioaddr.c. Ioaddr/Equality and Ioaddr/SameAddr are about equality
--   and hashes, Ioaddr/Order about the order, ranges and special addresses, Ioaddr/Mapping about the
--   table of public and private addresses.
-- - LocalMap: lm_map of coturn/src/server/ns_turn_maps.c. LocalMap/Slots is about the loops over slots,
--   LocalMap/Buckets about one bucket, LocalMap/Laws about one call on a map, LocalMap/History about any
--   sequence of calls, and LocalMap/Defects about a key that is put twice. LocalMap/Placement says in
--   which bucket a key stands, and LocalMap/Entries and LocalMap/Visits are about lm_map_foreach.
-- - AddrMap and StringMap: ur_addr_map and ur_string_map of coturn/src/server/ns_turn_maps.c.
-- - Allocation: permissions and channels of coturn/src/server/ns_turn_allocation.c.
--   Allocation/Tables is about the slots, Allocation/Invariant says what holds between calls,
--   Allocation/Permissions, Allocation/Channels, Allocation/Deletion and Allocation/Cleaning are about
--   one operation each, and Allocation/Laws about lookups and new channels. Allocation/Changed
--   and Allocation/Sweep are steps of these. Allocation/Unsent is unsent_buffer, a list of slots.
-- - Server: coturn/src/server/ns_turn_server.c, channel bind and create permission requests. A Session
--   is what they use of ts_ur_super_session, its pointer to the server included. Server/Peers is about good_peer_addr, Server/Lifetimes
--   about expiration times, Server/Permissions about update_permission, Server/Binding and
--   Server/Permitting about one request each, and Server/Laws about whole sessions.
--
-- How the code is modelled. Numbers are natural numbers, and a wrap of a C integer is written as a
-- remainder; where C could subtract below 0 the model adds the modulus first, or the value is a case of
-- its own. A function that updates through a pointer returns the new value. A pointer that may be
-- NULL, and a result -1, is an Option. Mutexes are recursive and held through each call of the port
-- allocator, so a call is one step. random() and turn_random() are arguments; tolower and strtoul of
-- the C library are parameters of Stun/Framing.
--
-- Loops. `while(1)` in turnports_allocate recurs on the distance from `low` to `high`: each round that
-- does not return moves `low` up by one, and a round with `low` at `high` returns. The searches for an
-- attribute have the length of the message as fuel: each round goes on by four bytes at least. The
-- other loops have a counter in the source too.
--
-- Pointers to slots and channels are numbers of cells, with which 0 for NULL is told apart by adding
-- one. Timers are events: the expiration of a channel or a permission is a step of the session.
--
-- Not modelled: the other request handlers of the server and its main loop, TCP connections of
-- allocations, ur_map with the hash table copied from khash, name resolution, message integrity,
-- passwords and oauth (they rest on OpenSSL), everything that does input or output, the
-- vendored libraries, and coturn-proxy.
pub mod Common
pub mod Ports
pub mod Server
pub mod StringMap
pub mod Stun
pub mod AddrMap
pub mod Allocation
pub mod Ioaddr
pub mod LocalMap
