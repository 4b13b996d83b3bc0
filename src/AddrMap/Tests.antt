-- ===== src/AddrMap/Tests.antt =====
-- Address maps on concrete addresses, and their theorems at them.
use p2p_cluster.Common.{◌+◌, ◌≡◌, refl, none, if◌then◌else◌, arith}
use p2p_cluster.Ioaddr.{IoaAddr, af_inet, addr_eq}
use p2p_cluster.AddrMap.{ur_addr_map_init, ur_addr_map_put, ur_addr_map_get, ur_addr_map_del}
use p2p_cluster.AddrMap.Laws.{Put, ur_addr_map_put_lem, ur_addr_map_del-get}

abbrev client : IoaAddr
client = record { family = af_inet; port = 5000; ip4 = λ i. 192 + i; ip6 = λ _. 0 }

abbrev peer : IoaAddr
peer = record client { port = 5001 }

ur_addr_map_put_lem_example :
    Put ur_addr_map_init client 7 (ur_addr_map_put ur_addr_map_init client 7)
unfolding ur_addr_map_init
ur_addr_map_put_lem_example = ur_addr_map_put_lem ur_addr_map_init client 7 refl (omega arith)

ur_addr_map_del-get_example :
    ur_addr_map_get (ur_addr_map_del ur_addr_map_init client).0 peer
    ≡ (if addr_eq client peer then none else ur_addr_map_get ur_addr_map_init peer)
ur_addr_map_del-get_example = ur_addr_map_del-get ur_addr_map_init client peer
