-- ===== src/StringMap/Tests.antt =====
-- String maps on concrete keys, and their theorems at them.
use p2p_cluster.Common.{◌*◌, ◌+◌, ◌≡◌, refl, none, if◌then◌else◌}
use p2p_cluster.Common.Text.{codes}
use p2p_cluster.StringMap.{
  str_equal, string_hash, hash_from, ur_string_map_create, ur_string_map_put, ur_string_map_get,
  ur_string_map_del,
}
use p2p_cluster.StringMap.Laws.{Put, ur_string_map_put_lem, ur_string_map_del-get}

hash_of_a : string_hash (codes "ab") ≡ 97 * 65599 + 98
unfolding string_hash hash_from
hash_of_a = refl

ur_string_map_put_lem_example :
    Put ur_string_map_create
      (codes "alice")
      7
      (ur_string_map_put ur_string_map_create (codes "alice") 7)
unfolding ur_string_map_create
ur_string_map_put_lem_example = ur_string_map_put_lem ur_string_map_create (codes "alice") 7 refl

ur_string_map_del-get_example :
    ur_string_map_get (ur_string_map_del ur_string_map_create (codes "alice")).0 (codes "bob") ≡ (
      if str_equal (codes "alice") (codes "bob")
      then none
      else ur_string_map_get ur_string_map_create (codes "bob"))
unfolding ur_string_map_create
ur_string_map_del-get_example =
    ur_string_map_del-get ur_string_map_create (codes "alice") (codes "bob") refl
