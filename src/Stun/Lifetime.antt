-- ===== src/Stun/Lifetime.antt =====
-- The lifetime that a client gets for the one that it asks for, in coturn/src/client/ns_turn_msg.c.
pub mod Laws
use p2p_cluster.Common.{ℕ, ltb, ◌==◌, ◌&&◌, not, if◌then◌else◌}

abbrev pub stun_default_allocate_lifetime : ℕ
stun_default_allocate_lifetime = 600

abbrev pub stun_min_allocate_lifetime : ℕ
stun_min_allocate_lifetime = stun_default_allocate_lifetime

unfoldable pub stun_adjust_allocate_lifetime : ℕ → ℕ → ℕ → ℕ
stun_adjust_allocate_lifetime lifetime max_allowed_lifetime max_lifetime =
    let adjusted =
      if lifetime == 0
      then stun_default_allocate_lifetime
      else if ltb lifetime stun_min_allocate_lifetime
      then stun_min_allocate_lifetime
      else if ltb max_allowed_lifetime lifetime
      then max_allowed_lifetime
      else lifetime in
    if not (max_lifetime == 0) && ltb max_lifetime adjusted then max_lifetime else adjusted
