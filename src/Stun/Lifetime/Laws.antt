-- ===== src/Stun/Lifetime/Laws.antt =====
-- The limits that an adjusted lifetime keeps.
use p2p_cluster.Common.{ℕ, ◌≤◌, ◌≡◌, ◌⊎◌, ◌≢◌, arith}
use p2p_cluster.Stun.Lifetime.{stun_adjust_allocate_lifetime}

pub record IsAdjusted (lifetime max_allowed max_lifetime result : ℕ) : Type 0 where
  pub allowed : result ≤ max_allowed
  pub limited : max_lifetime ≢ 0 → result ≤ max_lifetime
  pub long : (max_lifetime ≡ 0) ⊎ (600 ≤ max_lifetime) → 600 ≤ result
  pub as_asked :
      600 ≤ lifetime
      → lifetime ≤ max_allowed
      → (max_lifetime ≡ 0) ⊎ (lifetime ≤ max_lifetime)
      → result ≡ lifetime

-- Where the allowed maximum is at least 600 seconds, the adjusted lifetime is at most the allowed
-- maximum, and at most the session's own maximum if that is set (not 0); it is at least 600 unless
-- the session's maximum is below; and a lifetime from 600 up within both limits is granted as asked.
pub stun_adjust_allocate_lifetime-IsAdjusted :
    (lifetime max_allowed max_lifetime : ℕ)
    → 600 ≤ max_allowed
    → IsAdjusted lifetime max_allowed max_lifetime
        (stun_adjust_allocate_lifetime lifetime max_allowed max_lifetime)
unfolding stun_adjust_allocate_lifetime
stun_adjust_allocate_lifetime-IsAdjusted lifetime max_allowed max_lifetime h = record {
  allowed = ground arith;
  limited = λ n. ground arith;
  long = λ l. ground arith;
  as_asked = λ a b c. ground arith;
}
