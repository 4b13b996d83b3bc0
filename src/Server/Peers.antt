-- ===== src/Server/Peers.antt =====
-- Which IPv4 peers good_peer_addr lets through, against the policy in the server's configuration.
use p2p_cluster.Common.{ℕ, ◌<◌, ◌≤◌, ◌≡◌, ◌≢◌, true, false, ◌⊎◌, List, [], ◌∷◌}
use p2p_cluster.Ioaddr.{IoaAddr, af_inet, be32, addr_any}
use p2p_cluster.Server.{IpRange, TurnServer}

-- A range of a list counts if it has no realm, the session has none, or the two are the same.
abbrev pub Counts : List ℕ → List ℕ → Type 0
Counts r realm = (r ≡ []) ⊎ ((realm ≡ []) ⊎ (r ≡ realm))

-- A range of the list that counts and that has the address, as a number of 32 bits, in its bounds
pub data Covers (realm : List ℕ) (addr : IoaAddr) : List IpRange → Type 0 where
  here :
      {r : IpRange} {rs : List IpRange}
      → Counts r.realm realm
      → be32 r.enc.min.ip4 ≤ be32 addr.ip4
      → be32 addr.ip4 ≤ be32 r.enc.max.ip4
      → Covers realm addr (r ∷ rs)
  there : {r : IpRange} {rs : List IpRange} → Covers realm addr rs → Covers realm addr (r ∷ rs)

-- Every range of the list is one of IPv4, and no bound of it is 0.0.0.0 with port 0.
pub data AreIpv4 : List IpRange → Type 0 where
  ipv4_nil : AreIpv4 []
  ipv4_cons :
      {r : IpRange} {rs : List IpRange}
      → r.enc.min.family ≡ af_inet
      → r.enc.max.family ≡ af_inet
      → addr_any r.enc.min ≡ false
      → addr_any r.enc.max ≡ false
      → AreIpv4 rs
      → AreIpv4 (r ∷ rs)

pub record HasIpv4Lists (server : TurnServer) : Type 0 where
  pub white : AreIpv4 server.ip_whitelist
  pub engine_white : AreIpv4 server.engine_whitelist
  pub black : AreIpv4 server.ip_blacklist
  pub engine_black : AreIpv4 server.engine_blacklist

-- The policy for an IPv4 peer: multicast addresses, 224.0.0.0 and above, and loopback addresses,
-- 127.0.0.0/8, may be banned. Of the others, one that a white list covers is let through, and so is
-- one that no black list covers.
pub record IsGood (server : TurnServer) (realm : List ℕ) (addr : IoaAddr) : Type 0 where
  pub multicast : server.no_multicast_peers ≡ true → addr.ip4 0 < 224
  pub loopback : server.allow_loopback_peers ≡ false → addr.ip4 0 ≢ 127
  pub lists :
      (Covers realm addr server.ip_whitelist ⊎ Covers realm addr server.engine_whitelist)
      ⊎ (¬ Covers realm addr server.ip_blacklist × ¬ Covers realm addr server.engine_blacklist)
