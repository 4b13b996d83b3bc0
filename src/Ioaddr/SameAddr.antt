-- ===== src/Ioaddr/SameAddr.antt =====
-- `addr_eq` is an equivalence on IPv4 and IPv6 addresses.
use p2p_cluster.Common.{◌≡◌, sym, ◌∙◌, true, Bool-cases, inl, inr}
use p2p_cluster.Ioaddr.{IoaAddr, addr_eq}
use p2p_cluster.Ioaddr.Equality.{
  SameHost, SameHost-sym, SameHost-trans, addr_eq_no_port-SameHost, addr_eq_lem,
}

-- Addresses that addr_eq takes for the same: host and port
pub data SameAddr (a b : IoaAddr) : Type 0 where
  same_addr : SameHost a b → a.port ≡ b.port → SameAddr a b

pub SameAddr-of : (a b : IoaAddr) → addr_eq a b ≡ true → SameAddr a b
SameAddr-of a b h =
    let parts = (addr_eq_lem a b).0 h in
    same_addr ((addr_eq_no_port-SameHost a b).0 parts.0) parts.1

pub SameAddr-eq : {a b : IoaAddr} → SameAddr a b → addr_eq a b ≡ true
SameAddr-eq {a} {b} (same_addr s p) = (addr_eq_lem a b).1 ((addr_eq_no_port-SameHost a b).1 s, p)

SameAddr-sym : {a b : IoaAddr} → SameAddr a b → SameAddr b a
SameAddr-sym (same_addr s p) = same_addr (SameHost-sym s) (sym p)

SameAddr-trans : {a b c : IoaAddr} → SameAddr a b → SameAddr b c → SameAddr a c
SameAddr-trans (same_addr s p) (same_addr t q) = same_addr (SameHost-trans s t) (p ∙ q)

-- Two addresses that are the same as a third, in either order, are the same.
pub addr_eq_join : (a b c : IoaAddr) → addr_eq a b ≡ true → addr_eq a c ≡ addr_eq b c
addr_eq_join a b c h = elim (Bool-cases (addr_eq a c)) [
  | inl e ↦
      e ∙ sym (SameAddr-eq (SameAddr-trans (SameAddr-sym (SameAddr-of a b h)) (SameAddr-of a c e)))
  | inr ne ↦ elim (Bool-cases (addr_eq b c)) [
    | inl e ↦ let both = SameAddr-eq (SameAddr-trans (SameAddr-of a b h) (SameAddr-of b c e)) in cc
    | inr ne' ↦ ne ∙ sym ne'
  ]
]

pub addr_eq_comm : (a b : IoaAddr) → addr_eq a b ≡ addr_eq b a
addr_eq_comm a b = elim (Bool-cases (addr_eq a b)) [
  | inl e ↦ e ∙ sym (SameAddr-eq (SameAddr-sym (SameAddr-of a b e)))
  | inr ne ↦ elim (Bool-cases (addr_eq b a)) [
    | inl e ↦ let back = SameAddr-eq (SameAddr-sym (SameAddr-of b a e)) in cc
    | inr ne' ↦ ne ∙ sym ne'
  ]
]
