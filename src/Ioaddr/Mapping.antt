-- ===== src/Ioaddr/Mapping.antt =====
-- The table of public and private addresses of a server behind a NAT.
use p2p_cluster.Common.{
  ℕ, ◌^◌, ◌<◌, ◌≡◌, refl, ap, ◌∙◌, true, false, Bool-cases, ◌∷◌, arith, inl, inr,
}
use p2p_cluster.Ioaddr.{
  IoaAddr, Mappings, addr_eq_no_port, addr_set_port, addr_get_port, map_addr_from_public_to_private,
  map_addr_from_private_to_public,
}
use p2p_cluster.Ioaddr.Equality.{
  SameHost, v4, v6, SameHost-sym, SameHost-trans, addr_eq_no_port-SameHost,
}

-- The table pairs `p` with `q`, and no entry before that has either of the two.
pub data Pairs : Mappings → IoaAddr → IoaAddr → Type 0 where
  here : {ms : Mappings} {p q : IoaAddr} → Pairs ((p, q) ∷ ms) p q
  later :
      {ms : Mappings} {p q p' q' : IoaAddr}
      → ¬ SameHost p p'
      → ¬ SameHost q q'
      → Pairs ms p q
      → Pairs ((p', q') ∷ ms) p q

eq_of : {a b : IoaAddr} → SameHost a b → addr_eq_no_port a b ≡ true
eq_of {a} {b} s = (addr_eq_no_port-SameHost a b).1 s

ne_of : (a p b : IoaAddr) → SameHost a p → ¬ SameHost p b → addr_eq_no_port a b ≡ false
ne_of a p b s apart = elim (Bool-cases (addr_eq_no_port a b)) [
  | inl e ↦ absurd (apart (SameHost-trans (SameHost-sym s) ((addr_eq_no_port-SameHost a b).0 e)))
  | inr e ↦ e
]

public_to_private-at :
    (ms : Mappings) (p q a : IoaAddr)
    → Pairs ms p q
    → SameHost a p
    → map_addr_from_public_to_private ms a ≡ addr_set_port q (addr_get_port a)
unfolding map_addr_from_public_to_private
public_to_private-at _ p q a (here {ms}) s = rw (eq_of s) refl
public_to_private-at _ p q a (later {ms} {p' = p'} apart _ rest) s =
    rw (ne_of a p p' s apart) (public_to_private-at ms p q a rest s)

private_to_public-at :
    (ms : Mappings) (p q a : IoaAddr)
    → Pairs ms p q
    → SameHost a q
    → map_addr_from_private_to_public ms a ≡ addr_set_port p (addr_get_port a)
unfolding map_addr_from_private_to_public
private_to_public-at _ p q a (here {ms}) s = rw (eq_of s) refl
private_to_public-at _ p q a (later {ms} {q' = q'} _ apart rest) s =
    rw (ne_of a q q' s apart) (private_to_public-at ms p q a rest s)

set_port-family : (a : IoaAddr) (n : ℕ) → (addr_set_port a n).family ≡ a.family
unfolding addr_set_port
set_port-family a n = ground arith

set_port-ip4 : (a : IoaAddr) (n : ℕ) → (addr_set_port a n).ip4 ≡ a.ip4
unfolding addr_set_port
set_port-ip4 a n = ground arith

set_port-ip6 : (a : IoaAddr) (n : ℕ) → (addr_set_port a n).ip6 ≡ a.ip6
unfolding addr_set_port
set_port-ip6 a n = ground arith

set_port-SameHost : (a b : IoaAddr) (n : ℕ) → SameHost a b → SameHost (addr_set_port a n) b
set_port-SameHost a b n (v4 x y s) =
    v4 (set_port-family a n ∙ x) y (λ i lt. ap (λ m. m i) (set_port-ip4 a n) ∙ s i lt)
set_port-SameHost a b n (v6 x y s) =
    v6 (set_port-family a n ∙ x) y (λ i lt. ap (λ m. m i) (set_port-ip6 a n) ∙ s i lt)

get-set_port :
    (a b : IoaAddr) (n : ℕ) → SameHost a b → n < 2 ^ 16 → addr_get_port (addr_set_port a n) ≡ n
unfolding addr_set_port addr_get_port
get-set_port a b n (v4 x y s) h = ground arith
get-set_port a b n (v6 x y s) h = ground arith

-- Where the table pairs a public with a private IPv4 or IPv6 address, and no entry before that one
-- has the host of either, and `a` has the host of the public one and some port below 2^16:
-- `map_addr_from_public_to_private` gives the private one with the same port, and
-- `map_addr_from_private_to_public` takes that back to the address and the port of `a`.
pub mapping_round_trip :
    (ms : Mappings) (p q a : IoaAddr)
    → Pairs ms p q
    → SameHost a p
    → SameHost q q
    → addr_get_port a < 2 ^ 16
    → let there = map_addr_from_public_to_private ms a in
      let back = map_addr_from_private_to_public ms there in
      (SameHost there q × (addr_get_port there ≡ addr_get_port a))
      × (SameHost back a × (addr_get_port back ≡ addr_get_port a))
mapping_round_trip ms p q a at s known h =
    let port = addr_get_port a in
    let at_q = set_port-SameHost q q port known in
    let port_q = get-set_port q q port known h in
    let at_p = set_port-SameHost p a port (SameHost-sym s) in
    rw
      (
        public_to_private-at ms p q a at s,
        private_to_public-at ms p q (addr_set_port q port) at at_q,
        port_q,
      )
      ((at_q, refl), (at_p, get-set_port p a port (SameHost-sym s) h))
