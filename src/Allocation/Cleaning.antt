-- ===== src/Allocation/Cleaning.antt =====
-- turn_permission_clean keeps the invariant.
use mathlib.Core.Path.{ap₂}
use p2p_cluster.Common.{
  ℕ, suc, ◌≡◌, ◌≢◌, refl, sym, ap, subst, ◌∙◌, true, false, some, List, ◌⊎◌, inl, inr, arith,
}
use p2p_cluster.Common.Memory.{update}
use p2p_cluster.Ioaddr.{addr_eq_no_port}
use p2p_cluster.LocalMap.{Slot, lm_map_hash_size, lm_map_get, lm_map_foreach, used_in, visit}
use p2p_cluster.LocalMap.Visits.{used_in-found, found-used_in, used_in-Somewhere}
use p2p_cluster.Allocation.{
  ChInfo, Permission, Allocation, zero_ch_info, zero_permission, turn_permission_clean,
}
use p2p_cluster.Allocation.Tables.{Homed-from}
use p2p_cluster.Allocation.Invariant.{
  perm_home, perm_used, chn_home, chn_used, Owned, owned, Back, back, IsLocal, IsAllocation,
}
use p2p_cluster.Allocation.Permissions.{both_ways, cell_cases}
use p2p_cluster.Allocation.Sweep.{Points, call, sweep, swept, points}

-- A well-formed allocation after a permission is cleared: its channels are free, and the other
-- permissions and channels are as they were.
pub data Revoked (a : Allocation) (q : ℕ) (a' : Allocation) : Type 0 where
  revoked :
      IsAllocation a'
      → (a'.addr_to_perm.cell q).allocated ≡ false
      → ((r : ℕ)
          → (a.chns.cell r).owner ≡ some q
          → (a.chns.cell r).allocated ≡ true
          → (a'.chns.cell r).allocated ≡ false)
      → ((r : ℕ)
          → (a.chns.cell r).owner ≢ some q
          → (a.chns.cell r).allocated ≡ true
          → a'.chns.cell r ≡ a.chns.cell r)
      → ((p : ℕ) → p ≢ q → a'.addr_to_perm.cell p ≡ a.addr_to_perm.cell p)
      → Revoked a q a'

module _ {a : Allocation} (valid : IsAllocation a) (q : ℕ)
    (used : (a.addr_to_perm.cell q).allocated ≡ true) where
  abbrev entries : List Slot
  entries = used_in lm_map_hash_size (a.addr_to_perm.cell q).chns

  abbrev cells : ℕ → ChInfo
  cells = (visit call entries a.chns.cell).1

  abbrev perms : ℕ → Permission
  perms = update a.addr_to_perm.cell q zero_permission

  -- The entries point to the channels of the permission, and to no others.
  pointed :
      (i : ℕ)
      → Points entries i
      → ((a.chns.cell i).allocated ≡ true) × ((a.chns.cell i).owner ≡ some q)
  pointed i (points {s} p v) =
      let local = valid.locals q used in
      let found =
        used_in-found (a.addr_to_perm.cell q).chns local.valid local.placed
          (used_in-Somewhere lm_map_hash_size (a.addr_to_perm.cell q).chns p) in
      elim (valid.backs q used s.key s.value found) [
        | back {r} w u o port ↦
            let z : r ≡ i = omega (arith, v, w) in
            (
              ap (λ j. (a.chns.cell j).allocated) (sym z) ∙ u,
              ap (λ j. (a.chns.cell j).owner) (sym z) ∙ o,
            )
      ]

  own_cleared :
      (i : ℕ)
      → (a.chns.cell i).owner ≡ some q
      → (a.chns.cell i).allocated ≡ true
      → cells i ≡ zero_ch_info
  own_cleared i e y = elim (valid.owners i y) [
    | owned {q = q'} o u host found port num ↦
        let z : q' ≡ q = let g : some q' ≡ some q = sym o ∙ e in cc in
        let local = valid.locals q used in
        swept entries a.chns.cell i (
          points
            (found-used_in (a.addr_to_perm.cell q).chns (a.chns.cell i).port (suc i) local.valid (
              ap (λ p. lm_map_get (a.addr_to_perm.cell p).chns (a.chns.cell i).port) (sym z)
              ∙ found))
            refl)
  ]

  other_kept : (i : ℕ) → (a.chns.cell i).owner ≢ some q → cells i ≡ a.chns.cell i
  other_kept i ne = elim (sweep entries a.chns.cell i) [
    | inl e ↦ e
    | inr (e, p) ↦ absurd (ne (pointed i p).1)
  ]

  -- A channel still in use is as it was, and not of the permission.
  still_used :
      (i : ℕ)
      → (cells i).allocated ≡ true
      → (cells i ≡ a.chns.cell i) × ((a.chns.cell i).owner ≢ some q)
  still_used i y = elim (sweep entries a.chns.cell i) [
    | inl e ↦ (e, λ o. both_ways y (ap chn_used (own_cleared i o (ap chn_used (sym e) ∙ y))))
    | inr (e, p) ↦ both_ways y (ap chn_used e)
  ]

  perm_cases :
      (p : ℕ)
      → ((p ≡ q) × (perms p ≡ zero_permission)) ⊎ ((p ≢ q) × (perms p ≡ a.addr_to_perm.cell p))
  perm_cases = cell_cases a.addr_to_perm.cell a.addr_to_perm.cell q zero_permission (λ i ne. refl)

  other_perm : (p : ℕ) → p ≢ q → perms p ≡ a.addr_to_perm.cell p
  other_perm p ne = elim (perm_cases p) [ inl (z, n) ↦ absurd (ne z) | inr (z, n) ↦ n ]

  used_perm : (p : ℕ) → (perms p).allocated ≡ true → (p ≢ q) × (perms p ≡ a.addr_to_perm.cell p)
  used_perm p y = elim (perm_cases p) [
    | inl (z, n) ↦ both_ways y (ap perm_used n)
    | inr both ↦ both
  ]

  once :
      (p p' : ℕ)
      → (perms p).allocated ≡ true
      → (perms p').allocated ≡ true
      → addr_eq_no_port (perms p).addr (perms p').addr ≡ true
      → p ≡ p'
  once p p' y y' e =
      let k = (used_perm p y).1 in
      let k' = (used_perm p' y').1 in
      valid.one_per_host p p' (ap perm_used (sym k) ∙ y) (ap perm_used (sym k') ∙ y')
        (ap₂ (λ x x'. addr_eq_no_port x.addr x'.addr) (sym k) (sym k') ∙ e)

  once_number :
      (i j : ℕ)
      → (cells i).allocated ≡ true
      → (cells j).allocated ≡ true
      → (cells i).chnum ≡ (cells j).chnum
      → i ≡ j
  once_number i j y y' e =
      let n = (still_used i y).0 in
      let n' = (still_used j y').0 in
      valid.one_per_number i j (ap chn_used (sym n) ∙ y) (ap chn_used (sym n') ∙ y')
        (ap (λ c. c.chnum) (sym n) ∙ e ∙ ap (λ c. c.chnum) n')

  locals : (p : ℕ) → (perms p).allocated ≡ true → IsLocal (perms p).chns
  locals p y =
      let k = (used_perm p y).1 in
      subst (λ x. IsLocal x.chns) (sym k) (valid.locals p (ap perm_used (sym k) ∙ y))

  owners : (i : ℕ) → (cells i).allocated ≡ true → Owned perms (cells i) i
  owners i y =
      let n = still_used i y in
      elim (valid.owners i (ap chn_used (sym n.0) ∙ y)) [
        | owned {q = p} o u host found port num ↦
            let k = sym (other_perm p (λ z. n.1 (o ∙ ap some z))) in
            subst (λ c. Owned perms c i) (sym n.0)
              (owned o (ap perm_used (sym k) ∙ u)
                (ap (λ x. addr_eq_no_port x.addr (a.chns.cell i).peer_addr) (sym k) ∙ host)
                (ap (λ x. lm_map_get x.chns (a.chns.cell i).port) (sym k) ∙ found) port num)
      ]

  backs :
      (p : ℕ)
      → (perms p).allocated ≡ true
      → (port value : ℕ) → lm_map_get (perms p).chns port ≡ some value
      → Back cells p port value
  backs p y port value found =
      let k = used_perm p y in
      elim (valid.backs p (ap perm_used (sym k.1) ∙ y) port value
        (ap (λ x. lm_map_get x.chns port) (sym k.1) ∙ found)) [
          | back {r} v u o e ↦
              let n = other_kept r (λ o'. k.0 (let g : some p ≡ some q = sym o ∙ o' in cc)) in
              back v (ap chn_used n ∙ u) (ap (λ c. c.owner) n ∙ o) (ap (λ c. c.port) n ∙ e)
        ]

  clean : Revoked a q (record {
    addr_to_perm = record a.addr_to_perm { cell = perms };
    chns = record a.chns { cell = cells };
  })
  clean =
      revoked
        (record {
          perms_home =
              Homed-from perm_used perm_home a.addr_to_perm (record a.addr_to_perm { cell = perms })
                valid.perms_home (λ i. omega arith)
                (λ p y. let k = (used_perm p y).1 in (ap perm_used (sym k) ∙ y, ap perm_home k));
          chns_home =
              Homed-from chn_used chn_home a.chns (record a.chns { cell = cells }) valid.chns_home
                (λ i. omega arith)
                (λ i y. let n = (still_used i y).0 in (ap chn_used (sym n) ∙ y, ap chn_home n));
          one_per_host = once;
          one_per_number = once_number;
          locals = locals;
          owners = owners;
          backs = backs;
          perm_owners = λ p y.
              let k = (used_perm p y).1 in
              ap (λ x. x.owner) k ∙ valid.perm_owners p (ap perm_used (sym k) ∙ y);
        })
        at_q (λ r o y. ap chn_used (own_cleared r o y)) (λ r ne y. other_kept r ne) other_perm
    where
      at_q : (perms q).allocated ≡ false
      at_q = elim (perm_cases q) [ inl (z, n) ↦ ap perm_used n | inr (z, n) ↦ absurd (z refl) ]

-- In a well-formed allocation, `turn_permission_clean` of a permission in use frees its slot and
-- every channel of it, leaves the other permissions and channels as they are, and keeps the
-- allocation well-formed.
pub turn_permission_clean_lem :
    (a : Allocation) (q : ℕ)
    → IsAllocation a
    → (a.addr_to_perm.cell q).allocated ≡ true
    → Revoked a q (turn_permission_clean a q)
unfolding turn_permission_clean lm_map_foreach
turn_permission_clean_lem a q valid used = rw used (clean valid q used)
