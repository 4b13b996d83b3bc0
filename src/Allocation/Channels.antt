-- ===== src/Allocation/Channels.antt =====
-- allocation_get_new_ch_info keeps the invariant.
use mathlib.Core.Path.{ap₂}
use p2p_cluster.Common.{
  ℕ, suc, ◌%◌, ◌≡◌, ◌≢◌, refl, sym, ap, subst, ◌∙◌, true, false, Bool-cases, ◌==◌, Option, none,
  some, ◌⊎◌, inl, inr, arith,
}
use p2p_cluster.Common.Memory.{update}
use p2p_cluster.Ioaddr.{IoaAddr, addr_eq_no_port, addr_get_port}
use p2p_cluster.LocalMap.{LmMap, lm_map_get}
use p2p_cluster.LocalMap.Laws.{Stored, stored, lm_map_put_lem}
use p2p_cluster.LocalMap.Placement.{Keeps, from_Keeps, lm_map_put-Keeps}
use p2p_cluster.Stun.Types.{stun_valid_channel}
use p2p_cluster.Allocation.{
  ChInfo, Permission, Allocation, SlotTable, zero_ch_info, hash_size, set_chns, bind_to,
  ch_map_get_new,
}
use p2p_cluster.Allocation.Tables.{Claimed, claimed, claim_slot-Claimed, Homed-Claimed}
use p2p_cluster.Allocation.Invariant.{chn_home, chn_used, Owned, owned, Back, back, IsAllocation}
use p2p_cluster.Allocation.Changed.{
  changed_perms, same_used, same_host, changed-Homed, changed-once, changed-IsLocal, changed-get,
  at_changed, changed-found, changed_owner,
}
use p2p_cluster.Allocation.Permissions.{both_ways, cell_cases}

-- The channel as allocation_get_new_ch_info fills its slot in
abbrev pub filled : ChInfo → ℕ → IoaAddr → ℕ → ChInfo
filled slot chnum peer_addr tinfo = record slot {
  allocated = true;
  chnum = chnum;
  port = addr_get_port peer_addr;
  peer_addr = peer_addr;
  owner = some tinfo;
}

abbrev pub with_channel :
    Allocation → ℕ → ℕ → IoaAddr → ℕ × SlotTable ChInfo → Option LmMap → Allocation
with_channel a tinfo chnum peer_addr c chns = record {
  addr_to_perm = set_chns a.addr_to_perm tinfo chns;
  chns = record c.1 { cell = update c.1.cell c.0 (filled (c.1.cell c.0) chnum peer_addr tinfo) };
}

-- A well-formed allocation after a channel is bound to the cell: it has the number and the peer,
-- and the other channels are as they were.
pub data Bound (chns : SlotTable ChInfo) (chnum : ℕ) (peer_addr : IoaAddr) (r : ℕ) (a' : Allocation)
    : Type 0 where
  bound :
      IsAllocation a'
      → (chns.cell r).allocated ≡ false
      → (a'.chns.cell r).allocated ≡ true
      → (a'.chns.cell r).chnum ≡ chnum
      → (a'.chns.cell r).peer_addr ≡ peer_addr
      → ((i : ℕ) → i ≢ r → a'.chns.cell i ≡ chns.cell i)
      → Bound chns chnum peer_addr r a'

module _ {a : Allocation} (valid : IsAllocation a) (tinfo chnum : ℕ) (peer_addr : IoaAddr)
    (used : (a.addr_to_perm.cell tinfo).allocated ≡ true)
    (host : addr_eq_no_port (a.addr_to_perm.cell tinfo).addr peer_addr ≡ true)
    (unbound : lm_map_get (a.addr_to_perm.cell tinfo).chns (addr_get_port peer_addr) ≡ none)
    (number : stun_valid_channel chnum ≡ true)
    (unused : (r : ℕ) → (a.chns.cell r).allocated ≡ true → (a.chns.cell r).chnum ≢ chnum) where
  kept :
      {ref : ℕ} {cells : ℕ → ChInfo} (info : ChInfo)
      → (a.chns.cell ref).allocated ≡ false
      → ((i : ℕ) → ((i ≡ ref) × (cells i ≡ info)) ⊎ ((i ≢ ref) × (cells i ≡ a.chns.cell i)))
      → (r : ℕ) → (a.chns.cell r).allocated ≡ true
      → cells r ≡ a.chns.cell r
  kept info free cases r y = elim (cases r) [
    | inl (z, n) ↦ both_ways (ap (λ i. (a.chns.cell i).allocated) (sym z) ∙ y) free
    | inr (z, n) ↦ n
  ]

  bind :
      {c : ℕ × SlotTable ChInfo} {o : Option LmMap}
      → Claimed chn_used a.chns (chnum % hash_size) c
      → Stored (addr_get_port peer_addr) (suc c.0) (a.addr_to_perm.cell tinfo).chns o
      → Keeps o
      → Bound a.chns chnum peer_addr c.0 (with_channel a tinfo chnum peer_addr c o)
  unfolding set_chns
  bind (claimed {ref} {t'} free array within grows others) (stored {map'} wf self apart) k =
      bound
        (record {
          perms_home = changed-Homed a tinfo map' valid.perms_home;
          chns_home =
              Homed-Claimed chn_used chn_home a.chns (chnum % hash_size) info {c = (ref, t')}
                valid.chns_home (claimed free array within grows others) refl;
          one_per_host = changed-once a tinfo map' valid;
          one_per_number = once;
          locals =
              changed-IsLocal a tinfo map' valid (record { valid = wf; placed = from_Keeps k });
          owners = owners;
          backs = backs;
          perm_owners = changed_owner a tinfo map' valid;
        })
        free (ap chn_used at_ref) (ap (λ c. c.chnum) at_ref) (ap (λ c. c.peer_addr) at_ref)
        apart_ref
    where
      info : ChInfo
      info = filled (t'.cell ref) chnum peer_addr tinfo

      perms : ℕ → Permission
      perms = changed_perms a tinfo map'

      cells : ℕ → ChInfo
      cells = update t'.cell ref info

      cases : (i : ℕ) → ((i ≡ ref) × (cells i ≡ info)) ⊎ ((i ≢ ref) × (cells i ≡ a.chns.cell i))
      cases = cell_cases a.chns.cell t'.cell ref info others

      at_ref : cells ref ≡ info
      at_ref = elim (cases ref) [ inl (z, n) ↦ n | inr (z, n) ↦ absurd (z refl) ]

      apart_ref : (i : ℕ) → i ≢ ref → cells i ≡ a.chns.cell i
      apart_ref i ne = elim (cases i) [ inl (z, n) ↦ absurd (ne z) | inr (z, n) ↦ n ]

      once :
          (r r' : ℕ)
          → (cells r).allocated ≡ true
          → (cells r').allocated ≡ true
          → (cells r).chnum ≡ (cells r').chnum
          → r ≡ r'
      once r r' y y' e = elim (cases r) [
        | inl (z, n) ↦ elim (cases r') [
          | inl (z', n') ↦ z ∙ sym z'
          | inr (z', n') ↦ absurd (
              unused r' (ap chn_used (sym n') ∙ y')
                (ap (λ c. c.chnum) (sym n') ∙ sym e ∙ ap (λ c. c.chnum) n))
        ]
        | inr (z, n) ↦ elim (cases r') [
          | inl (z', n') ↦ absurd (
              unused r (ap chn_used (sym n) ∙ y)
                (ap (λ c. c.chnum) (sym n) ∙ e ∙ ap (λ c. c.chnum) n'))
          | inr (z', n') ↦
              valid.one_per_number r r' (ap chn_used (sym n) ∙ y) (ap chn_used (sym n') ∙ y')
                (ap (λ c. c.chnum) (sym n) ∙ e ∙ ap (λ c. c.chnum) n')
        ]
      ]

      stays :
          (q port value : ℕ)
          → lm_map_get (a.addr_to_perm.cell q).chns port ≡ some value
          → lm_map_get (perms q).chns port ≡ some value
      stays q port value found =
          changed-get a tinfo map' q port
            (λ z. apart port (λ w.
              taken
                (ap₂ (λ i n. lm_map_get (a.addr_to_perm.cell i).chns n) (sym z) (sym w) ∙ found)))
            found
        where
          taken :
              lm_map_get (a.addr_to_perm.cell tinfo).chns (addr_get_port peer_addr) ≡ some value → ⊥
          taken t = cc

      new_owned : Owned perms info ref
      new_owned =
          owned {q = tinfo} refl (same_used a tinfo map' tinfo ∙ used)
            (ap (λ x. addr_eq_no_port x peer_addr) (same_host a tinfo map' tinfo) ∙ host)
            (ap (λ p. lm_map_get p.chns (addr_get_port peer_addr)) (at_changed a tinfo map') ∙ self)
            refl number

      owners : (r : ℕ) → (cells r).allocated ≡ true → Owned perms (cells r) r
      owners r y = elim (cases r) [
        | inl (z, n) ↦
            subst (λ c. Owned perms c r) (sym n) (subst (λ i. Owned perms info i) (sym z) new_owned)
        | inr (z, n) ↦ elim (valid.owners r (ap chn_used (sym n) ∙ y)) [
          | owned {q} o u h found port num ↦
              subst (λ c. Owned perms c r) (sym n)
                (owned o (same_used a tinfo map' q ∙ u)
                  (ap (λ x. addr_eq_no_port x (a.chns.cell r).peer_addr) (same_host a tinfo map' q)
                    ∙ h)
                  (stays q _ _ found) port num)
        ]
      ]

      backs :
          (q : ℕ)
          → (perms q).allocated ≡ true
          → (port value : ℕ) → lm_map_get (perms q).chns port ≡ some value
          → Back cells q port value
      backs q y port value found = elim (changed-found a tinfo map' q port found) [
        | inl (z, e) ↦ elim (Bool-cases (port == addr_get_port peer_addr)) [
          | inl p ↦ new_back q port value z (ground arith) e
          | inr p ↦ moved (
              subst (λ i. Back a.chns.cell i port value) (sym z)
                (valid.backs tinfo used port value (sym (apart port (ground arith)) ∙ e)))
        ]
        | inr (z, e) ↦ moved (valid.backs q (sym (same_used a tinfo map' q) ∙ y) port value e)
      ]
        where
          moved : {q port value : ℕ} → Back a.chns.cell q port value → Back cells q port value
          moved (back {r} v u o p) =
              let k = sym (kept info free cases r u) in
              back v (ap chn_used (sym k) ∙ u) (ap (λ c. c.owner) (sym k) ∙ o)
                (ap (λ c. c.port) (sym k) ∙ p)

          new_back :
              (q port value : ℕ)
              → q ≡ tinfo
              → port ≡ addr_get_port peer_addr
              → lm_map_get map' port ≡ some value
              → Back cells q port value
          new_back q port value z p e =
              back {r = ref}
                (let g : some value ≡ some (suc ref) = sym e ∙ ap (lm_map_get map') p ∙ self in cc)
                (ap chn_used at_ref) (ap (λ c. c.owner) at_ref ∙ ap some (sym z))
                (ap (λ c. c.port) at_ref ∙ sym p)

-- In a well-formed allocation, where a permission has the host of the peer and no channel for its
-- port, and the number is a valid channel number that no channel in use has, and the port is not 0:
-- the channel is bound.
pub bind_to-Bound :
    (a : Allocation) (tinfo chnum : ℕ) (peer_addr : IoaAddr)
    → IsAllocation a
    → (a.addr_to_perm.cell tinfo).allocated ≡ true
    → addr_eq_no_port (a.addr_to_perm.cell tinfo).addr peer_addr ≡ true
    → lm_map_get (a.addr_to_perm.cell tinfo).chns (addr_get_port peer_addr) ≡ none
    → stun_valid_channel chnum ≡ true
    → ((r : ℕ) → (a.chns.cell r).allocated ≡ true → (a.chns.cell r).chnum ≢ chnum)
    → addr_get_port peer_addr ≢ 0
    → Bound a.chns chnum peer_addr (ch_map_get_new a.chns chnum).0 (bind_to a tinfo chnum peer_addr)
unfolding bind_to ch_map_get_new
bind_to-Bound a tinfo chnum peer_addr valid used host unbound number unused port =
    let local = valid.locals tinfo used in
    bind valid tinfo chnum peer_addr used host unbound number unused
      (claim_slot-Claimed chn_used chn_home a.chns zero_ch_info (chnum % hash_size) valid.chns_home
        (omega arith))
      (lm_map_put_lem (a.addr_to_perm.cell tinfo).chns (addr_get_port peer_addr) _ local.valid port
        (omega arith) unbound)
      (lm_map_put-Keeps (a.addr_to_perm.cell tinfo).chns (addr_get_port peer_addr) _ local.placed)
