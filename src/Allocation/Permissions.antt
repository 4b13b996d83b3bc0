-- ===== src/Allocation/Permissions.antt =====
-- allocation_add_permission keeps the invariant.
use mathlib.Core.Path.{ap₂}
use p2p_cluster.Common.{
  ℕ, suc, ◌≡◌, ◌≢◌, refl, sym, ap, subst, ◌∙◌, Bool, true, false, Bool-cases, ◌==◌, none, some, ◌⊎◌,
  inl, inr, arith,
}
use p2p_cluster.Common.Memory.{update}
use p2p_cluster.Ioaddr.{IoaAddr, addr_eq_no_port}
use p2p_cluster.LocalMap.{lm_map_init, lm_map_get}
use p2p_cluster.LocalMap.History.{init-get, init-IsMap}
use p2p_cluster.LocalMap.Placement.{init-ArePlaced}
use p2p_cluster.Allocation.{
  Permission, Allocation, SlotTable, zero_permission, perm_index,
  get_from_turn_permission_hashtable, allocation_add_permission,
}
use p2p_cluster.Allocation.Tables.{Claimed, claimed, claim_slot-Claimed, Homed-Claimed}
use p2p_cluster.Allocation.Invariant.{
  perm_home, perm_used, Owned, owned, Back, IsLocal, IsAllocation, host_sym, hashtable_none,
}

abbrev pub new_permission : IoaAddr → Permission
new_permission addr = record zero_permission { allocated = true; addr = addr; owner = true }

-- The allocation after a permission is written to a slot that was handed out
abbrev pub with_permission : Allocation → IoaAddr → ℕ × SlotTable Permission → ℕ × Allocation
with_permission a addr c = (
  c.0,
  record a { addr_to_perm = record c.1 { cell = update c.1.cell c.0 (new_permission addr) } },
)

-- A well-formed allocation after a permission is added: the permission is for the address and has
-- no channels, and the other permissions and the channels are as they were.
pub data Permitted (a : Allocation) (addr : IoaAddr) : ℕ × Allocation → Type 0 where
  permitted :
      {q : ℕ} {a' : Allocation}
      → IsAllocation a'
      → (a'.addr_to_perm.cell q).allocated ≡ true
      → (a'.addr_to_perm.cell q).addr ≡ addr
      → ((p : ℕ)
          → (a.addr_to_perm.cell p).allocated ≡ true
          → a'.addr_to_perm.cell p ≡ a.addr_to_perm.cell p)
      → ((port : ℕ) → lm_map_get (a'.addr_to_perm.cell q).chns port ≡ none)
      → a'.chns ≡ a.chns
      → Permitted a addr (q, a')

pub both_ways : {A : Type 0} {b : Bool} → b ≡ true → b ≡ false → A
both_ways y n = absurd (let f : ⊥ = cc in f)

-- How the cell of an index is changed by a write
pub cell_cases :
    {A : Type 0} (cells cells' : ℕ → A) (ref : ℕ) (x : A)
    → ((r : ℕ) → r ≢ ref → cells' r ≡ cells r)
    → (i : ℕ)
    → ((i ≡ ref) × (update cells' ref x i ≡ x)) ⊎ ((i ≢ ref) × (update cells' ref x i ≡ cells i))
cell_cases cells cells' ref x others i = elim (Bool-cases (ref == i)) [
  | inl e ↦ inl (ground arith, rw e refl)
  | inr ne ↦ inr (ground arith, rw ne (others i (ground arith)))
]

module _ {a : Allocation} (valid : IsAllocation a) (addr : IoaAddr)
    (unknown : (q : ℕ)
      → (a.addr_to_perm.cell q).allocated ≡ true
      → addr_eq_no_port (a.addr_to_perm.cell q).addr addr ≡ false) where
  host_clash :
      {A : Type 0} (q : ℕ)
      → (a.addr_to_perm.cell q).allocated ≡ true
      → addr_eq_no_port (a.addr_to_perm.cell q).addr addr ≡ true
      → A
  host_clash q used e = both_ways e (unknown q used)

  permit :
      {c : ℕ × SlotTable Permission}
      → Claimed perm_used a.addr_to_perm (perm_index addr) c
      → Permitted a addr (with_permission a addr c)
  permit (claimed {ref} {t'} free array within grows others) =
      permitted
        (record {
          perms_home =
              Homed-Claimed perm_used perm_home a.addr_to_perm (perm_index addr)
                (new_permission addr) {c = (ref, t')} valid.perms_home
                (claimed free array within grows others) refl;
          chns_home = valid.chns_home;
          one_per_host = once;
          one_per_number = valid.one_per_number;
          locals = locals;
          owners = owners;
          backs = backs;
          perm_owners = perm_owners;
        })
        (rw self refl) (rw self refl) kept (rw self init-get) refl
    where
      self : (ref == ref) ≡ true
      self = ground arith

      cells : ℕ → Permission
      cells = update t'.cell ref (new_permission addr)

      cases :
          (i : ℕ)
          → ((i ≡ ref) × (cells i ≡ new_permission addr))
            ⊎ ((i ≢ ref) × (cells i ≡ a.addr_to_perm.cell i))
      cases = cell_cases a.addr_to_perm.cell t'.cell ref (new_permission addr) others

      once :
          (q q' : ℕ)
          → (cells q).allocated ≡ true
          → (cells q').allocated ≡ true
          → addr_eq_no_port (cells q).addr (cells q').addr ≡ true
          → q ≡ q'
      once q q' y y' e = elim (cases q) [
        | inl (z, n) ↦ elim (cases q') [
          | inl (z', n') ↦ z ∙ sym z'
          | inr (z', n') ↦
              host_clash q' (ap perm_used (sym n') ∙ y')
                (host_sym _ _ (ap₂ (λ x x'. addr_eq_no_port x.addr x'.addr) (sym n) (sym n') ∙ e))
        ]
        | inr (z, n) ↦ elim (cases q') [
          | inl (z', n') ↦
              host_clash q (ap perm_used (sym n) ∙ y)
                (ap₂ (λ x x'. addr_eq_no_port x.addr x'.addr) (sym n) (sym n') ∙ e)
          | inr (z', n') ↦
              valid.one_per_host q q' (ap perm_used (sym n) ∙ y) (ap perm_used (sym n') ∙ y')
                (ap₂ (λ x x'. addr_eq_no_port x.addr x'.addr) (sym n) (sym n') ∙ e)
        ]
      ]

      locals : (q : ℕ) → (cells q).allocated ≡ true → IsLocal (cells q).chns
      locals q y = elim (cases q) [
        | inl (z, n) ↦
            subst (λ x. IsLocal x.chns) (sym n)
              (record { valid = init-IsMap; placed = init-ArePlaced })
        | inr (z, n) ↦
            subst (λ x. IsLocal x.chns) (sym n) (valid.locals q (ap perm_used (sym n) ∙ y))
      ]

      kept : (q : ℕ) → (a.addr_to_perm.cell q).allocated ≡ true → cells q ≡ a.addr_to_perm.cell q
      kept q y = elim (cases q) [
        | inl (z, n) ↦ both_ways (sym (ap (λ i. perm_used (a.addr_to_perm.cell i)) z) ∙ y) free
        | inr (z, n) ↦ n
      ]

      perm_owners : (q : ℕ) → (cells q).allocated ≡ true → (cells q).owner ≡ true
      perm_owners q y = elim (cases q) [
        | inl (z, n) ↦ ap (λ x. x.owner) n
        | inr (z, n) ↦ ap (λ x. x.owner) n ∙ valid.perm_owners q (ap perm_used (sym n) ∙ y)
      ]

      owners : (r : ℕ) → (a.chns.cell r).allocated ≡ true → Owned cells (a.chns.cell r) r
      owners r y = elim (valid.owners r y) [
        | owned {q} o used host found port number ↦
            let k = sym (kept q used) in
            owned o (ap perm_used (sym k) ∙ used)
              (subst (λ x. addr_eq_no_port x.addr (a.chns.cell r).peer_addr ≡ true) k host)
              (subst (λ x. lm_map_get x.chns (a.chns.cell r).port ≡ some (suc r)) k found) port
              number
      ]

      backs :
          (q : ℕ)
          → (cells q).allocated ≡ true
          → (port value : ℕ) → lm_map_get (cells q).chns port ≡ some value
          → Back a.chns.cell q port value
      backs q y port value found = elim (cases q) [
        | inl (z, n) ↦ absurd (
            let g : lm_map_get lm_map_init port ≡ some value =
              ap (λ x. lm_map_get x.chns port) (sym n) ∙ found in
            let no_one = init-get port in let f : ⊥ = cc in f)
        | inr (z, n) ↦
            valid.backs q (ap perm_used (sym n) ∙ y) port value
              (ap (λ x. lm_map_get x.chns port) (sym n) ∙ found)
      ]

-- In a well-formed allocation without a permission for the host of an address,
-- `allocation_add_permission` makes one, without channels, leaves the other permissions and the
-- channels as they are, and keeps the allocation well-formed.
pub allocation_add_permission_lem :
    (a : Allocation) (addr : IoaAddr)
    → IsAllocation a
    → get_from_turn_permission_hashtable a.addr_to_perm addr ≡ none
    → Permitted a addr (allocation_add_permission a addr)
unfolding allocation_add_permission
allocation_add_permission_lem a addr valid e = permit valid addr (hashtable_none valid addr e) (
    claim_slot-Claimed perm_used perm_home a.addr_to_perm zero_permission (perm_index addr)
      valid.perms_home (omega arith))
