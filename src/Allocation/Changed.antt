-- ===== src/Allocation/Changed.antt =====
-- The permissions of an allocation when the channel map of one of them changes.
use mathlib.Core.Path.{ap₂}
use p2p_cluster.Common.{ℕ, ◌≡◌, ◌≢◌, refl, sym, ap, subst, ◌∙◌, true, Option, ◌⊎◌, inl, inr, arith}
use p2p_cluster.Common.Memory.{update}
use p2p_cluster.Ioaddr.{addr_eq_no_port}
use p2p_cluster.LocalMap.{LmMap, lm_map_get}
use p2p_cluster.Allocation.{Permission, Allocation, perm_index}
use p2p_cluster.Allocation.Tables.{Homed, Homed-from}
use p2p_cluster.Allocation.Invariant.{perm_home, perm_used, IsLocal, IsAllocation}
use p2p_cluster.Allocation.Permissions.{cell_cases}

-- The permissions after the map of one of them is changed
module _ (a : Allocation) (tinfo : ℕ) (map : LmMap) where
  abbrev pub changed_perm : Permission
  changed_perm = record (a.addr_to_perm.cell tinfo) { chns = map }

  abbrev pub changed_perms : ℕ → Permission
  changed_perms = update a.addr_to_perm.cell tinfo changed_perm

  pub perm_cases :
      (q : ℕ)
      → ((q ≡ tinfo) × (changed_perms q ≡ changed_perm))
        ⊎ ((q ≢ tinfo) × (changed_perms q ≡ a.addr_to_perm.cell q))
  perm_cases = cell_cases a.addr_to_perm.cell a.addr_to_perm.cell tinfo changed_perm (λ r ne. refl)

  pub same_used : (q : ℕ) → (changed_perms q).allocated ≡ (a.addr_to_perm.cell q).allocated
  same_used q = elim (perm_cases q) [
    | inl (z, n) ↦ ap (λ p. p.allocated) n ∙ ap (λ i. (a.addr_to_perm.cell i).allocated) (sym z)
    | inr (z, n) ↦ ap (λ p. p.allocated) n
  ]

  pub same_host : (q : ℕ) → (changed_perms q).addr ≡ (a.addr_to_perm.cell q).addr
  same_host q = elim (perm_cases q) [
    | inl (z, n) ↦ ap (λ p. p.addr) n ∙ ap (λ i. (a.addr_to_perm.cell i).addr) (sym z)
    | inr (z, n) ↦ ap (λ p. p.addr) n
  ]

  pub changed_owner :
      IsAllocation a → (q : ℕ) → (changed_perms q).allocated ≡ true → (changed_perms q).owner ≡ true
  changed_owner valid q y = elim (perm_cases q) [
    | inl (z, n) ↦
        ap (λ p. p.owner) n
        ∙ ap (λ i. (a.addr_to_perm.cell i).owner) (sym z)
        ∙ valid.perm_owners q (sym (same_used q) ∙ y)
    | inr (z, n) ↦ ap (λ p. p.owner) n ∙ valid.perm_owners q (sym (same_used q) ∙ y)
  ]

  pub changed-Homed :
      Homed perm_used perm_home a.addr_to_perm
      → Homed perm_used perm_home (record a.addr_to_perm { cell = changed_perms })
  changed-Homed homed =
      Homed-from perm_used perm_home a.addr_to_perm (record a.addr_to_perm { cell = changed_perms })
        homed (λ i. omega arith) (λ q y. (sym (same_used q) ∙ y, ap perm_index (same_host q)))

  pub changed-once :
      IsAllocation a
      → (q q' : ℕ) → (changed_perms q).allocated ≡ true
      → (changed_perms q').allocated ≡ true
      → addr_eq_no_port (changed_perms q).addr (changed_perms q').addr ≡ true
      → q ≡ q'
  changed-once valid q q' y y' e =
      valid.one_per_host q q' (sym (same_used q) ∙ y) (sym (same_used q') ∙ y')
        (ap₂ addr_eq_no_port (sym (same_host q)) (sym (same_host q')) ∙ e)

  pub changed-IsLocal :
      IsAllocation a
      → IsLocal map
      → (q : ℕ) → (changed_perms q).allocated ≡ true
      → IsLocal (changed_perms q).chns
  changed-IsLocal valid local q y = elim (perm_cases q) [
    | inl (z, n) ↦ subst (λ p. IsLocal p.chns) (sym n) local
    | inr (z, n) ↦ subst (λ p. IsLocal p.chns) (sym n) (valid.locals q (sym (same_used q) ∙ y))
  ]

  -- What a permission finds after the change, where the change keeps what it found for the key
  pub changed-get :
      (q port : ℕ) {found : Option ℕ}
      → (q ≡ tinfo → lm_map_get map port ≡ lm_map_get (a.addr_to_perm.cell tinfo).chns port)
      → lm_map_get (a.addr_to_perm.cell q).chns port ≡ found
      → lm_map_get (changed_perms q).chns port ≡ found
  changed-get q port h e = elim (perm_cases q) [
    | inl (z, n) ↦
        ap (λ p. lm_map_get p.chns port) n
        ∙ h z
        ∙ ap (λ i. lm_map_get (a.addr_to_perm.cell i).chns port) (sym z)
        ∙ e
    | inr (z, n) ↦ ap (λ p. lm_map_get p.chns port) n ∙ e
  ]

  pub at_changed : changed_perms tinfo ≡ changed_perm
  at_changed = elim (perm_cases tinfo) [ inl (z, n) ↦ n | inr (z, n) ↦ absurd (z refl) ]

  -- A lookup after the change is one in the new map or one in a permission that is as it was.
  pub changed-found :
      (q port : ℕ) {found : Option ℕ}
      → lm_map_get (changed_perms q).chns port ≡ found
      → ((q ≡ tinfo) × (lm_map_get map port ≡ found))
        ⊎ ((q ≢ tinfo) × (lm_map_get (a.addr_to_perm.cell q).chns port ≡ found))
  changed-found q port e = elim (perm_cases q) [
    | inl (z, n) ↦ inl (z, ap (λ p. lm_map_get p.chns port) (sym n) ∙ e)
    | inr (z, n) ↦ inr (z, ap (λ p. lm_map_get p.chns port) (sym n) ∙ e)
  ]
