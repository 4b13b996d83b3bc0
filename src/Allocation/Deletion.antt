-- ===== src/Allocation/Deletion.antt =====
-- turn_channel_delete keeps the invariant.
use mathlib.Core.Path.{ap₂}
use p2p_cluster.Common.{
  ℕ, suc, ◌≡◌, ◌≢◌, refl, sym, ap, subst, ◌∙◌, true, false, Bool-cases, ◌==◌, Option, none, some,
  ◌⊎◌, inl, inr, arith,
}
use p2p_cluster.Common.Memory.{update}
use p2p_cluster.Ioaddr.{addr_eq_no_port}
use p2p_cluster.LocalMap.{LmMap, lm_map_get, lm_map_del}
use p2p_cluster.LocalMap.Laws.{Deleted, deleted, lm_map_del_lem}
use p2p_cluster.LocalMap.Placement.{KeepsDel, from_KeepsDel, del_found-Keeps}
use p2p_cluster.Allocation.{
  ChInfo, Permission, Allocation, zero_ch_info, set_chns, without, owner_without, ch_info_clean,
  turn_channel_delete,
}
use p2p_cluster.Allocation.Tables.{Homed-from}
use p2p_cluster.Allocation.Invariant.{chn_home, chn_used, Owned, owned, Back, back, IsAllocation}
use p2p_cluster.Allocation.Permissions.{both_ways, cell_cases}
use p2p_cluster.Allocation.Changed.{
  changed_perms, same_used, same_host, changed-Homed, changed-once, changed-IsLocal, changed-get,
  changed-found, changed_owner,
}

-- A well-formed allocation after one channel is cleared: the others are as they were.
pub data Erased (a : Allocation) (r : ℕ) (a' : Allocation) : Type 0 where
  erased :
      IsAllocation a'
      → (a'.chns.cell r).allocated ≡ false
      → ((i : ℕ) → i ≢ r → a'.chns.cell i ≡ a.chns.cell i)
      → Erased a r a'

-- The channels after one of them is cleared
module _ (a : Allocation) (r : ℕ) where
  abbrev pub cleared : ℕ → ChInfo
  cleared = update a.chns.cell r zero_ch_info

  pub clear_cases :
      (i : ℕ) → ((i ≡ r) × (cleared i ≡ zero_ch_info)) ⊎ ((i ≢ r) × (cleared i ≡ a.chns.cell i))
  clear_cases = cell_cases a.chns.cell a.chns.cell r zero_ch_info (λ i ne. refl)

  -- A channel that is still in use is as it was.
  pub clear-used : (i : ℕ) → (cleared i).allocated ≡ true → (i ≢ r) × (cleared i ≡ a.chns.cell i)
  clear-used i y = elim (clear_cases i) [
    | inl (z, n) ↦ both_ways y (ap chn_used n)
    | inr both ↦ both
  ]

  pub clear-apart : (i : ℕ) → i ≢ r → cleared i ≡ a.chns.cell i
  clear-apart i ne = elim (clear_cases i) [ inl (z, n) ↦ absurd (ne z) | inr (z, n) ↦ n ]

module _ {a : Allocation} (valid : IsAllocation a) (q r : ℕ)
    (used : (a.chns.cell r).allocated ≡ true) (owner : (a.chns.cell r).owner ≡ some q)
    (perm : (a.addr_to_perm.cell q).allocated ≡ true)
    (held : lm_map_get (a.addr_to_perm.cell q).chns (a.chns.cell r).port ≡ some (suc r)) where
  erase :
      {o : Option (ℕ × LmMap)}
      → Deleted (a.chns.cell r).port (suc r) (a.addr_to_perm.cell q).chns o
      → KeepsDel o
      → Erased a r (record {
        addr_to_perm = without a.addr_to_perm q (a.chns.cell r).port o;
        chns = record a.chns { cell = cleared a r };
      })
  unfolding set_chns without
  erase (deleted {map'} wf gone apart) k =
      erased
        (record {
          perms_home = changed-Homed a q map' valid.perms_home;
          chns_home =
              Homed-from chn_used chn_home a.chns (record a.chns { cell = cleared a r })
                valid.chns_home (λ i. omega arith)
                (λ i y. let e = (clear-used a r i y).1 in (ap chn_used (sym e) ∙ y, ap chn_home e));
          one_per_host = changed-once a q map' valid;
          one_per_number = once;
          locals = changed-IsLocal a q map' valid (record { valid = wf; placed = from_KeepsDel k });
          owners = owners;
          backs = backs;
          perm_owners = changed_owner a q map' valid;
        })
        at_r (clear-apart a r)
    where
      at_r : (cleared a r r).allocated ≡ false
      at_r = elim (clear_cases a r r) [ inl (z, n) ↦ ap chn_used n | inr (z, n) ↦ absurd (z refl) ]

      once :
          (i j : ℕ)
          → (cleared a r i).allocated ≡ true
          → (cleared a r j).allocated ≡ true
          → (cleared a r i).chnum ≡ (cleared a r j).chnum
          → i ≡ j
      once i j y y' e =
          let n = (clear-used a r i y).1 in
          let n' = (clear-used a r j y').1 in
          valid.one_per_number i j (ap chn_used (sym n) ∙ y) (ap chn_used (sym n') ∙ y')
            (ap (λ c. c.chnum) (sym n) ∙ e ∙ ap (λ c. c.chnum) n')

      perms : ℕ → Permission
      perms = changed_perms a q map'

      -- Another channel of the permission has another port.
      stays :
          (q' i port : ℕ)
          → i ≢ r
          → lm_map_get (a.addr_to_perm.cell q').chns port ≡ some (suc i)
          → lm_map_get (perms q').chns port ≡ some (suc i)
      stays q' i port ne found =
          changed-get a q map' q' port (λ z. apart port (λ w. ne (same z w))) found
        where
          same : q' ≡ q → port ≡ (a.chns.cell r).port → i ≡ r
          same z w =
              let e : some (suc i) ≡ some (suc r) =
                sym found ∙ ap₂ (λ p n. lm_map_get (a.addr_to_perm.cell p).chns n) z w ∙ held in
              let s : suc i ≡ suc r = cc in omega (arith, s)

      owners : (i : ℕ) → (cleared a r i).allocated ≡ true → Owned perms (cleared a r i) i
      owners i y =
          let n = clear-used a r i y in
          elim (valid.owners i (ap chn_used (sym n.1) ∙ y)) [
            | owned {q = q'} o u h found port num ↦
                subst (λ c. Owned perms c i) (sym n.1)
                  (owned o (same_used a q map' q' ∙ u)
                    (ap (λ x. addr_eq_no_port x (a.chns.cell i).peer_addr) (same_host a q map' q')
                      ∙ h)
                    (stays q' i _ n.0 found) port num)
          ]

      backs :
          (q' : ℕ)
          → (perms q').allocated ≡ true
          → (port value : ℕ) → lm_map_get (perms q').chns port ≡ some value
          → Back (cleared a r) q' port value
      backs q' y port value found = elim (changed-found a q map' q' port found) [
        | inl (z, e) ↦ elim (Bool-cases (port == (a.chns.cell r).port)) [
          | inl p ↦ absurd (
              let w : port ≡ (a.chns.cell r).port = ground arith in
              let g : some value ≡ none = sym e ∙ ap (lm_map_get map') w ∙ gone in
              let f : ⊥ = cc in f)
          | inr p ↦
              moved (λ w o. ground arith)
                (subst (λ i. Back a.chns.cell i port value) (sym z)
                  (valid.backs q perm port value (sym (apart port (ground arith)) ∙ e)))
        ]
        | inr (z, e) ↦
            moved (λ w o. z (let g : some q' ≡ some q = sym o ∙ owner in cc))
              (valid.backs q' (sym (same_used a q map' q') ∙ y) port value e)
      ]
        where
          moved :
              {port value : ℕ}
              → ((a.chns.cell r).port ≡ port → (a.chns.cell r).owner ≡ some q' → ⊥)
              → Back a.chns.cell q' port value
              → Back (cleared a r) q' port value
          moved other (back {r = i} v u o p) =
              let ne : i ≢ r = λ z.
                other (ap (λ j. (a.chns.cell j).port) (sym z) ∙ p)
                  (ap (λ j. (a.chns.cell j).owner) (sym z) ∙ o) in
              let k = sym (clear-apart a r i ne) in
              back v (ap chn_used (sym k) ∙ u) (ap (λ c. c.owner) (sym k) ∙ o)
                (ap (λ c. c.port) (sym k) ∙ p)

-- In a well-formed allocation, `turn_channel_delete` of a channel in use frees its slot, leaves the
-- other channels as they are, and keeps the allocation well-formed.
pub turn_channel_delete_lem :
    (a : Allocation) (r : ℕ)
    → IsAllocation a
    → (a.chns.cell r).allocated ≡ true
    → Erased a r (turn_channel_delete a r)
unfolding turn_channel_delete owner_without ch_info_clean lm_map_del
turn_channel_delete_lem a r valid used = elim (valid.owners r used) [
  | owned {q} o perm host found port number ↦
      let local = valid.locals q perm in
      rw (o, sym port)
        (erase valid q r used o perm found
          (lm_map_del_lem (a.addr_to_perm.cell q).chns (a.chns.cell r).port (suc r) local.valid
            found)
          (del_found-Keeps (a.addr_to_perm.cell q).chns (a.chns.cell r).port _ local.placed))
]
