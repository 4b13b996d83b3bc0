-- ===== src/Server/Permissions.antt =====
-- What update_permission does to a well-formed allocation.
use p2p_cluster.Common.{ℕ, ◌≡◌, refl, ap, ◌∙◌, true, Option, Option-cases, none, some, inl, inr}
use p2p_cluster.Ioaddr.{IoaAddr, addr_eq_no_port, addr_get_port}
use p2p_cluster.LocalMap.Laws.{get_zero}
use p2p_cluster.Allocation.{
  Allocation, allocation_get_permission, get_turn_channel, valid_channel, or_add,
}
use p2p_cluster.Allocation.Invariant.{IsAllocation}
use p2p_cluster.Allocation.Permissions.{Permitted, permitted, allocation_add_permission_lem}
use p2p_cluster.Allocation.Laws.{allocation_get_permission_lem}
use p2p_cluster.Server.{
  TurnServer, update_turn_permission_lifetime, refresh_channel, renew_permission, update_permission,
}
use p2p_cluster.Server.Lifetimes.{
  Renewed, renewed, not_renewed, same-IsAllocation, permission_lifetime-Renewed,
}

-- The permissions of one allocation are those of another, or more, and its channels are the same.
pub record Extends (a a' : Allocation) : Type 0 where
  pub valid : IsAllocation a'
  pub chns : a'.chns ≡ a.chns
  pub kept :
      (addr : IoaAddr) (q : ℕ)
      → allocation_get_permission a addr ≡ some q
      → allocation_get_permission a' addr ≡ some q

pub Extends-refl : {a : Allocation} → IsAllocation a → Extends a a
Extends-refl valid = record { valid = valid; chns = refl; kept = λ addr q e. e }

pub Extends-trans : {a b c : Allocation} → Extends a b → Extends b c → Extends a c
Extends-trans s t = record {
  valid = t.valid;
  chns = t.chns ∙ s.chns;
  kept = λ addr q e. t.kept addr q (s.kept addr q e);
}

-- A permission that is there keeps its address and stays in use.
pub Extends-by :
    {a a' : Allocation}
    → IsAllocation a
    → IsAllocation a'
    → a'.chns ≡ a.chns
    → ((q : ℕ)
        → (a.addr_to_perm.cell q).allocated ≡ true
        → ((a'.addr_to_perm.cell q).allocated ≡ true)
          × ((a'.addr_to_perm.cell q).addr ≡ (a.addr_to_perm.cell q).addr))
    → Extends a a'
Extends-by {a} {a'} valid valid' same stays = record {
  valid = valid';
  chns = same;
  kept = λ addr q e.
      let hit = (allocation_get_permission_lem a addr q valid).0 e in
      let s = stays q hit.0 in
      (allocation_get_permission_lem a' addr q valid').1
        (s.0, ap (λ x. addr_eq_no_port x addr) s.1 ∙ hit.1);
}

-- A permission for the address is there.
abbrev pub HasPermission : Allocation → IoaAddr → Type 0
HasPermission a addr = (q : ℕ) × (allocation_get_permission a addr ≡ some q)

-- The pair of a permission and the allocation that has it
pub data Ready (a : Allocation) (addr : IoaAddr) : ℕ × Allocation → Type 0 where
  ready :
      {q : ℕ} {a' : Allocation}
      → Extends a a'
      → (a'.addr_to_perm.cell q).owner ≡ true
      → ((addr_eq_no_port addr addr ≡ true) → allocation_get_permission a' addr ≡ some q)
      → Ready a addr (q, a')

pub added :
    {a : Allocation} (addr : IoaAddr) {p : ℕ × Allocation}
    → IsAllocation a
    → Permitted a addr p
    → Ready a addr p
added {a} addr valid (permitted {q} {a'} valid' used host kept none_yet same) =
    ready
      (Extends-by valid valid' same
        (λ p y. (ap (λ x. x.allocated) (kept p y) ∙ y, ap (λ x. x.addr) (kept p y))))
      (valid'.perm_owners q used)
      (λ known.
        (allocation_get_permission_lem a' addr q valid').1
          (used, ap (λ x. addr_eq_no_port x addr) host ∙ known))

pub find_or_add :
    (a : Allocation) (addr : IoaAddr)
    → IsAllocation a
    → Ready a addr (or_add a addr (allocation_get_permission a addr))
unfolding or_add allocation_get_permission
find_or_add a addr valid = elim (Option-cases (allocation_get_permission a addr)) [
  | inr (q, e) ↦ rw e (
      ready (Extends-refl valid)
        (valid.perm_owners q ((allocation_get_permission_lem a addr q valid).0 e).0) (λ known. e))
  | inl e ↦ rw e (added addr valid (allocation_add_permission_lem a addr valid e))
]

-- The port 0 is the key of no channel.
pub no_turn_channel :
    (a : Allocation) (q : ℕ) (addr : IoaAddr)
    → addr_get_port addr ≡ 0
    → get_turn_channel a q addr ≡ none
unfolding get_turn_channel valid_channel
no_turn_channel a q addr e = rw (e, get_zero (a.addr_to_perm.cell q).chns) refl

-- The code that update_permission gives: 0, or 500 where the session has no server
pub data Ending (server : Option TurnServer) : ℕ → Type 0 where
  well : Ending server 0
  failing : server ≡ none → Ending server 500

-- The address has its permission, whatever the code is.
pub data Updated (server : Option TurnServer) (a : Allocation) (addr : IoaAddr)
    : ℕ × Allocation → Type 0 where
  updated :
      {err : ℕ} {a' : Allocation}
      → Ending server err
      → Extends a a'
      → (addr_eq_no_port addr addr ≡ true → HasPermission a' addr)
      → Updated server a addr (err, a')

renew_permission-Updated :
    {server : Option TurnServer} {a a1 : Allocation} (addr : IoaAddr) (q : ℕ)
    {o : Option Allocation}
    → addr_get_port addr ≡ 0
    → Extends a a1
    → ((addr_eq_no_port addr addr ≡ true) → allocation_get_permission a1 addr ≡ some q)
    → Renewed server a1 o
    → Updated server a addr (renew_permission server a1 q addr o)
unfolding renew_permission refresh_channel
renew_permission-Updated addr q zero_port e has (not_renewed none_there) =
    updated (failing none_there) e (λ known. (q, has known))
renew_permission-Updated addr q zero_port e has (renewed {a' = a2} same chns) =
    let longer =
      Extends-by e.valid (same-IsAllocation same e.valid) chns
        (λ p y. let s = same.perms p in (s.used ∙ y, s.addr)) in
    rw (no_turn_channel a2 q addr zero_port)
      (updated well (Extends-trans e longer) (λ known. (q, longer.kept addr q (has known))))

ready-Updated :
    (server : Option TurnServer) {a : Allocation} (addr : IoaAddr) {p : ℕ × Allocation}
    → addr_get_port addr ≡ 0
    → Ready a addr p
    → Updated server a addr
        (renew_permission server p.1 p.0 addr (update_turn_permission_lifetime server p.1 p.0 0))
ready-Updated server addr zero_port (ready {q} {a'} e owner has) =
    renew_permission-Updated addr q zero_port e has
      (permission_lifetime-Renewed server a' q 0 owner)

pub update_permission-Updated :
    (server : Option TurnServer) (a : Allocation) (addr : IoaAddr)
    → IsAllocation a
    → addr_get_port addr ≡ 0
    → Updated server a addr (update_permission server a addr)
unfolding update_permission
update_permission-Updated server a addr valid zero_port =
    ready-Updated server addr zero_port (find_or_add a addr valid)
