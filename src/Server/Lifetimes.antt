-- ===== src/Server/Lifetimes.antt =====
-- Updates of expiration times keep the invariant.
use mathlib.Core.Path.{ap₂}
use p2p_cluster.Common.{
  ℕ, ◌+◌, ◌%◌, ◌^◌, ◌≤◌, ◌≡◌, refl, sym, ap, subst, ◌∙◌, Bool-cases, ◌==◌, Bool, true, false,
  if◌then◌else◌, Option, none, some, inl, inr, arith,
}
use p2p_cluster.Common.Memory.{update}
use p2p_cluster.Ioaddr.{addr_eq_no_port, addr_get_port}
use p2p_cluster.LocalMap.{lm_map_get}
use p2p_cluster.Stun.Types.{stun_valid_channel}
use p2p_cluster.Allocation.{ChInfo, Permission, Allocation, hash_size, perm_index}
use p2p_cluster.Allocation.Permissions.{both_ways}
use p2p_cluster.Allocation.Invariant.{
  perm_home, perm_used, chn_home, chn_used, Owned, owned, Back, back, IsLocal, IsAllocation,
}
use p2p_cluster.Allocation.Tables.{Homed-from}
use p2p_cluster.Server.{
  TurnServer, update_turn_permission_lifetime, chn_lifetime, owned_lifetime,
  update_channel_lifetime,
}

-- The same but for the expiration time
pub record SamePermission (x y : Permission) : Type 0 where
  pub used : x.allocated ≡ y.allocated
  pub chns : x.chns ≡ y.chns
  pub addr : x.addr ≡ y.addr
  pub owner : x.owner ≡ y.owner

pub record SameChannel (x y : ChInfo) : Type 0 where
  pub used : x.allocated ≡ y.allocated
  pub chnum : x.chnum ≡ y.chnum
  pub port : x.port ≡ y.port
  pub peer_addr : x.peer_addr ≡ y.peer_addr
  pub owner : x.owner ≡ y.owner

pub record SameAllocation (a' a : Allocation) : Type 0 where
  pub perms : (q : ℕ) → SamePermission (a'.addr_to_perm.cell q) (a.addr_to_perm.cell q)
  pub chns : (r : ℕ) → SameChannel (a'.chns.cell r) (a.chns.cell r)
  pub perms_size : (i : ℕ) → a.addr_to_perm.size i ≤ a'.addr_to_perm.size i
  pub chns_size : (i : ℕ) → a.chns.size i ≤ a'.chns.size i

module _ {a' a : Allocation} (same : SameAllocation a' a) (valid : IsAllocation a) where
  Owned-kept :
      (r : ℕ)
      → Owned a.addr_to_perm.cell (a.chns.cell r) r
      → Owned a'.addr_to_perm.cell (a'.chns.cell r) r
  Owned-kept r (owned {q} o perm host found port num) =
      let c = same.chns r in
      let p = same.perms q in
      owned {q = q} (c.owner ∙ o) (p.used ∙ perm) (ap₂ addr_eq_no_port p.addr c.peer_addr ∙ host)
        (ap₂ lm_map_get p.chns c.port ∙ found) (c.port ∙ port ∙ ap addr_get_port (sym c.peer_addr))
        (ap stun_valid_channel c.chnum ∙ num)

  Back-kept : {q port value : ℕ} → Back a.chns.cell q port value → Back a'.chns.cell q port value
  Back-kept (back {r} v u o p) =
      let c = same.chns r in back {r = r} v (c.used ∙ u) (c.owner ∙ o) (c.port ∙ p)

  pub same-IsAllocation : IsAllocation a'
  same-IsAllocation = record {
    perms_home =
        Homed-from perm_used perm_home a.addr_to_perm a'.addr_to_perm valid.perms_home
          same.perms_size (λ q y. (sym (same.perms q).used ∙ y, ap perm_index (same.perms q).addr));
    chns_home =
        Homed-from chn_used chn_home a.chns a'.chns valid.chns_home same.chns_size
          (λ r y. (sym (same.chns r).used ∙ y, ap (λ n. n % hash_size) (same.chns r).chnum));
    one_per_host = λ q q' y y' e.
        valid.one_per_host q q' (sym (same.perms q).used ∙ y) (sym (same.perms q').used ∙ y')
          (ap₂ addr_eq_no_port (sym (same.perms q).addr) (sym (same.perms q').addr) ∙ e);
    one_per_number = λ r r' y y' e.
        valid.one_per_number r r' (sym (same.chns r).used ∙ y) (sym (same.chns r').used ∙ y')
          (sym (same.chns r).chnum ∙ e ∙ (same.chns r').chnum);
    locals = λ q y.
        subst IsLocal (sym (same.perms q).chns) (valid.locals q (sym (same.perms q).used ∙ y));
    owners = λ r y. Owned-kept r (valid.owners r (sym (same.chns r).used ∙ y));
    backs = λ q y port value found. Back-kept (
        valid.backs q (sym (same.perms q).used ∙ y) port value
          (ap (λ m. lm_map_get m port) (sym (same.perms q).chns) ∙ found));
    perm_owners = λ q y. (same.perms q).owner ∙ valid.perm_owners q (sym (same.perms q).used ∙ y);
  }

same_permission : {x : Permission} → SamePermission x x
same_permission = record { used = refl; chns = refl; addr = refl; owner = refl }

same_channel : {x : ChInfo} → SameChannel x x
same_channel = record { used = refl; chnum = refl; port = refl; peer_addr = refl; owner = refl }

pub same_refl : {a : Allocation} → SameAllocation a a
same_refl = record {
  perms = λ q. same_permission;
  chns = λ r. same_channel;
  perms_size = λ i. omega arith;
  chns_size = λ i. omega arith;
}

same_trans : {a b c : Allocation} → SameAllocation a b → SameAllocation b c → SameAllocation a c
same_trans s t = record {
  perms = λ q.
      let p = s.perms q in
      let p' = t.perms q in
      record {
        used = p.used ∙ p'.used;
        chns = p.chns ∙ p'.chns;
        addr = p.addr ∙ p'.addr;
        owner = p.owner ∙ p'.owner;
      };
  chns = λ r.
      let c = s.chns r in
      let c' = t.chns r in
      record {
        used = c.used ∙ c'.used;
        chnum = c.chnum ∙ c'.chnum;
        port = c.port ∙ c'.port;
        peer_addr = c.peer_addr ∙ c'.peer_addr;
        owner = c.owner ∙ c'.owner;
      };
  perms_size = λ i. let h = s.perms_size i in let k = t.perms_size i in omega (arith, h, k);
  chns_size = λ i. let h = s.chns_size i in let k = t.chns_size i in omega (arith, h, k);
}

-- A cell is written with a value that is the same as it held.
written :
    {A : Type 0} (Same : A → A → Type 0) (cells : ℕ → A) (ref : ℕ) (x : A)
    → Same x (cells ref)
    → ((i : ℕ) → Same (cells i) (cells i))
    → (i : ℕ) → Same (update cells ref x i) (cells i)
written Same cells ref x new old i = elim (Bool-cases (ref == i)) [
  | inl e ↦ let z : ref ≡ i = ground arith in rw e (subst (λ j. Same x (cells j)) z new)
  | inr ne ↦ rw ne (old i)
]

-- An update of a permission's lifetime changes expiration times of permissions only; it fails only
-- where the session has no server.
pub data Renewed (server : Option TurnServer) (a : Allocation) : Option Allocation → Type 0 where
  not_renewed : server ≡ none → Renewed server a none
  renewed : {a' : Allocation} → SameAllocation a' a → a'.chns ≡ a.chns → Renewed server a (some a')

if-Renewed :
    {server : Option TurnServer} {a : Allocation} {o : Option Allocation} (b : Bool)
    → b ≡ true
    → Renewed server a o
    → Renewed server a (if b then o else none)
if-Renewed true e r = r
if-Renewed false e r = both_ways e refl

pub permission_lifetime-Renewed :
    (server : Option TurnServer) (a : Allocation) (q delta : ℕ)
    → (a.addr_to_perm.cell q).owner ≡ true
    → Renewed server a (update_turn_permission_lifetime server a q delta)
unfolding update_turn_permission_lifetime
permission_lifetime-Renewed none a q delta owner = not_renewed refl
permission_lifetime-Renewed (some server) a q delta owner =
    if-Renewed (a.addr_to_perm.cell q).owner owner (
      renewed
        (record {
          perms =
              written SamePermission a.addr_to_perm.cell q _
                (record { used = refl; chns = refl; addr = refl; owner = refl })
                (λ i. same_permission);
          chns = λ r. same_channel;
          perms_size = λ i. omega arith;
          chns_size = λ i. omega arith;
        })
        refl)

-- An update of a channel's lifetime changes expiration times only; it fails only where the session
-- has no server.
pub data Prolonged (server : Option TurnServer) (a : Allocation) : Option Allocation → Type 0 where
  not_prolonged : server ≡ none → Prolonged server a none
  prolonged : {a' : Allocation} → SameAllocation a' a → Prolonged server a (some a')

chn_lifetime-Prolonged :
    (server : TurnServer) {a : Allocation} (r : ℕ) {o : Option Allocation}
    → Renewed (some server) a o
    → Prolonged (some server) a (chn_lifetime server r o)
unfolding chn_lifetime
chn_lifetime-Prolonged server r (not_renewed e) = absurd (let f : ⊥ = cc in f)
chn_lifetime-Prolonged server r (renewed {a' = before} same chns) = prolonged (same_trans chn same)
  where
    info : ChInfo
    info = record (before.chns.cell r) {
      expiration_time = (server.ctime + server.channel_lifetime) % 2 ^ 32;
    }

    chn :
        SameAllocation
          (record before { chns = record before.chns { cell = update before.chns.cell r info } })
          before
    chn = record {
      perms = λ i. same_permission;
      chns =
          written SameChannel before.chns.cell r info
            (record { used = refl; chnum = refl; port = refl; peer_addr = refl; owner = refl })
            (λ i. same_channel);
      perms_size = λ i. omega arith;
      chns_size = λ i. omega arith;
    }

pub channel_lifetime-Prolonged :
    (server : Option TurnServer) (a : Allocation) (r : ℕ) {q : ℕ}
    → (a.chns.cell r).owner ≡ some q
    → (a.addr_to_perm.cell q).owner ≡ true
    → Prolonged server a (update_channel_lifetime server a r)
unfolding update_channel_lifetime owned_lifetime
channel_lifetime-Prolonged none a r e owner = not_prolonged refl
channel_lifetime-Prolonged (some server) a r {q} e owner =
    rw (e, owner)
      (chn_lifetime-Prolonged server r
        (permission_lifetime-Renewed (some server) a q server.channel_lifetime owner))
