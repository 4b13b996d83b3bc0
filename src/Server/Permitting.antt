-- ===== src/Server/Permitting.antt =====
-- What a create permission request does to a well-formed allocation.
use p2p_cluster.Common.{
  ℕ, ◌≡◌, ◌≢◌, refl, sym, ap, ◌∙◌, true, false, Bool-cases, ltb, ◌==◌, ◌&&◌, ◌||◌, if◌then◌else◌,
  Option, List, [], ◌∷◌, inl, inr, arith,
}
use p2p_cluster.Ioaddr.{IoaAddr, af_inet, af_inet6, addr_eq_no_port, addr_get_port, addr_set_port}
use p2p_cluster.Allocation.{Allocation}
use p2p_cluster.Allocation.Invariant.{IsAllocation}
use p2p_cluster.Allocation.Laws.{allocation_get_permission_lem}
use p2p_cluster.Server.{
  TurnServer, Session, Attr, skipped, channel_number, xor_peer_address, other, PermissionRequest,
  no_permissions, get_relay_socket, good_peer_addr, permission_attr, permission_attrs, permit_attrs,
  permission_request, max_number_of_unknown_attrs,
}
use p2p_cluster.Server.Permissions.{
  Extends, Extends-refl, Extends-trans, HasPermission, Ending, well, failing, Updated,
  update_permission-Updated, updated,
}

-- The request has the address in a XOR-PEER-ADDRESS attribute.
pub data Carries (addr : IoaAddr) : List Attr → Type 0 where
  carried : {xs : List Attr} → Carries addr (xor_peer_address addr ∷ xs)
  later : {x : Attr} {xs : List Attr} → Carries addr xs → Carries addr (x ∷ xs)

set_port_zero : (addr : IoaAddr) → addr_get_port (addr_set_port addr 0) ≡ 0
unfolding addr_get_port addr_set_port
set_port_zero addr = ground arith

same_left : (a b : IoaAddr) → addr_eq_no_port a (addr_set_port b 0) ≡ addr_eq_no_port a b
unfolding addr_eq_no_port addr_set_port
same_left a b = elim (Bool-cases (b.family == af_inet || b.family == af_inet6)) [
  | inl e ↦ rw e refl
  | inr e ↦ rw e refl
]

same_right :
    (b : IoaAddr) → addr_eq_no_port (addr_set_port b 0) (addr_set_port b 0) ≡ addr_eq_no_port b b
unfolding addr_eq_no_port addr_set_port
same_right b = elim (Bool-cases (b.family == af_inet || b.family == af_inet6)) [
  | inl e ↦ rw e refl
  | inr e ↦ rw e refl
]

-- A permission does not depend on the port.
without_port :
    {a : Allocation} (addr : IoaAddr)
    → IsAllocation a
    → HasPermission a (addr_set_port addr 0)
    → HasPermission a addr
without_port {a} addr valid (q, e) =
    let hit = (allocation_get_permission_lem a (addr_set_port addr 0) q valid).0 e in
    (
      q,
      (allocation_get_permission_lem a addr q valid).1
          (hit.0, sym (same_left (a.addr_to_perm.cell q).addr addr) ∙ hit.1),
    )

-- The second loop ends without an error, or with the code 500 in a session without a server, and
-- every address has its permission.
pub data Granted (server : Option TurnServer) (attrs : List Attr) (a : Allocation)
    : ℕ × Allocation → Type 0 where
  granted :
      {err : ℕ} {a' : Allocation}
      → Ending server err
      → Extends a a'
      → ((addr : IoaAddr)
          → Carries addr attrs
          → addr_eq_no_port addr addr ≡ true
          → HasPermission a' addr)
      → Granted server attrs a (err, a')

more :
    {sv : Option TurnServer} {x : Attr} {xs : List Attr} {a : Allocation} {p : ℕ × Allocation}
    → ((addr : IoaAddr) → Carries addr (x ∷ xs) → Carries addr xs)
    → Granted sv xs a p
    → Granted sv (x ∷ xs) a p
more h (granted end e all) = granted end e (λ addr c known. all addr (h addr c) known)

first_of :
    {sv : Option TurnServer} {addr : IoaAddr} {xs : List Attr} {a a1 : Allocation}
    {p : ℕ × Allocation}
    → Extends a a1
    → (addr_eq_no_port (addr_set_port addr 0) (addr_set_port addr 0) ≡ true
        → HasPermission a1 (addr_set_port addr 0))
    → Granted sv xs a1 p
    → Granted sv (xor_peer_address addr ∷ xs) a p
first_of {addr} {xs} e has (granted {a'} end e' all) = granted end (Extends-trans e e') every
  where
    every :
        (b : IoaAddr)
        → Carries b (xor_peer_address addr ∷ xs)
        → addr_eq_no_port b b ≡ true
        → HasPermission a' b
    every b carried known =
        let there = without_port addr e.valid (has (same_right addr ∙ known)) in
        (there.0, e'.kept addr there.0 there.1)
    every b (later c) known = all b c known

permit_attrs-Granted :
    (sv : Option TurnServer) (xs : List Attr) {err : ℕ} (a : Allocation)
    → Ending sv err
    → IsAllocation a
    → Granted sv xs a (permit_attrs sv xs (err, a))
unfolding permit_attrs
permit_attrs-Granted sv [] a end valid =
    granted end (Extends-refl valid) (λ addr c known. elim c [ ])
permit_attrs-Granted sv (skipped ∷ xs) a end valid =
    more (λ addr c. tail c) (permit_attrs-Granted sv xs a end valid)
  where
    tail : {addr : IoaAddr} → Carries addr (skipped ∷ xs) → Carries addr xs
    tail (later c) = c
permit_attrs-Granted sv (channel_number n ∷ xs) a end valid =
    more (λ addr c. tail c) (permit_attrs-Granted sv xs a end valid)
  where
    tail : {addr : IoaAddr} → Carries addr (channel_number n ∷ xs) → Carries addr xs
    tail (later c) = c
permit_attrs-Granted sv (other attr_type ∷ xs) a end valid =
    more (λ addr c. tail c) (permit_attrs-Granted sv xs a end valid)
  where
    tail : {addr : IoaAddr} → Carries addr (other attr_type ∷ xs) → Carries addr xs
    tail (later c) = c
permit_attrs-Granted sv (xor_peer_address addr ∷ xs) {err} a end valid =
    step (λ e b n v. permit_attrs-Granted sv xs {err = e} b n v)
      (update_permission-Updated sv a (addr_set_port addr 0) valid (set_port_zero addr))
  where
    step :
        {done : ℕ × Allocation}
        → ((e : ℕ) (b : Allocation)
            → Ending sv e
            → IsAllocation b
            → Granted sv xs b (permit_attrs sv xs (e, b)))
        → Updated sv a (addr_set_port addr 0) done
        → Granted sv
            (xor_peer_address addr ∷ xs)
            a
            (permit_attrs sv xs (if done.0 == 0 then err else 500, done.1))
    step rest (updated {a'} well e has) = first_of e has (rest err a' end e.valid)
    step rest (updated {a'} (failing z) e has) = first_of e has (rest 500 a' (failing z) e.valid)

-- The first loop stops at an error.
stops :
    (server : TurnServer) (ss : Session) (ys : List Attr) (t : PermissionRequest)
    → t.err_code ≢ 0
    → permission_attrs server ss ys t ≡ t
unfolding permission_attrs
stops server ss [] t ne = refl
stops server ss (y ∷ ys) t ne = let z : (t.err_code == 0) ≡ false = ground arith in rw z refl

bad_peer :
    (server : TurnServer) (ss : Session) (r : PermissionRequest) (addr : IoaAddr)
    → good_peer_addr server ss.realm_name addr ≡ false
    → (permission_attr server ss (xor_peer_address addr) r).err_code ≢ 0
unfolding permission_attr
bad_peer server ss r addr n = elim (Bool-cases (get_relay_socket ss addr.family)) [
  | inl y ↦ rw (y, n) (omega arith)
  | inr y ↦ rw y (omega arith)
]

goes :
    (server : TurnServer) (ss : Session) (r : PermissionRequest) {addr : IoaAddr} {y : Attr}
    {ys : List Attr}
    → Carries addr (y ∷ ys)
    → (permission_attrs server ss ys (permission_attr server ss y r)).err_code ≡ 0
    → (Carries addr ys → good_peer_addr server ss.realm_name addr ≡ true)
    → good_peer_addr server ss.realm_name addr ≡ true
goes server ss r (later c) z rest = rest c
goes server ss r {addr} (carried {xs}) z rest =
    elim (Bool-cases (good_peer_addr server ss.realm_name addr)) [
      | inl y ↦ y
      | inr n ↦
          let ne = bad_peer server ss r addr n in
          absurd (
            ne (
              ap (λ t. t.err_code)
                (sym (stops server ss xs (permission_attr server ss (xor_peer_address addr) r) ne))
              ∙ z))
    ]

-- The first loop goes to the end only where every address is good.
all_good :
    (server : TurnServer) (ss : Session) (xs : List Attr) (r : PermissionRequest) {addr : IoaAddr}
    → Carries addr xs
    → (permission_attrs server ss xs r).err_code ≡ 0
    → (permission_attrs server ss xs r).ua_num ≡ 0
    → good_peer_addr server ss.realm_name addr ≡ true
unfolding permission_attrs
all_good server ss [] r c e u = elim c [ ]
all_good server ss (x ∷ xs) r c e u =
    elim (Bool-cases (r.err_code == 0 && ltb r.ua_num max_number_of_unknown_attrs)) [
      | inl g ↦
          let next = permission_attrs server ss xs (permission_attr server ss x r) in
          let same : permission_attrs server ss (x ∷ xs) r ≡ next = rw g refl in
          goes server ss r c (ap (λ y. y.err_code) (sym same) ∙ e) (λ d.
            all_good server ss xs (permission_attr server ss x r) d
              (ap (λ y. y.err_code) (sym same) ∙ e) (ap (λ y. y.ua_num) (sym same) ∙ u))
      | inr g ↦
          let same : permission_attrs server ss (x ∷ xs) r ≡ r = rw g refl in
          absurd (
            let z = ap (λ y. y.err_code) (sym same) ∙ e in
            let z' = ap (λ y. y.ua_num) (sym same) ∙ u in ground arith)
    ]

-- How a request ends: refused, with the allocation as it is, or with permissions for its peers,
-- which are all good
pub data PermissionOutcome (server : TurnServer) (ss : Session) (attrs : List Attr)
    : ℕ × Allocation → Type 0 where
  denied : {err : ℕ} → err ≢ 0 → PermissionOutcome server ss attrs (err, ss.alloc)
  allowed :
      {p : ℕ × Allocation}
      → ((addr : IoaAddr) → Carries addr attrs → good_peer_addr server ss.realm_name addr ≡ true)
      → Granted ss.server attrs ss.alloc p
      → PermissionOutcome server ss attrs p

-- On a well-formed allocation, with what the first loop makes of the attributes, a create permission
-- request is refused with an error code, and the allocation is as it is; or it ends without one, or
-- with the code 500 where the session has no server, and then every address that it carries is a good
-- peer, and, if of IPv4 or IPv6, has its permission, every permission of before is still there, the
-- channels are the same, and the allocation is well-formed.
pub permission_request_lem :
    (server : TurnServer) (ss : Session) (attrs : List Attr)
    → IsAllocation ss.alloc
    → PermissionOutcome server ss attrs
        (permission_request server ss attrs (permission_attrs server ss attrs no_permissions))
unfolding permission_request
permission_request_lem server ss attrs valid =
    let r = permission_attrs server ss attrs no_permissions in
    elim (Bool-cases (ltb 0 r.ua_num)) [
      | inl e ↦ rw e (denied (omega arith))
      | inr u ↦ elim (Bool-cases (r.err_code == 0)) [
        | inr e ↦ rw (u, e) (denied (ground arith))
        | inl z ↦ elim (Bool-cases (r.addr_found == 0)) [
          | inl e ↦ rw (u, z, e) (denied (omega arith))
          | inr e ↦
              rw (u, z, e)
                (allowed
                  (λ addr c.
                    all_good server ss attrs no_permissions c (ground arith) (ground arith))
                  (permit_attrs-Granted ss.server attrs ss.alloc well valid))
        ]
      ]
    ]
