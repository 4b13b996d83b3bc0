-- ===== src/AddrMap/Lists.antt =====
-- The lists of an address map.
use p2p_cluster.Common.{
  ℕ, ◌≡◌, ◌≢◌, refl, ap, ◌∙◌, true, Option-cases, if◌then◌else◌, none, some, [], ◌∷◌, inl, inr,
  arith,
}
use p2p_cluster.Ioaddr.{IoaAddr, addr_eq}
use p2p_cluster.Ioaddr.SameAddr.{addr_eq_join, addr_eq_comm}
use p2p_cluster.AddrMap.{
  AddrList, add_elem, addr_list_add, addr_list_remove, addr_list_get, set_elem, put_in,
}

pub get-congruent :
    (slh : AddrList) (a b : IoaAddr)
    → addr_eq a b ≡ true
    → addr_list_get slh a ≡ addr_list_get slh b
unfolding addr_list_get
get-congruent [] a b h = refl
get-congruent (e ∷ es) a b h = ground (
  arith,
  get-congruent es a b h,
  addr_eq_join a b e.key,
  addr_eq_comm e.key a,
  addr_eq_comm e.key b,
)

add_elem-get :
    (slh : AddrList) (key : IoaAddr) (value : ℕ) (other : IoaAddr)
    → value ≢ 0
    → addr_list_get slh key ≡ none
    → addr_list_get (add_elem slh key value) other
      ≡ (if addr_eq key other then some value else addr_list_get slh other)
unfolding add_elem addr_list_get
add_elem-get [] key value other nz absent = ground arith
add_elem-get (e ∷ es) key value other nz absent = ground (
  arith,
  add_elem-get es key value other nz,
  addr_eq_join e.key other key,
  addr_eq_comm other key,
)

set_elem-get :
    (slh : AddrList) (key : IoaAddr) (value old : ℕ) (other : IoaAddr)
    → value ≢ 0
    → addr_list_get slh key ≡ some old
    → addr_list_get (set_elem slh key value) other
      ≡ (if addr_eq key other then some value else addr_list_get slh other)
unfolding set_elem addr_list_get
set_elem-get [] key value old other nz found = absurd (ground (arith, found))
set_elem-get (e ∷ es) key value old other nz found = ground (
  arith,
  set_elem-get es key value old other nz,
  addr_eq_join e.key key other,
  addr_eq_join e.key other key,
  addr_eq_comm other key,
)

pub remove-get :
    (slh : AddrList) (key other : IoaAddr)
    → addr_list_get (addr_list_remove slh key) other
      ≡ (if addr_eq key other then none else addr_list_get slh other)
unfolding addr_list_remove addr_list_get
remove-get [] key other = ground arith
remove-get (e ∷ es) key other = ground (
  arith,
  remove-get es key other,
  addr_eq_join e.key key other,
  addr_eq_join e.key other key,
  addr_eq_comm other key,
)

put_in_new :
    (slh : AddrList) (key : IoaAddr) (value : ℕ)
    → value ≢ 0
    → addr_list_get slh key ≡ none
    → put_in slh key value ≡ add_elem slh key value
unfolding put_in addr_list_add
put_in_new slh key value nz absent = rw (absent, put_in) (ground arith)

put_in_old :
    (slh : AddrList) (key : IoaAddr) (value old : ℕ)
    → addr_list_get slh key ≡ some old
    → put_in slh key value ≡ set_elem slh key value
unfolding put_in
put_in_old slh key value old found = rw (found, put_in) refl

pub put_in-get :
    (slh : AddrList) (key : IoaAddr) (value : ℕ) (other : IoaAddr)
    → value ≢ 0
    → addr_list_get (put_in slh key value) other
      ≡ (if addr_eq key other then some value else addr_list_get slh other)
put_in-get slh key value other nz = elim (Option-cases (addr_list_get slh key)) [
  | inl absent ↦
      ap (λ l. addr_list_get l other) (put_in_new slh key value nz absent)
      ∙ add_elem-get slh key value other nz absent
  | inr (old, found) ↦
      ap (λ l. addr_list_get l other) (put_in_old slh key value old found)
      ∙ set_elem-get slh key value old other nz found
]
