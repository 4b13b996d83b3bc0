-- ===== src/LocalMap/Buckets.antt =====
-- What a call does to the bucket of its key.
use p2p_cluster.Common.{
  ℕ, ◌+◌, ◌-◌, ◌≤◌, ◌≡◌, ◌≢◌, refl, sym, ap, ◌∙◌, true, false, Bool-cases, ◌==◌, Option, none, some,
  inl, inr, arith,
}
use p2p_cluster.LocalMap.{
  LmMapArray, put_extra, get_main, get_extra, or_else, is_some, del_main, del_extra, del_in,
}
use p2p_cluster.LocalMap.Slots.{
  IsClean, occurs, get_main-get_extra, del_main-del_extra, occurs_zero, get_extra-none,
  put_extra-IsClean, del_extra-IsClean, put_extra-occurs_self, put_extra-occurs_ne,
  del_extra-occurs_self, del_extra-occurs_ne, put_extra-get_self, put_extra-get_ne,
  del_extra-get_ne,
}

-- No key is there twice.
pub record IsBucket (a : LmMapArray) : Type 0 where
  pub main : IsClean a.main
  pub extra : IsClean a.extra
  pub once : (key : ℕ) → key ≢ 0 → occurs key a.main + occurs key a.extra ≤ 1

-- A lookup in the bucket of the key
abbrev pub find_in : ℕ → LmMapArray → Option ℕ
find_in key a = or_else (get_main key a.main) (get_extra key a.extra)

pub absent-both :
    (key : ℕ) (a : LmMapArray)
    → IsClean a.main
    → key ≢ 0
    → find_in key a ≡ none
    → (occurs key a.main ≡ 0) × (occurs key a.extra ≡ 0)
absent-both key a clean ne h =
    let same_main = get_main-get_extra clean ne in
    (occurs_zero key a.main (ground arith), occurs_zero key a.extra (ground arith))

-- The bucket after a call that stores a key
pub data StoredIn (key value : ℕ) (a b : LmMapArray) : Type 0 where
  stored_in :
      IsBucket b
      → find_in key b ≡ some value
      → ((other : ℕ) → other ≢ key → other ≢ 0 → find_in other b ≡ find_in other a)
      → StoredIn key value a b

-- Counts stay at most 1 where one of them goes from 0 to 1, or down, and the others stay.
once_more :
    (f g : ℕ → ℕ) (key : ℕ)
    → ((n : ℕ) → n ≢ 0 → f n ≤ 1)
    → g key ≤ 1
    → ((n : ℕ) → n ≢ key → n ≢ 0 → g n ≡ f n)
    → (n : ℕ) → n ≢ 0
    → g n ≤ 1
once_more f g key once self others n ne = elim (Bool-cases (n == key)) [
  | inl e ↦ let q : n ≡ key = ground arith in rw q self
  | inr d ↦ let same_n = others n (ground arith) ne in ground (arith, once n ne)
]

module _ (key value : ℕ) (a : LmMapArray) (v : IsBucket a) (k : key ≢ 0) (nz : value ≢ 0)
    (absent : find_in key a ≡ none) where
  not_in : (occurs key a.main ≡ 0) × (occurs key a.extra ≡ 0)
  not_in = absent-both key a v.main k absent

  main-IsClean : IsClean (put_extra key value a.main)
  main-IsClean = put_extra-IsClean key value k nz v.main

  pub in_main : StoredIn key value a (record a { main = put_extra key value a.main })
  in_main =
      stored_in
        (record {
          main = main-IsClean;
          extra = v.extra;
          once =
              once_more (λ n. occurs n a.main + occurs n a.extra)
                (λ n. occurs n (put_extra key value a.main) + occurs n a.extra) key v.once
                (omega (arith, put_extra-occurs_self key value k v.main, not_in))
                (λ n d ne.
                  ap (λ x. x + occurs n a.extra) (put_extra-occurs_ne key value n d ne v.main));
        })
        (rw (get_main-get_extra main-IsClean k, put_extra-get_self key value k v.main not_in.0)
          refl)
        (λ other d ne.
          rw
            (
              get_main-get_extra main-IsClean ne,
              put_extra-get_ne key value other d ne v.main,
              get_main-get_extra v.main ne,
            )
            refl)

  pub in_extra : StoredIn key value a (record a { extra = put_extra key value a.extra })
  in_extra =
      stored_in
        (record {
          main = v.main;
          extra = put_extra-IsClean key value k nz v.extra;
          once =
              once_more (λ n. occurs n a.main + occurs n a.extra)
                (λ n. occurs n a.main + occurs n (put_extra key value a.extra)) key v.once
                (omega (arith, put_extra-occurs_self key value k v.extra, not_in))
                (λ n d ne.
                  ap (λ x. occurs n a.main + x) (put_extra-occurs_ne key value n d ne v.extra));
        })
        (rw (get_main-get_extra v.main k, get_extra-none key a.main not_in.0)
          (put_extra-get_self key value k v.extra not_in.1))
        (λ other d ne.
          ap (or_else (get_main other a.main)) (put_extra-get_ne key value other d ne v.extra))

-- The bucket after a call that deletes a key
pub data DeletedIn (key : ℕ) (a b : LmMapArray) : Type 0 where
  deleted_in :
      IsBucket b
      → find_in key b ≡ none
      → ((other : ℕ) → other ≢ key → other ≢ 0 → find_in other b ≡ find_in other a)
      → DeletedIn key a b

none_in :
    (key : ℕ) (a : LmMapArray)
    → IsClean a.main
    → key ≢ 0
    → occurs key a.main + occurs key a.extra ≡ 0
    → find_in key a ≡ none
none_in key a clean k h =
    let m = get_extra-none key a.main (omega arith) in
    let e = get_extra-none key a.extra (omega arith) in rw (get_main-get_extra clean k, m, e) refl

module _ (key : ℕ) (a : LmMapArray) (v : IsBucket a) (k : key ≢ 0) where
  from_main :
      is_some (get_main key a.main) ≡ true
      → DeletedIn key a (record a { main = del_main key a.main })
  unfolding is_some
  from_main found = rw (del_main-del_extra v.main k) (
      deleted_in
        (record {
          main = clean;
          extra = v.extra;
          once =
              once_more (λ n. occurs n a.main + occurs n a.extra)
                (λ n. occurs n (del_extra key a.main) + occurs n a.extra) key v.once
                (omega (arith, down, v.once key k))
                (λ n d ne. ap (λ x. x + occurs n a.extra) (del_extra-occurs_ne key n a.main d ne));
        })
        (none_in key (record a { main = del_extra key a.main }) clean k
          (omega (arith, down, v.once key k, here)))
        (λ other d ne.
          rw
            (
              get_main-get_extra clean ne,
              del_extra-get_ne key other a.main d ne,
              get_main-get_extra v.main ne,
            )
            refl))
    where
      clean : IsClean (del_extra key a.main)
      clean = del_extra-IsClean key v.main

      down : occurs key (del_extra key a.main) ≡ occurs key a.main - 1
      down = del_extra-occurs_self key a.main k

      here : occurs key a.main ≢ 0
      here z =
          let gone = get_main-get_extra v.main k ∙ get_extra-none key a.main z in
          absurd (ground (arith, gone))

  from_extra :
      is_some (get_main key a.main) ≡ false
      → DeletedIn key a (record a { extra = del_extra key a.extra })
  unfolding is_some
  from_extra found =
      deleted_in
        (record {
          main = v.main;
          extra = del_extra-IsClean key v.extra;
          once =
              once_more (λ n. occurs n a.main + occurs n a.extra)
                (λ n. occurs n a.main + occurs n (del_extra key a.extra)) key v.once
                (omega (arith, down, v.once key k))
                (λ n d ne. ap (λ x. occurs n a.main + x) (del_extra-occurs_ne key n a.extra d ne));
        })
        (none_in key (record a { extra = del_extra key a.extra }) v.main k
          (omega (arith, down, v.once key k, elsewhere)))
        (λ other d ne.
          ap (or_else (get_main other a.main)) (del_extra-get_ne key other a.extra d ne))
    where
      down : occurs key (del_extra key a.extra) ≡ occurs key a.extra - 1
      down = del_extra-occurs_self key a.extra k

      elsewhere : occurs key a.main ≡ 0
      elsewhere = occurs_zero key a.main (sym (get_main-get_extra v.main k) ∙ ground arith)

pub del_in-DeletedIn :
    (key : ℕ) (a : LmMapArray) → IsBucket a → key ≢ 0 → DeletedIn key a (del_in key a)
unfolding del_in
del_in-DeletedIn key a v k = elim (Bool-cases (is_some (get_main key a.main))) [
  | inl e ↦ rw e (from_main key a v k e)
  | inr e ↦ rw e (from_extra key a v k e)
]
