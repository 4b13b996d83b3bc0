-- ===== src/LocalMap/Visits.antt =====
-- What lm_map_foreach visits: each key that lm_map_get finds, with the value that it finds.
use p2p_cluster.Common.{
  ℕ, zero, suc, ◌<◌, ◌≡◌, ◌≢◌, refl, sym, ap, subst, ◌∙◌, Bool, false, Bool-cases, Option-cases,
  ◌==◌, Option, some, List, [], ◌∷◌, ◌++◌, ◌⊎◌, inl, inr, arith,
}
use p2p_cluster.LocalMap.{
  Slot, LmMap, LmMapArray, index_of, is_free, get_extra, lm_map_hash_size, lm_map_get, used,
  used_in, visit, lm_map_foreach,
}
use p2p_cluster.LocalMap.Slots.{IsClean, clean_nil, clean_cons, get_main-get_extra, get_extra-none}
use p2p_cluster.LocalMap.Buckets.{IsBucket, find_in}
use p2p_cluster.LocalMap.Laws.{IsMap, get_in, get_zero}
use p2p_cluster.LocalMap.Placement.{ArePlaced, History-ArePlaced}
use p2p_cluster.LocalMap.Entries.{
  In, at, further, In-empty, In-left, In-right, In-split, used-In, In-used, In-get_extra,
  get_extra-In, Belong-In, occurs-In,
}
use p2p_cluster.LocalMap.History.{History, Agrees, History-Agrees}

IsClean-In : {s : Slot} {ss : List Slot} → IsClean ss → In s ss → (s.key == 0) ≡ (s.value == 0)
IsClean-In clean_nil i = In-empty i
IsClean-In (clean_cons e c) at = e
IsClean-In (clean_cons e c) (further i) = IsClean-In c i

-- One of the two arrays of the bucket has the slot in use.
abbrev pub Holds : Slot → LmMapArray → Type 0
Holds s a = In s (used a.main) ⊎ In s (used a.extra)

key_used : {s : Slot} {ss : List Slot} → In s ss × (is_free s ≡ false) → s.key ≢ 0
key_used (i, e) z = absurd (ground arith)

found-Holds :
    {s : Slot} (a : LmMapArray)
    → IsBucket a
    → Holds s a
    → (s.key ≢ 0) × (find_in s.key a ≡ some s.value)
found-Holds {s} a w (inl l) =
    let i = used-In a.main l in
    let k = key_used i in
    let o = occurs-In a.main i.0 in
    (
      k,
      rw (get_main-get_extra w.main k, get_extra-In a.main i.0 (omega (arith, w.once s.key k)))
          refl,
    )
found-Holds {s} a w (inr r) =
    let i = used-In a.extra r in
    let k = key_used i in
    let o = occurs-In a.extra i.0 in
    (
      k,
      rw
          (
            get_main-get_extra w.main k,
            get_extra-none s.key a.main (omega (arith, w.once s.key k)),
            get_extra-In a.extra i.0 (omega (arith, w.once s.key k)),
          )
          refl,
    )

Holds-found :
    {key value : ℕ} (a : LmMapArray)
    → IsBucket a
    → key ≢ 0
    → find_in key a ≡ some value
    → Holds (record { key = key; value = value }) a
Holds-found {key} {value} a w ne found = elim (Option-cases (get_extra key a.main)) [
  | inl e ↦ inr (
      stays w.extra
        (In-get_extra a.extra (sym (rw (get_main-get_extra w.main ne, e) refl) ∙ found)))
  | inr (v, e) ↦ inl (
      stays w.main
        (In-get_extra a.main (e ∙ sym (rw (get_main-get_extra w.main ne, e) refl) ∙ found)))
]
  where
    stays :
        {ss : List Slot}
        → IsClean ss
        → In (record { key = key; value = value }) ss
        → In (record { key = key; value = value }) (used ss)
    stays c i = In-used i (let q = IsClean-In c i in ground arith)

-- A bucket of the first n that holds the slot
pub data Somewhere (s : Slot) (n : ℕ) (map : LmMap) : Type 0 where
  somewhere : (i : ℕ) → i < n → Holds s (map i) → Somewhere s n map

widen : {s : Slot} {n : ℕ} {map : LmMap} → Somewhere s n map → Somewhere s (suc n) map
widen (somewhere i h p) = somewhere i (omega arith) p

pub used_in-Somewhere : {s : Slot} (n : ℕ) (map : LmMap) → In s (used_in n map) → Somewhere s n map
unfolding used_in
used_in-Somewhere zero map i = In-empty i
used_in-Somewhere (suc n) map i = elim (In-split (used_in n map ++ used (map n).main) i) [
  | inl l ↦ elim (In-split (used_in n map) l) [
    | inl k ↦ widen (used_in-Somewhere n map k)
    | inr m ↦ somewhere n (omega arith) (inl m)
  ]
  | inr r ↦ somewhere n (omega arith) (inr r)
]

last_bucket : {s : Slot} (n : ℕ) (map : LmMap) → Holds s (map n) → In s (used_in (suc n) map)
unfolding used_in
last_bucket n map (inl m) = In-left (used (map n).extra) (In-right (used_in n map) m)
last_bucket n map (inr e) = In-right (used_in n map ++ used (map n).main) e

earlier_bucket :
    {s : Slot} (n : ℕ) (map : LmMap) → In s (used_in n map) → In s (used_in (suc n) map)
unfolding used_in
earlier_bucket n map i = In-left (used (map n).extra) (In-left (used (map n).main) i)

Somewhere-used_in :
    {s : Slot} (n : ℕ) (map : LmMap) (i : ℕ) → i < n → Holds s (map i) → In s (used_in n map)
Somewhere-used_in zero map i h p = absurd (omega arith)
Somewhere-used_in {s} (suc n) map i h p = elim (Bool-cases (i == n)) [
  | inl e ↦ let q : i ≡ n = ground arith in last_bucket n map (subst (λ j. Holds s (map j)) q p)
  | inr d ↦ earlier_bucket n map (Somewhere-used_in n map i (ground arith) p)
]

pub used_in-found :
    {s : Slot} (map : LmMap)
    → IsMap map
    → ArePlaced map
    → Somewhere s lm_map_hash_size map
    → lm_map_get map s.key ≡ some s.value
used_in-found {s} map v p (somewhere i h q) =
    let f = found-Holds (map i) (v i) q in
    let e : index_of s.key ≡ i = home q in
    get_in map s.key f.0 ∙ ap (λ j. find_in s.key (map j)) e ∙ f.1
  where
    home : Holds s (map i) → index_of s.key ≡ i
    home (inl l) = let j = used-In (map i).main l in Belong-In (p i).main j.0 (key_used j)
    home (inr r) = let j = used-In (map i).extra r in Belong-In (p i).extra j.0 (key_used j)

pub found-used_in :
    (map : LmMap) (key value : ℕ)
    → IsMap map
    → lm_map_get map key ≡ some value
    → In (record { key = key; value = value }) (used_in lm_map_hash_size map)
found-used_in map key value v found =
    Somewhere-used_in lm_map_hash_size map (index_of key) (omega arith)
      (Holds-found (map (index_of key)) (v (index_of key)) k (sym (get_in map key k) ∙ found))
  where
    k : key ≢ 0
    k z = let nothing = ap (lm_map_get map) z ∙ get_zero map in absurd (ground (arith, nothing))

-- A callback that keeps what it is called on, and never stops the walk
abbrev pub keep : ℕ → ℕ → List Slot → Bool × List Slot
keep key value seen = (false, record { key = key; value = value } ∷ seen)

seen_next :
    {s t : Slot} {ss seen : List Slot} → In s ss ⊎ In s (t ∷ seen) → In s (t ∷ ss) ⊎ In s seen
seen_next (inl l) = inl (further l)
seen_next (inr at) = inl at
seen_next (inr (further r)) = inr r

visit-keep : {s : Slot} (ss seen : List Slot) → In s (visit keep ss seen).1 → In s ss ⊎ In s seen
unfolding visit
visit-keep [] seen i = inr i
visit-keep (t ∷ ss) seen i =
    seen_next (visit-keep ss (record { key = t.key; value = t.value } ∷ seen) i)

keep-seen : {s : Slot} (ss seen : List Slot) → In s seen → In s (visit keep ss seen).1
unfolding visit
keep-seen [] seen i = i
keep-seen (t ∷ ss) seen i = keep-seen ss (t ∷ seen) (further i)

keep-visit : {s : Slot} (ss seen : List Slot) → In s ss → In s (visit keep ss seen).1
unfolding visit
keep-visit [] seen i = In-empty i
keep-visit (t ∷ ss) seen at = keep-seen ss (t ∷ seen) at
keep-visit (t ∷ ss) seen (further i) = keep-visit ss (t ∷ seen) i

-- After any sequence of calls on a new map that put keys other than 0, with values other than 0,
-- only where they are absent, and delete keys only where they are present, `lm_map_foreach` with a
-- callback that never stops it calls it on a key and a value just where the map should hold that
-- value for that key.
pub lm_map_foreach_lem :
    {map : LmMap} {held : ℕ → Option ℕ}
    → History map held
    → (key value : ℕ)
    → (In (record { key = key; value = value }) (lm_map_foreach keep map []).1
        → held key ≡ some value)
      × (held key ≡ some value
          → In (record { key = key; value = value }) (lm_map_foreach keep map []).1)
unfolding lm_map_foreach
lm_map_foreach_lem {map} {held} h key value =
    let a = History-Agrees h in
    (
      sound a,
      λ e.
          keep-visit (used_in lm_map_hash_size map) []
            (found-used_in map key value a.valid (a.finds key ∙ e)),
    )
  where
    sound :
        Agrees map held
        → In (record { key = key; value = value }) (lm_map_foreach keep map []).1
        → held key ≡ some value
    sound a i = elim (visit-keep (used_in lm_map_hash_size map) [] i) [
      | inl l ↦
          sym (a.finds key)
          ∙ used_in-found map a.valid (History-ArePlaced h)
              (used_in-Somewhere lm_map_hash_size map l)
      | inr r ↦ In-empty r
    ]
