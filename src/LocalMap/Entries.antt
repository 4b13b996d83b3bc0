-- ===== src/LocalMap/Entries.antt =====
-- What lm_map_foreach visits: each key that lm_map_get finds, with the value that it finds.
use p2p_cluster.Common.{
  ℕ, ◌<◌, ◌≤◌, ◌≡◌, ◌≢◌, refl, subst, Bool, true, false, Bool-cases, ◌==◌, if◌then◌else◌, some,
  List, [], ◌∷◌, ◌++◌, ◌⊎◌, inl, inr, arith,
}
use p2p_cluster.LocalMap.{Slot, is_free, index_of, get_extra, used}
use p2p_cluster.LocalMap.Slots.{occurs}
use p2p_cluster.LocalMap.Placement.{Belong, belong_nil, belong_cons}

pub data In (s : Slot) : List Slot → Type 0 where
  at : {ss : List Slot} → In s (s ∷ ss)
  further : {t : Slot} {ss : List Slot} → In s ss → In s (t ∷ ss)

pub In-left : {s : Slot} {xs : List Slot} (ys : List Slot) → In s xs → In s (xs ++ ys)
In-left ys at = at
In-left ys (further i) = further (In-left ys i)

pub In-right : {s : Slot} (xs : List Slot) {ys : List Slot} → In s ys → In s (xs ++ ys)
In-right [] i = i
In-right (x ∷ xs) i = further (In-right xs i)

pub In-split : {s : Slot} (xs : List Slot) {ys : List Slot} → In s (xs ++ ys) → In s xs ⊎ In s ys
In-split [] i = inr i
In-split (x ∷ xs) at = inl at
In-split (x ∷ xs) (further i) = elim (In-split xs i) [ inl l ↦ inl (further l) | inr r ↦ inr r ]

pub In-empty : {A : Type 0} {s : Slot} → In s [] → A
In-empty i = elim i [ ]

In-kept :
    {s t : Slot} {ss rest : List Slot} (b : Bool)
    → is_free t ≡ b
    → (In s rest → In s ss × (is_free s ≡ false))
    → In s (if b then rest else t ∷ rest)
    → In s (t ∷ ss) × (is_free s ≡ false)
In-kept true e h i = (further (h i).0, (h i).1)
In-kept false e h at = (at, e)
In-kept false e h (further i) = (further (h i).0, (h i).1)

pub used-In : {s : Slot} (ss : List Slot) → In s (used ss) → In s ss × (is_free s ≡ false)
unfolding used
used-In [] i = In-empty i
used-In (t ∷ ss) i = In-kept (is_free t) refl (used-In ss) i

pub In-used : {s : Slot} {ss : List Slot} → In s ss → is_free s ≡ false → In s (used ss)
unfolding used
In-used (at {ss}) e = rw e at
In-used {s} (further {t} {ss} i) e = kept (is_free t) (In-used i e)
  where
    kept : (b : Bool) → In s (used ss) → In s (if b then used ss else t ∷ used ss)
    kept true i = i
    kept false i = further i

pub occurs-In : {s : Slot} (ss : List Slot) → In s ss → 0 < occurs s.key ss
unfolding occurs
occurs-In [] i = In-empty i
occurs-In (t ∷ ss) at = ground arith
occurs-In (t ∷ ss) (further i) = omega (arith, occurs-In ss i)

pub get_extra-In :
    {s : Slot} (ss : List Slot) → In s ss → occurs s.key ss ≤ 1 → get_extra s.key ss ≡ some s.value
unfolding get_extra occurs
get_extra-In [] i h = In-empty i
get_extra-In (t ∷ ss) at h = ground arith
get_extra-In {s} (t ∷ ss) (further i) h = ground (arith, get_extra-In ss i, occurs-In ss i)

pub Belong-In :
    {i : ℕ} {s : Slot} {ss : List Slot} → Belong i ss → In s ss → s.key ≢ 0 → index_of s.key ≡ i
Belong-In belong_nil i ne = In-empty i
Belong-In (belong_cons h b) at ne = h ne
Belong-In (belong_cons h b) (further i) ne = Belong-In b i ne

pub In-get_extra :
    {key value : ℕ} (ss : List Slot)
    → get_extra key ss ≡ some value
    → In (record { key = key; value = value }) ss
unfolding get_extra
In-get_extra [] found = absurd (let f : ⊥ = cc in f)
In-get_extra {key} {value} (s ∷ ss) found = elim (Bool-cases (s.key == key)) [
  | inl e ↦
      (let k : s.key ≡ key = ground arith in
        let v : s.value ≡ value = ground arith in
        let q : s ≡ record { key = key; value = value } = cc in subst (λ t. In t (s ∷ ss)) q at)
  | inr e ↦ further (In-get_extra ss (grind arith))
]
