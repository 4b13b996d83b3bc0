-- ===== src/Allocation/Tables.antt =====
-- Slot tables: what the loops over the slots of an array find.
use p2p_cluster.Common.{
  ℕ, zero, suc, ◌+◌, ◌/◌, ◌%◌, ◌<◌, ◌≤◌, ◌≡◌, ◌≢◌, refl, sym, ap, subst, ◌∙◌, Bool, true, false,
  Bool-cases, Option-cases, ◌==◌, not, none, some, inl, inr, arith,
}
use p2p_cluster.Common.Memory.{update}
use p2p_cluster.Allocation.{
  SlotTable, hash_size, slot_ref, or_later, first, at_slot, find_slot, grown, claim_slot,
}

pub first_some : (p : ℕ → Bool) (n : ℕ) {i : ℕ} → first p n ≡ some i → (i < n) × (p i ≡ true)
unfolding first or_later
first_some p zero e = absurd (let f : ⊥ = cc in f)
first_some p (suc n) {i} e = elim (Option-cases (first p n)) [
  | inl none' ↦ elim (Bool-cases (p n)) [
    | inl y ↦
        (let q : some n ≡ some i = sym (rw none' (rw y refl)) ∙ e in
          let z : n ≡ i = cc in (omega arith, ap p (sym z) ∙ y))
    | inr y ↦ absurd (let q : none ≡ some i = sym (rw none' (rw y refl)) ∙ e in let f : ⊥ = cc in f)
  ]
  | inr (j, there) ↦
      (let q : some j ≡ some i = sym (rw there refl) ∙ e in
        let z : j ≡ i = cc in
        let r = first_some p n (there ∙ ap some z) in (omega (arith, r.0), r.1))
]

pub first_none : (p : ℕ → Bool) (n : ℕ) → first p n ≡ none → (i : ℕ) → i < n → p i ≡ false
unfolding first or_later
first_none p zero e i h = absurd (omega arith)
first_none p (suc n) e i h = elim (Option-cases (first p n)) [
  | inl none' ↦ elim (Bool-cases (p n)) [
    | inl y ↦ absurd (let q : some n ≡ none = sym (rw none' (rw y refl)) ∙ e in let f : ⊥ = cc in f)
    | inr y ↦ elim (Bool-cases (i == n)) [
      | inl same ↦ (let q : i ≡ n = ground arith in ap p q ∙ y)
      | inr ne ↦ first_none p n none' i (ground arith)
    ]
  ]
  | inr (j, there) ↦ absurd (let q : some j ≡ none = sym (rw there refl) ∙ e in let f : ⊥ = cc in f)
]

module _ {A : Type 0} (is_allocated : A → Bool) where
  -- An element in use stands in the array that `home` names, within its size.
  pub record Stands (home : A → ℕ) (t : SlotTable A) (r : ℕ) : Type 0 where
    pub array : r % hash_size ≡ home (t.cell r)
    pub within : r / hash_size < t.size (r % hash_size)

  abbrev pub Homed : (A → ℕ) → SlotTable A → Type 0
  Homed home t = (r : ℕ) → is_allocated (t.cell r) ≡ true → Stands home t r

  pub find_slot-some :
      (t : SlotTable A) (p : A → Bool) (b : ℕ) {r : ℕ}
      → find_slot t p b ≡ some r
      → p (t.cell r) ≡ true
  unfolding at_slot
  find_slot-some t p b {r} e =
      elim (Option-cases (first (λ i. p (t.cell (slot_ref b i))) (t.size b))) [
        | inl none' ↦
            absurd (let q : none ≡ some r = sym (rw none' refl) ∙ e in let f : ⊥ = cc in f)
        | inr (i, there) ↦
            (let q : some (slot_ref b i) ≡ some r = sym (rw there refl) ∙ e in
              let z : slot_ref b i ≡ r = cc in
              ap (λ s. p (t.cell s)) (sym z) ∙ (first_some _ (t.size b) there).1)
      ]

  pub find_slot-none :
      (t : SlotTable A) (p : A → Bool) (b : ℕ)
      → find_slot t p b ≡ none
      → (r : ℕ) → r % hash_size ≡ b
      → r / hash_size < t.size (r % hash_size)
      → p (t.cell r) ≡ false
  unfolding at_slot
  find_slot-none t p b e r h w =
      elim (Option-cases (first (λ i. p (t.cell (slot_ref b i))) (t.size b))) [
        | inl none' ↦
            (let z : slot_ref b (r / hash_size) ≡ r = omega arith in
              ap (λ s. p (t.cell s)) (sym z)
              ∙ first_none _ (t.size b) none' (r / hash_size) (rw (sym h) w))
        | inr (i, there) ↦
            absurd
              (let q : some (slot_ref b i) ≡ none = sym (rw there refl) ∙ e in let f : ⊥ = cc in f)
      ]

  -- A slot that is handed out: it is free, stands in its array, and the others are as they were.
  pub data Claimed (t : SlotTable A) (b : ℕ) : ℕ × SlotTable A → Type 0 where
    claimed :
        {ref : ℕ} {t' : SlotTable A}
        → is_allocated (t.cell ref) ≡ false
        → ref % hash_size ≡ b
        → ref / hash_size < t'.size b
        → ((i : ℕ) → t.size i ≤ t'.size i)
        → ((r : ℕ) → r ≢ ref → t'.cell r ≡ t.cell r)
        → Claimed t b (ref, t')

  pub find_slot-at :
      (t : SlotTable A) (p : A → Bool) (b : ℕ) {r : ℕ}
      → b < hash_size
      → find_slot t p b ≡ some r
      → (r % hash_size ≡ b) × (r / hash_size < t.size b)
  unfolding at_slot
  find_slot-at t p b {r} small e =
      elim (Option-cases (first (λ i. p (t.cell (slot_ref b i))) (t.size b))) [
        | inl none' ↦
            absurd (let q : none ≡ some r = sym (rw none' refl) ∙ e in let f : ⊥ = cc in f)
        | inr (i, there) ↦
            (let q : some (slot_ref b i) ≡ some r = sym (rw there refl) ∙ e in
              let z : slot_ref b i ≡ r = cc in
              let w = first_some _ (t.size b) there in (omega arith, omega (arith, w.0)))
      ]

  Claimed-free :
      (t : SlotTable A) (zeroed : A) (b ref : ℕ)
      → b < hash_size
      → find_slot t (λ x. not (is_allocated x)) b ≡ some ref
      → Claimed t b (grown t zeroed b (some ref))
  unfolding grown
  Claimed-free t zeroed b ref small there =
      let p : not (is_allocated (t.cell ref)) ≡ true =
        find_slot-some t (λ x. not (is_allocated x)) b there in
      let q = find_slot-at t (λ x. not (is_allocated x)) b small there in
      claimed {ref = ref} (ground (arith, p)) q.0 q.1 (λ i. omega arith) (λ r ne. refl)

  Claimed-new :
      (home : A → ℕ) (t : SlotTable A) (zeroed : A) (b : ℕ)
      → Homed home t
      → b < hash_size
      → Claimed t b (grown t zeroed b none)
  unfolding grown
  Claimed-new home t zeroed b homed small =
      claimed {ref = ref} unused array room (λ i. ground arith) (λ r ne. ground arith)
    where
      ref : ℕ
      ref = slot_ref b (t.size b)

      array : ref % hash_size ≡ b
      array = omega arith

      pos : ref / hash_size ≡ t.size b
      pos = omega arith

      room : ref / hash_size < update t.size b (t.size b + 1) b
      room = ground (arith, pos)

      unused : is_allocated (t.cell ref) ≡ false
      unused = elim (Bool-cases (is_allocated (t.cell ref))) [
        | inl y ↦
            let s = homed ref y in
            let w : ref / hash_size < t.size b =
              subst (λ i. ref / hash_size < t.size i) array s.within in
            absurd (omega (arith, w, pos))
        | inr n ↦ n
      ]

  pub claim_slot-Claimed :
      (home : A → ℕ) (t : SlotTable A) (zeroed : A) (b : ℕ)
      → Homed home t
      → b < hash_size
      → Claimed t b (claim_slot t is_allocated zeroed b)
  claim_slot-Claimed home t zeroed b homed small =
      elim (Option-cases (find_slot t (λ x. not (is_allocated x)) b)) [
        | inr (ref, there) ↦ rw there (Claimed-free t zeroed b ref small there)
        | inl none' ↦ rw none' (Claimed-new home t zeroed b homed small)
      ]

  -- A change that makes no element used, and moves none
  pub Homed-from :
      (home : A → ℕ) (t t' : SlotTable A)
      → Homed home t
      → ((i : ℕ) → t.size i ≤ t'.size i)
      → ((r : ℕ)
          → is_allocated (t'.cell r) ≡ true
          → (is_allocated (t.cell r) ≡ true) × (home (t'.cell r) ≡ home (t.cell r)))
      → Homed home t'
  Homed-from home t t' homed grows same r y =
      let s = same r y in
      let old = homed r s.0 in
      record {
        array = old.array ∙ sym s.1;
        within = let g = grows (r % hash_size) in omega (arith, old.within, g);
      }

  -- The slot that was handed out is used.
  pub Homed-Claimed :
      (home : A → ℕ) (t : SlotTable A) (b : ℕ) (x : A) {c : ℕ × SlotTable A}
      → Homed home t
      → Claimed t b c
      → home x ≡ b
      → Homed home (record c.1 { cell = update c.1.cell c.0 x })
  Homed-Claimed home t b x homed (claimed {ref} {t'} free array within grows others) there r y =
      elim (Bool-cases (ref == r)) [
        | inl e ↦
            let q : r ≡ ref = ground arith in
            record {
              array = rw e (ap (λ i. i % hash_size) q ∙ array ∙ sym there);
              within =
                  subst (λ i. i / hash_size < t'.size (i % hash_size)) (sym q) (rw array within);
            }
        | inr ne ↦
            let q : t'.cell r ≡ t.cell r = others r (ground arith) in
            let old = homed r (ap is_allocated (sym q) ∙ sym (rw ne refl) ∙ y) in
            let g = grows (r % hash_size) in
            record {
              array = rw ne (old.array ∙ ap home (sym q));
              within = omega (arith, old.within, g);
            }
      ]
