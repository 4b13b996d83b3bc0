-- ===== src/Stun/Saslprep/Laws.antt =====
-- SASLprep against mapping and prohibited output of RFC 4013, for single-byte characters. The code
-- does no normalization, section 2.2 of the RFC, and neither does the description here.
use p2p_cluster.Common.{
  ℕ, ltb, leb, ◌≤◌, ◌≡◌, ◌≢◌, ◌==◌, ◌&&◌, ◌||◌, Bool-cases, if◌then◌else◌, Option, none, some, List,
  [], ◌∷◌, inl, inr, ◌⊎◌, arith,
}
use p2p_cluster.Stun.Saslprep.{before, saslprep}

-- Section 2.1: the soft hyphen is mapped to nothing, the no-break space to a space.
unfoldable pub mapped : List ℕ → List ℕ
mapped [] = []
mapped (c ∷ cs) =
    let rest = mapped cs in if c == 0xAD then rest else if c == 0xA0 then 0x20 ∷ rest else c ∷ rest

-- Section 2.3: the control characters, 0 to 0x1F, 0x7F and 0x80 to 0x9F
abbrev pub Prohibited : ℕ → Type 0
Prohibited c = (c ≤ 0x1F) ⊎ ((0x7F ≤ c) × (c ≤ 0x9F))

pub data HasProhibited : List ℕ → Type 0 where
  here : {c : ℕ} {cs : List ℕ} → Prohibited c → HasProhibited (c ∷ cs)
  there : {c : ℕ} {cs : List ℕ} → HasProhibited cs → HasProhibited (c ∷ cs)

-- The outcome for a string that is mapped already: refused, where it has a prohibited character, or
-- as it is
pub data Checked (cs : List ℕ) : Option (List ℕ) → Type 0 where
  refused : HasProhibited cs → Checked cs none
  accepted : ¬ HasProhibited cs → Checked cs (some cs)

-- The byte 0x1F, which the source lets through, is not in the string.
pub data HasNo1f : List ℕ → Type 0 where
  no_1f_nil : HasNo1f []
  no_1f_cons : {c : ℕ} {cs : List ℕ} → c ≢ 0x1F → HasNo1f cs → HasNo1f (c ∷ cs)

before-Checked :
    (c : ℕ) {cs : List ℕ} {r : Option (List ℕ)}
    → ¬ Prohibited c
    → Checked cs r
    → Checked (c ∷ cs) (before c r)
unfolding before
before-Checked c fine (refused p) = refused (there p)
before-Checked c {cs} fine (accepted n) = accepted clean
  where
    clean : ¬ HasProhibited (c ∷ cs)
    clean (here p) = fine p
    clean (there p) = n p

-- On every string of bytes without 0x1F, `saslprep` does what sections 2.1 and 2.3 of RFC 4013 do
-- with single-byte characters. Mapping drops soft hyphens and turns no-break spaces into spaces. It
-- refuses exactly where a control character is left after the mapping, and otherwise it returns the
-- mapped string.
pub saslprep_lem : (cs : List ℕ) → HasNo1f cs → Checked (mapped cs) (saslprep cs)
unfolding saslprep mapped
saslprep_lem [] no_1f_nil = accepted (λ p. elim p [ ])
saslprep_lem (c ∷ cs) (no_1f_cons other rest) =
    step (mapped cs) (saslprep cs) (saslprep_lem cs rest)
  where
    step :
        (ms : List ℕ) (r : Option (List ℕ))
        → Checked ms r
        → Checked (if c == 0xAD then ms else if c == 0xA0 then 0x20 ∷ ms else c ∷ ms) (
            if c == 0xAD
            then r
            else if c == 0xA0 || c == 0x20
            then before 0x20 r
            else if c == 0x7F
            then none
            else if ltb c 0x1F
            then none
            else if leb 0x80 c && leb c 0x9F
            then none
            else before c r)
    step ms r p = elim (Bool-cases (c == 0xAD)) [
      | inl a ↦ rw a p
      | inr a ↦ rw a (elim (Bool-cases (c == 0xA0)) [
        | inl b ↦ rw b (before-Checked 0x20 (λ x. omega (arith, x)) p)
        | inr b ↦ rw b (elim (Bool-cases (c == 0x20)) [
          | inl d ↦
              let e : c ≡ 0x20 = ground arith in
              rw e (before-Checked 0x20 (λ x. omega (arith, x)) p)
          | inr d ↦ rw d (elim (Bool-cases (c == 0x7F)) [
            | inl f ↦ rw f (refused (here (inr (ground arith))))
            | inr f ↦ rw f (elim (Bool-cases (ltb c 0x1F)) [
              | inl g ↦ rw g (refused (here (inl (ground arith))))
              | inr g ↦ rw g (elim (Bool-cases (leb 0x80 c && leb c 0x9F)) [
                | inl k ↦ rw k (refused (here (inr (ground arith))))
                | inr k ↦ rw k (before-Checked c (λ x. ground (arith, x)) p)
              ])
            ])
          ])
        ])
      ])
    ]
