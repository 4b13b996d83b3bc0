-- ===== src/Allocation/Sweep.antt =====
-- What the walk of turn_permission_clean does to the channels.
use p2p_cluster.Common.{
  ℕ, zero, suc, ◌≡◌, refl, sym, ap, ◌∙◌, Bool, false, List, [], ◌∷◌, ◌⊎◌, inl, inr,
}
use p2p_cluster.LocalMap.{Slot, visit}
use p2p_cluster.LocalMap.Entries.{In, at, further, In-empty}
use p2p_cluster.Allocation.{
  ChInfo, zero_ch_info, ch_info_clean, delete_channel_info_from_allocation_map,
}
use p2p_cluster.Allocation.Permissions.{cell_cases}

-- An entry of the list is a pointer to the channel.
pub data Points (ss : List Slot) (i : ℕ) : Type 0 where
  points : {s : Slot} → In s ss → s.value ≡ suc i → Points ss i

abbrev pub call : ℕ → ℕ → (ℕ → ChInfo) → Bool × (ℕ → ChInfo)
call key value cells = delete_channel_info_from_allocation_map key value cells

pub call_goes : (key value : ℕ) (cells : ℕ → ChInfo) → (call key value cells).0 ≡ false
unfolding delete_channel_info_from_allocation_map
call_goes key zero cells = refl
call_goes key (suc r) cells = refl

pub call_cases :
    (key value : ℕ) (cells : ℕ → ChInfo) (i : ℕ)
    → ((call key value cells).1 i ≡ cells i)
      ⊎ (((call key value cells).1 i ≡ zero_ch_info) × (value ≡ suc i))
unfolding delete_channel_info_from_allocation_map ch_info_clean
call_cases key zero cells i = inl refl
call_cases key (suc r) cells i = elim (cell_cases cells cells r zero_ch_info (λ j ne. refl) i) [
  | inl (z, n) ↦ inr (n, ap suc (sym z))
  | inr (z, n) ↦ inl n
]

pub call_clears :
    (key : ℕ) {value : ℕ} (cells : ℕ → ChInfo) (i : ℕ)
    → value ≡ suc i
    → (call key value cells).1 i ≡ zero_ch_info
unfolding delete_channel_info_from_allocation_map ch_info_clean
call_clears key cells i e = rw e (elim (cell_cases cells cells i zero_ch_info (λ j ne. refl) i) [
  | inl (z, n) ↦ n
  | inr (z, n) ↦ absurd (z refl)
])

pub later : {s : Slot} {ss : List Slot} {i : ℕ} → Points ss i → Points (s ∷ ss) i
later (points p v) = points (further p) v

-- A channel after the walk is as it was, or it is cleared, and an entry points to it.
pub sweep :
    (ss : List Slot) (cells : ℕ → ChInfo) (i : ℕ)
    → ((visit call ss cells).1 i ≡ cells i)
      ⊎ (((visit call ss cells).1 i ≡ zero_ch_info) × Points ss i)
unfolding visit
sweep [] cells i = inl refl
sweep (s ∷ ss) cells i =
    rw (call_goes s.key s.value cells) (elim (sweep ss (call s.key s.value cells).1 i) [
      | inl e ↦ elim (call_cases s.key s.value cells i) [
        | inl f ↦ inl (e ∙ f)
        | inr (f, v) ↦ inr (e ∙ f, points at v)
      ]
      | inr (e, p) ↦ inr (e, later p)
    ])

pub swept :
    (ss : List Slot) (cells : ℕ → ChInfo) (i : ℕ)
    → Points ss i
    → (visit call ss cells).1 i ≡ zero_ch_info
unfolding visit
swept [] cells i (points p v) = In-empty p
swept (s ∷ ss) cells i (points at v) =
    rw (call_goes s.key s.value cells) (elim (sweep ss (call s.key s.value cells).1 i) [
      | inl e ↦ e ∙ call_clears s.key cells i v
      | inr (e, p) ↦ e
    ])
swept (s ∷ ss) cells i (points (further p) v) =
    rw (call_goes s.key s.value cells) (swept ss (call s.key s.value cells).1 i (points p v))
