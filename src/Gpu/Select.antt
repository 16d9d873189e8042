-- ===== src/Gpu/Select.antt =====
-- The device list of `gpu_desired` (crates/hyprstate-fsm/src/gpu.rs): it never runs into the
-- program's `unreachable!()` or an index out of bounds.
use hyprstate.Prelude.{
  ◌≡◌, ◌≢◌, refl, inl, inr, false, not, Option, none, some, List, [], ◌∷◌, arith, ℕ, ltb, ◌==◌,
  length, Bool-cases,
}
use hyprstate.Gpu.{
  GpuCard, GpuSnapshot, GpuMode, GpuModeSource, Indexed, indexed, keep, place, sort_cards,
  integrated_card, panics, is_off, pick_primary, emit, choose, select_cards, gpu_desired,
}

place-cons : (x : Indexed) (ys : List Indexed) → place x ys ≢ []
unfolding place
place-cons x [] h = cc
place-cons x (y ∷ ys) h = ground arith

sort_cards-cons : (x : Indexed) (xs : List Indexed) → sort_cards (x ∷ xs) ≢ []
unfolding sort_cards
sort_cards-cons x xs = place-cons x (sort_cards xs)

sort_cards-nil : (xs : List Indexed) → sort_cards xs ≡ [] → xs ≡ []
sort_cards-nil [] h = refl
sort_cards-nil (x ∷ xs) h = absurd (sort_cards-cons x xs h)

-- Two cards cannot both carry one index.
others-some :
    (i : ℕ) (cards : List GpuCard)
    → ltb (length cards) 2 ≡ false
    → keep (λ c. not (c.0 == i)) (indexed 0 cards) ≢ []
unfolding keep indexed
others-some i [] h k = ground arith
others-some i (a ∷ []) h k = ground arith
others-some i (a ∷ (b ∷ cs)) h k = ground arith

emit-safe :
    (snap : GpuSnapshot) (mode : GpuMode) (source : GpuModeSource) (integrated best : Indexed)
    (discretes : List Indexed)
    → is_off mode ≡ false
    → (emit snap mode integrated discretes (pick_primary mode source integrated best)).1 ≢ panics
unfolding emit pick_primary
emit-safe snap mode source integrated best discretes h k = ground arith

choose-safe :
    (snap : GpuSnapshot) (mode : GpuMode) (source : GpuModeSource) (integrated : Indexed)
    (ds : List Indexed)
    → is_off mode ≡ false
    → ds ≢ []
    → (choose snap mode source integrated ds).1 ≢ panics
unfolding choose
choose-safe snap mode source integrated [] h n k = n refl
choose-safe snap mode source integrated (best ∷ rest) h n k =
    emit-safe snap mode source integrated best (best ∷ rest) h k

select_cards-safe :
    (snap : GpuSnapshot) (mode : GpuMode) (source : GpuModeSource) (o : Option Indexed)
    → is_off mode ≡ false
    → ltb (length snap.cards) 2 ≡ false
    → (select_cards snap mode source o).1 ≢ panics
unfolding select_cards
select_cards-safe snap mode source none h n k = cc
select_cards-safe snap mode source (some integrated) h n k = ground (
  arith,
  choose-safe snap mode source integrated
      (sort_cards (keep (λ c. not (c.0 == integrated.0)) (indexed 0 snap.cards))) h
      (λ e. others-some integrated.0 snap.cards n (sort_cards-nil _ e)),
)

-- No snapshot, mode or source makes the selection index out of bounds or reach its
-- `unreachable!()`.
pub gpu_desired-safe :
    (snap : GpuSnapshot) (mode : GpuMode) (source : GpuModeSource)
    → (gpu_desired snap mode source).1 ≢ panics
unfolding gpu_desired
gpu_desired-safe snap mode source k = elim (Bool-cases (is_off mode)) [
  | inl o ↦ ground arith
  | inr o ↦ elim (Bool-cases (ltb (length snap.cards) 2)) [
    | inl few ↦ ground arith
    | inr many ↦
        ground (arith, select_cards-safe snap mode source (integrated_card snap.cards) o many)
  ]
]
