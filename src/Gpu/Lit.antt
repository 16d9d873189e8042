-- ===== src/Gpu/Lit.antt =====
-- The cards of the list that `gpu_desired` writes (crates/hyprstate-fsm/src/gpu.rs): each is a card
-- of the snapshot, and on one of them a screen lights up.
use mathlib.Core.List.{Memᴰ}
use hyprstate.Prelude.{
  ◌≡◌, refl, ◌⊎◌, inl, inr, Bool, true, false, not, ◌&&◌, Option, none, some, List, [], ◌∷◌, map,
  arith, ℕ, suc, ltb, ◌==◌, length, any, All, Bool-cases, Option-cases, Text, ◌<◌, if◌then◌else◌,
}
use hyprstate.Gpu.{
  GpuCard, GpuSnapshot, GpuMode, auto, igpu, dgpu, off, GpuModeSource, Indexed, indexed, keep,
  place, sorts_before, sort_cards, min_vram, agreeing, integrated_card, devnode, Reason, is_off,
  has_display, pick_primary, list_devices, usable, emit, choose, select_cards, gpu_desired,
}

-- A display lights up on this card with the lid as it is.
abbrev pub Lights : Bool → GpuCard → Type 0
Lights lid_closed c = (0 < c.external) ⊎ ((lid_closed ≡ false) × (0 < c.edp))

any_sound :
    (p : Indexed → Bool) (xs : List Indexed)
    → any p xs ≡ true
    → (x : Indexed) × Memᴰ x xs × (p x ≡ true)
any_sound p [] h = absurd (clash h)
  where
    clash : false ≡ true → ⊥
    clash e = cc
any_sound p (x ∷ xs) h = elim (Bool-cases (p x)) [
  | inl e ↦ (x, Memᴰ.head refl, e)
  | inr e ↦ (let (y, m, q) = any_sound p xs (rest e h) in (y, Memᴰ.tail m, q))
]
  where
    rest : p x ≡ false → any p (x ∷ xs) ≡ true → any p xs ≡ true
    rest e h = ground arith

usable-Lights :
    (lid : Bool) (ds : List Indexed)
    → usable lid ds ≡ true
    → (x : Indexed) × Memᴰ x ds × Lights lid x.1
unfolding usable
usable-Lights lid ds h = elim (Bool-cases (any (λ (c : Indexed). ltb 0 c.1.external) ds)) [
  | inl e ↦ (let (x, m, p) = any_sound (λ c. ltb 0 c.1.external) ds e in (x, m, inl (ground arith)))
  | inr e ↦
      (let (x, m, p) = any_sound (λ c. ltb 0 c.1.edp) ds (ground arith) in
        (x, m, inr (ground arith, ground arith)))
]

-- A card of the list of cards, whatever its index.
abbrev pub Known : List GpuCard → Indexed → Type 0
Known cards x = Memᴰ x.1 cards

module _ (cards : List GpuCard) where
  abbrev AllKnown : List Indexed → Type 0
  AllKnown = All (Known cards)

  abbrev OneKnown : Option Indexed → Type 0
  OneKnown none = Unit {0}
  OneKnown (some x) = Known cards x

  keep-Known : (p : Indexed → Bool) (xs : List Indexed) → AllKnown xs → AllKnown (keep p xs)
  unfolding keep
  keep-Known p [] h = tt
  keep-Known p (x ∷ xs) (h, hs) = elim (Bool-cases (p x)) [
    | inl e ↦ rw e (h, keep-Known p xs hs)
    | inr e ↦ rw e (keep-Known p xs hs)
  ]

  place-Known :
      (x : Indexed) (ys : List Indexed) → Known cards x → AllKnown ys → AllKnown (place x ys)
  unfolding place
  place-Known x [] h hs = (h, tt)
  place-Known x (y ∷ ys) h (k, ks) = elim (Bool-cases (sorts_before x y)) [
    | inl e ↦ rw e (h, (k, ks))
    | inr e ↦ rw e (k, place-Known x ys h ks)
  ]

  sort_cards-Known : (xs : List Indexed) → AllKnown xs → AllKnown (sort_cards xs)
  unfolding sort_cards
  sort_cards-Known [] h = tt
  sort_cards-Known (x ∷ xs) (h, hs) = place-Known x (sort_cards xs) h (sort_cards-Known xs hs)

  indexed-Known :
      (i : ℕ) (cs : List GpuCard)
      → ((c : GpuCard) → Memᴰ c cs → Memᴰ c cards)
      → AllKnown (indexed i cs)
  unfolding indexed
  indexed-Known i [] f = tt
  indexed-Known i (c ∷ cs) f =
      (f c (Memᴰ.head refl), indexed-Known (suc i) cs (λ d m. f d (Memᴰ.tail m)))

  all-Known : AllKnown (indexed 0 cards)
  all-Known = indexed-Known 0 cards (λ c m. m)

  if-Known : (b : Bool) (x : Indexed) → Known cards x → OneKnown (if b then some x else none)
  if-Known true x h = h
  if-Known false x h = tt

  agreeing-Known : (vs cs : List Indexed) → AllKnown vs → AllKnown cs → OneKnown (agreeing vs cs)
  unfolding agreeing
  agreeing-Known vs (c ∷ []) h (k, ks) = if-Known (any (λ d. d.0 == c.0) vs) c k
  agreeing-Known (v ∷ []) [] (h, hs) k = h
  agreeing-Known [] [] h k = tt
  agreeing-Known (v ∷ (w ∷ vs)) [] h k = tt
  agreeing-Known vs (c ∷ (d ∷ cs)) h k = tt

  integrated_card-Known : OneKnown (integrated_card cards)
  unfolding integrated_card
  integrated_card-Known = elim (Option-cases (min_vram cards)) [
    | inl e ↦ rw (e, integrated_card) tt
    | inr (m, e) ↦
        rw (e, integrated_card)
          (agreeing-Known (keep (λ c. c.1.vram == m) (indexed 0 cards))
            (keep (λ c. c.1.boot_vga == 1) (indexed 0 cards))
            (keep-Known (λ c. c.1.vram == m) (indexed 0 cards) all-Known)
            (keep-Known (λ c. c.1.boot_vga == 1) (indexed 0 cards) all-Known))
  ]

  list_devices-Known :
      (mode : GpuMode) (integrated primary : Indexed) (ds : List Indexed)
      → Known cards integrated
      → Known cards primary
      → AllKnown ds
      → AllKnown (list_devices mode integrated primary ds)
  unfolding list_devices
  list_devices-Known mode integrated primary ds h k hs =
      elim (Bool-cases (integrated.0 == primary.0)) [
        | inl e ↦ rw e (k, keep-Known _ ds hs)
        | inr e ↦ rw e (k, (h, keep-Known _ ds hs))
      ]

-- A written list names the nodes of some cards of the snapshot, one of which lights up a display.
abbrev pub Lit : GpuSnapshot → Option (List Text) → Type 0
Lit snap none = Unit {0}
Lit snap (some names) =
    (ds : List Indexed) × (names ≡ map (λ (c : Indexed). devnode c.1) ds)
    × All (Known snap.cards) ds
    × (x : Indexed) × Memᴰ x ds
    × Lights snap.lid_closed x.1

emit-Lit :
    (snap : GpuSnapshot) (mode : GpuMode) (integrated : Indexed) (ds : List Indexed)
    (primary : Indexed) (reason : Reason)
    → Known snap.cards integrated
    → Known snap.cards primary
    → All (Known snap.cards) ds
    → Lit snap (emit snap mode integrated ds (some (primary, reason))).0
unfolding emit
emit-Lit snap mode integrated ds primary reason h k hs =
    elim (Bool-cases (usable snap.lid_closed (list_devices mode integrated primary ds))) [
      | inl e ↦
          (let (x, m, l) =
              usable-Lights snap.lid_closed (list_devices mode integrated primary ds) e in
            rw e (
              list_devices mode integrated primary ds,
              refl,
              list_devices-Known snap.cards mode integrated primary ds h k hs,
              x,
              m,
              l,
            ))
      | inr e ↦ rw e tt
    ]

pick_primary-Known :
    (snap : GpuSnapshot) (mode : GpuMode) (source : GpuModeSource) (integrated best : Indexed)
    (ds : List Indexed)
    → Known snap.cards integrated
    → Known snap.cards best
    → All (Known snap.cards) ds
    → Lit snap (emit snap mode integrated ds (pick_primary mode source integrated best)).0
unfolding pick_primary emit
pick_primary-Known snap auto source integrated best ds h k hs =
    elim (Bool-cases (has_display best)) [
      | inl e ↦ rw e (emit-Lit snap auto integrated ds best _ h k hs)
      | inr e ↦ rw e (emit-Lit snap auto integrated ds integrated _ h h hs)
    ]
pick_primary-Known snap igpu source integrated best ds h k hs =
    emit-Lit snap igpu integrated ds integrated _ h h hs
pick_primary-Known snap dgpu source integrated best ds h k hs =
    emit-Lit snap dgpu integrated ds best _ h k hs
pick_primary-Known snap off source integrated best ds h k hs = tt

choose-Lit :
    (snap : GpuSnapshot) (mode : GpuMode) (source : GpuModeSource) (integrated : Indexed)
    (ds : List Indexed)
    → Known snap.cards integrated
    → All (Known snap.cards) ds
    → Lit snap (choose snap mode source integrated ds).0
unfolding choose
choose-Lit snap mode source integrated [] h hs = tt
choose-Lit snap mode source integrated (best ∷ rest) h (k, ks) =
    pick_primary-Known snap mode source integrated best (best ∷ rest) h k (k, ks)

if-Lit :
    (snap : GpuSnapshot) (b : Bool) (r s : Option (List Text) × Reason)
    → Lit snap r.0
    → Lit snap s.0
    → Lit snap (if b then r else s).0
if-Lit snap true r s p q = p
if-Lit snap false r s p q = q

select_cards-Lit :
    (snap : GpuSnapshot) (mode : GpuMode) (source : GpuModeSource) (o : Option Indexed)
    → OneKnown snap.cards o
    → Lit snap (select_cards snap mode source o).0
unfolding select_cards
select_cards-Lit snap mode source none h = tt
select_cards-Lit snap mode source (some integrated) h =
    if-Lit snap (snap.lid_closed && not (any (λ c. ltb 0 c.external) snap.cards)) _ _ tt (
      choose-Lit snap mode source integrated _ h
        (sort_cards-Known snap.cards _ (keep-Known snap.cards _ _ (all-Known snap.cards))))

-- A device list is written only where every card that it names is one of the snapshot, and one of
-- them has an external display, or a built-in panel under an open lid.
pub gpu_desired-Lit :
    (snap : GpuSnapshot) (mode : GpuMode) (source : GpuModeSource)
    → Lit snap (gpu_desired snap mode source).0
unfolding gpu_desired
gpu_desired-Lit snap mode source = if-Lit snap (is_off mode) _ _ tt (
    if-Lit snap (ltb (length snap.cards) 2) _ _ tt (
      if-Lit snap snap.non_pci_display _ _ tt (
        select_cards-Lit snap mode source (integrated_card snap.cards)
          (integrated_card-Known snap.cards))))
