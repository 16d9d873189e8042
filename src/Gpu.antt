-- ===== src/Gpu.antt =====
-- crates/hyprstate-fsm/src/gpu.rs: which GPU renders the session, as a pure function of a snapshot
-- of the cards. An index into `cards` goes with its card, as a pair.
use hyprstate.Prelude.{
  ℕ, suc, ◌≡◌, Bool, true, false, not, ◌&&◌, ◌||◌, Text, codes, text_eq, List, [], ◌∷◌, ◌++◌, map,
  Option, none, some, any, length, ltb, leb, ◌==◌, if◌then◌else◌,
}
pub mod Select
pub mod Lit
mod Tests

pub record GpuCard : Type 0 where
  pub path : Text
  pub card : Text
  pub boot_vga : ℕ
  pub vram : ℕ
  pub external : ℕ
  pub edp : ℕ

pub record GpuSnapshot : Type 0 where
  pub cards : List GpuCard
  pub non_pci_display : Bool
  pub lid_closed : Bool

pub data GpuMode : Type 0 where
  auto igpu dgpu off : GpuMode

pub data GpuModeSource : Type 0 where
  from_override from_profile from_platform from_default : GpuModeSource

-- The match on one word: what it decides, and whether it is unknown.
override_mode : Text → Option GpuMode × Bool
override_mode word =
    if text_eq word (codes "igpu")
    then (some igpu, false)
    else (if text_eq word (codes "dgpu")
        then (some dgpu, false)
        else (if text_eq word (codes "off")
            then (some off, false)
            else (none, not (text_eq word (codes "auto")))))

overlay_mode : Option Text → Option GpuMode
overlay_mode none = none
overlay_mode (some word) =
    if text_eq word (codes "igpu")
    then some igpu
    else (if text_eq word (codes "dgpu") then some dgpu else none)

platform_mode : Option Text → GpuMode × GpuModeSource
platform_mode none = (auto, from_default)
platform_mode (some word) =
    if text_eq word (codes "low-power") || text_eq word (codes "quiet")
    then (igpu, from_platform)
    else (if text_eq word (codes "performance")
        then (dgpu, from_platform)
        else (auto, from_default))

below_override : Option Text → Option Text → GpuMode × GpuModeSource
unfolding overlay_mode platform_mode
below_override overlay platform_word = elim (overlay_mode overlay) [
  | some mode ↦ (mode, from_profile)
  | none ↦ platform_mode platform_word
]

-- The mode, its source, and the unknown override words that are warned of.
unfoldable pub resolve_gpu_mode :
    Option Text → Option Text → Option Text → GpuMode × GpuModeSource × List Text
unfolding override_mode below_override
resolve_gpu_mode none overlay platform_word =
    let (mode, source) = below_override overlay platform_word in (mode, source, [])
resolve_gpu_mode (some word) overlay platform_word =
    let (decided, unknown) = override_mode word in
    let (mode, source) = below_override overlay platform_word in
    elim decided [
      | some m ↦ (m, from_override, [])
      | none ↦ (mode, source, if unknown then word ∷ [] else [])
    ]

abbrev pub Indexed : Type 0
Indexed = ℕ × GpuCard

unfoldable pub indexed : ℕ → List GpuCard → List Indexed
indexed i [] = []
indexed i (c ∷ cs) = (i, c) ∷ indexed (suc i) cs

unfoldable pub keep : (Indexed → Bool) → List Indexed → List Indexed
keep p [] = []
keep p (x ∷ xs) = let rest = keep p xs in if p x then x ∷ rest else rest

-- `cards.iter().map(|c| c.vram).min()`.
unfoldable pub min_vram : List GpuCard → Option ℕ
min_vram [] = none
min_vram (c ∷ cs) = elim (min_vram cs) [
  | none ↦ some c.vram
  | some m ↦ some (if leb c.vram m then c.vram else m)
]

agreeing : List Indexed → List Indexed → Option Indexed
agreeing by_vram (c ∷ []) = if any (λ d. d.0 == c.0) by_vram then some c else none
agreeing (v ∷ []) [] = some v
agreeing _ _ = none

unfoldable pub integrated_card : List GpuCard → Option Indexed
unfolding indexed keep min_vram agreeing
integrated_card cards = elim (min_vram cards) [
  | none ↦ none
  | some m ↦
      agreeing (keep (λ c. c.1.vram == m) (indexed 0 cards))
        (keep (λ c. c.1.boot_vga == 1) (indexed 0 cards))
]

unfoldable pub devnode : GpuCard → Text
devnode c = codes "/dev/dri/" ++ c.card

unfoldable pub dgpu_runtime_pm_pinned : GpuMode → Bool
dgpu_runtime_pm_pinned dgpu = true
dgpu_runtime_pm_pinned _ = false

-- `&ca.path <= &cb.path`.
unfoldable pub text_le : Text → Text → Bool
text_le [] t = true
text_le (x ∷ s) [] = false
text_le (x ∷ s) (y ∷ t) = ltb x y || (x == y && text_le s t)

-- The comparison of the sort: more external displays first, then more memory, then the path.
unfoldable pub sorts_before : Indexed → Indexed → Bool
unfolding text_le
sorts_before (i, a) (j, b) =
    ltb b.external a.external
    || (a.external == b.external
        && (ltb b.vram a.vram || (a.vram == b.vram && text_le a.path b.path)))

unfoldable pub place : Indexed → List Indexed → List Indexed
place x [] = x ∷ []
place x (y ∷ ys) = let rest = place x ys in if sorts_before x y then x ∷ y ∷ ys else y ∷ rest

-- `sort_by` is stable.
unfoldable pub sort_cards : List Indexed → List Indexed
sort_cards [] = []
sort_cards (x ∷ xs) = place x (sort_cards xs)

-- The reason strings. `panics` is an index out of bounds or the `unreachable!()`.
pub data Reason : Type 0 where
  override_off no_multi_gpu non_pci_display_present ambiguous_integrated : Reason
  bailed_transient dgpu_has_display dgpu_idle_listed panics : Reason
  igpu_by dgpu_by : GpuModeSource → Reason

has_display : Indexed → Bool
has_display c = ltb 0 c.1.external || ltb 0 c.1.edp

pick_primary : GpuMode → GpuModeSource → Indexed → Indexed → Option (Indexed × Reason)
unfolding has_display
pick_primary auto source integrated best =
    if has_display best then some (best, dgpu_has_display) else some (integrated, dgpu_idle_listed)
pick_primary igpu source integrated best = some (integrated, igpu_by source)
pick_primary dgpu source integrated best = some (best, dgpu_by source)
pick_primary off source integrated best = none

abbrev is_auto : GpuMode → Bool
is_auto auto = true
is_auto _ = false

abbrev is_off : GpuMode → Bool
is_off off = true
is_off _ = false

list_devices : GpuMode → Indexed → Indexed → List Indexed → List Indexed
unfolding keep has_display
list_devices mode integrated primary discretes =
    (primary ∷ (if integrated.0 == primary.0 then [] else integrated ∷ []))
    ++ keep (λ c. not (c.0 == primary.0) && (is_auto mode || has_display c)) discretes

usable : Bool → List Indexed → Bool
usable lid_closed devices =
    any (λ c. ltb 0 c.1.external) devices || (not lid_closed && any (λ c. ltb 0 c.1.edp) devices)

emit :
    GpuSnapshot
    → GpuMode
    → Indexed
    → List Indexed
    → Option (Indexed × Reason)
    → Option (List Text) × Reason
unfolding list_devices usable
emit snap mode integrated discretes none = (none, panics)
emit snap mode integrated discretes (some (primary, reason)) =
    let devices = list_devices mode integrated primary discretes in
    if usable snap.lid_closed devices
    then (some (map (λ c. devnode c.1) devices), reason)
    else (none, bailed_transient)

choose :
    GpuSnapshot → GpuMode → GpuModeSource → Indexed → List Indexed → Option (List Text) × Reason
unfolding emit pick_primary
choose snap mode source integrated [] = (none, panics)
choose snap mode source integrated (best ∷ rest) =
    emit snap mode integrated (best ∷ rest) (pick_primary mode source integrated best)

select_cards : GpuSnapshot → GpuMode → GpuModeSource → Option Indexed → Option (List Text) × Reason
unfolding choose
select_cards snap mode source none = (none, ambiguous_integrated)
select_cards snap mode source (some integrated) =
    if snap.lid_closed && not (any (λ c. ltb 0 c.external) snap.cards)
    then (none, bailed_transient)
    else choose snap mode source integrated
        (sort_cards (keep (λ c. not (c.0 == integrated.0)) (indexed 0 snap.cards)))

unfoldable pub gpu_desired : GpuSnapshot → GpuMode → GpuModeSource → Option (List Text) × Reason
unfolding select_cards
gpu_desired snap mode source =
    if is_off mode
    then (none, override_off)
    else (if ltb (length snap.cards) 2
        then (none, no_multi_gpu)
        else (if snap.non_pci_display
            then (none, non_pci_display_present)
            else select_cards snap mode source (integrated_card snap.cards)))
