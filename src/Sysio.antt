-- ===== src/Sysio.antt =====
-- src/sysio/sysfs.rs: the readers of sysfs, which `gpu select`, the reconciler and the start use.
-- Directory entries and the bodies of their files are given; a file that cannot be read is none.
use hyprstate.Prelude.{
  ℕ, suc, ◌+◌, ◌-◌, ◌*◌, ◌%◌, ◌^◌, ltb, leb, ◌==◌, Bool, false, not, ◌&&◌, ◌||◌, Text, codes,
  text_eq, starts_with, strip_prefix, trim, cut, is_empty, is_space, any, unwrap_or, List, [], ◌∷◌,
  ◌++◌, Option, none, some, if◌then◌else◌,
}
use hyprstate.Gpu.{GpuCard, GpuSnapshot, text_le}
use hyprstate.Daemon.Sources.Uevent.{contains}

-- `split_whitespace().next()`.
unfoldable pub leading_word : Text → Text
leading_word [] = []
leading_word (c ∷ t) = let rest = leading_word t in if is_space c then [] else c ∷ rest

unfoldable pub skip_space : Text → Text
skip_space [] = []
skip_space (c ∷ t) = let rest = skip_space t in if is_space c then rest else c ∷ t

abbrev pub if_any : Text → Option Text
if_any [] = none
if_any (c ∷ t) = some (c ∷ t)

unfoldable pub read_first_word : Option Text → Option Text
unfolding leading_word skip_space
read_first_word none = none
read_first_word (some text) = if_any (leading_word (skip_space text))

abbrev pub digit_value : ℕ → Option ℕ
digit_value c =
    if leb b'0' c && leb c b'9'
    then some (c - b'0')
    else (if leb b'a' c && leb c b'f'
        then some (c - b'a' + 10)
        else (if leb b'A' c && leb c b'F' then some (c - b'A' + 10) else none))

abbrev pub in_radix : ℕ → Option ℕ → Option ℕ
in_radix radix none = none
in_radix radix (some v) = if ltb v radix then some v else none

-- Each step of `from_str_radix` fails on another character and where the number leaves a u64.
unfoldable pub scan_u64 : ℕ → Text → ℕ → Option ℕ
scan_u64 radix [] acc = some acc
scan_u64 radix (c ∷ t) acc = elim (in_radix radix (digit_value c)) [
  | none ↦ none
  | some v ↦
      let rest = scan_u64 radix t (acc * radix + v) in
      if ltb (acc * radix + v) (2 ^ 64) then rest else none
]

unfoldable pub from_str_radix : ℕ → Text → Option ℕ
unfolding scan_u64
from_str_radix radix [] = none
from_str_radix radix (c ∷ t) =
    if c == b'+'
    then (if is_empty t then none else scan_u64 radix t 0)
    else scan_u64 radix (c ∷ t) 0

abbrev pub hex_prefix : Option Text → Option Text → Option Text
hex_prefix none upper = upper
hex_prefix (some hex) upper = some hex

abbrev pub parsed : Text → Option Text → Option ℕ
unfolding from_str_radix
parsed s none = from_str_radix 10 s
parsed s (some hex) = from_str_radix 16 hex

unfoldable pub read_int : Option Text → ℕ → ℕ
unfolding parsed
read_int none default = default
read_int (some text) default =
    let s = trim text in
    unwrap_or (parsed s (hex_prefix (strip_prefix s (codes "0x")) (strip_prefix s (codes "0X"))))
      default

-- An entry of /sys/class/drm: its name, and the body of its status file.
pub record Connector : Type 0 where
  pub conn : Text
  pub status : Option Text

abbrev pub is_connected : Option Text → Bool
is_connected none = false
is_connected (some s) = text_eq (trim s) (codes "connected")

unfoldable pub of_card : Text → Connector → Bool
unfolding contains
of_card card c =
    starts_with c.conn (card ++ codes "-")
    && not (contains c.conn (codes "-Writeback-"))
    && is_connected c.status

-- The connected external outputs and built-in panels of a card.
unfoldable pub card_connectors : Text → List Connector → ℕ × ℕ
unfolding of_card contains
card_connectors card [] = (0, 0)
card_connectors card (c ∷ entries) =
    let (external, edp) = card_connectors card entries in
    if of_card card c
    then (if contains c.conn (codes "eDP") then (external, suc edp) else (suc external, edp))
    else (external, edp)

abbrev pub output_of : Connector → Option (Text × Text) → Option (Text × Text)
unfolding contains
output_of c none = none
output_of c (some (card, connector)) =
    if starts_with card (codes "card")
      && not (contains c.conn (codes "-Writeback-"))
      && is_connected c.status
    then some (connector, card)
    else none

-- The order of the pairs: by connector, then by card.
unfoldable pub pair_le : Text × Text → Text × Text → Bool
pair_le (a, b) (c, d) = if text_eq a c then text_le b d else text_le a c

unfoldable pub put_output : Text × Text → List (Text × Text) → List (Text × Text)
unfolding pair_le
put_output o [] = o ∷ []
put_output o (p ∷ ps) = let rest = put_output o ps in if pair_le o p then o ∷ p ∷ ps else p ∷ rest

unfoldable pub connected_outputs : List Connector → List (Text × Text)
unfolding output_of put_output
connected_outputs [] = []
connected_outputs (c ∷ entries) = elim (output_of c (cut b'-' c.conn)) [
  | none ↦ connected_outputs entries
  | some o ↦ put_output o (connected_outputs entries)
]

-- The first state file that can be read decides.
unfoldable pub lid_closed_sysfs : List (Option Text) → Bool
unfolding contains
lid_closed_sysfs [] = false
lid_closed_sysfs (none ∷ entries) = lid_closed_sysfs entries
lid_closed_sysfs (some text ∷ entries) = contains text (codes "closed")

-- An entry of /dev/dri/by-path: its path and name, the name of the device it leads to (empty where it
-- leads to none), and the files of that device.
pub record Link : Type 0 where
  pub path : Text
  pub name : Text
  pub card : Text
  pub class : Option Text
  pub boot_vga : Option Text
  pub vram : Option Text

unfoldable pub is_candidate : Link → Bool
unfolding contains
is_candidate l =
    starts_with l.name (codes "pci-")
    && not (contains l.name (codes "-usb-"))
    && not (contains l.name (codes "-usbv2-"))
    && starts_with (trim (unwrap_or l.class [])) (codes "0x03")

unfoldable pub put_link : Link → List Link → List Link
put_link l [] = l ∷ []
put_link l (m ∷ ms) =
    let rest = put_link l ms in if text_le l.path m.path then l ∷ m ∷ ms else m ∷ rest

-- `p.ends_with(suffix)`.
unfoldable pub ends_with : Text → Text → Bool
ends_with [] p = is_empty p
ends_with (c ∷ t) p = let rest = ends_with t p in text_eq (c ∷ t) p || rest

unfoldable pub card_links : List Link → List Link
unfolding ends_with
card_links [] = []
card_links (l ∷ ls) =
    let rest = card_links ls in if ends_with l.path (codes "-card") then l ∷ rest else rest

unfoldable pub sort_links : List Link → List Link
unfolding put_link
sort_links [] = []
sort_links (l ∷ ls) = put_link l (sort_links ls)

-- `as u32`.
unfoldable pub gpu_card : Link → ℕ × ℕ → GpuCard
unfolding read_int
gpu_card l (external, edp) = record {
  path = l.path;
  card = l.card;
  boot_vga = read_int l.boot_vga 0 % 2 ^ 32;
  vram = read_int l.vram 0;
  external = external;
  edp = edp;
}

abbrev pub lit_up : ℕ × ℕ → Bool
lit_up (external, edp) = ltb 0 external || ltb 0 edp

abbrev pub passed_over : Text → List Text → Bool
passed_over card seen = not (starts_with card (codes "card")) || any (text_eq card) seen

-- The cards in order, and whether a device that is no candidate has a connected output.
unfoldable pub read_cards : List Connector → List Text → List Link → List GpuCard × Bool
unfolding is_candidate card_connectors gpu_card
read_cards entries seen [] = ([], false)
read_cards entries seen (l ∷ links) =
    let skipped = read_cards entries seen links in
    let (cards, shown) = read_cards entries (seen ++ l.card ∷ []) links in
    let outputs = card_connectors l.card entries in
    if passed_over l.card seen
    then skipped
    else (if is_candidate l
        then (gpu_card l outputs ∷ cards, shown)
        else (cards, lit_up outputs || shown))

unfoldable pub gpu_snapshot : List Connector → List (Option Text) → List Link → GpuSnapshot
unfolding read_cards sort_links card_links lid_closed_sysfs
gpu_snapshot entries lids links =
    let (cards, non_pci_display) = read_cards entries [] (sort_links (card_links links)) in
    record { cards = cards; non_pci_display = non_pci_display; lid_closed = lid_closed_sysfs lids }

-- The supplies whose type can be read, with the body of `online`, empty where it cannot be read.
unfoldable pub read_supplies : List (Option Text × Option Text) → List (Text × Text)
unfolding put_output
read_supplies [] = []
read_supplies ((none, online) ∷ entries) = read_supplies entries
read_supplies ((some kind, online) ∷ entries) =
    put_output (kind, unwrap_or online []) (read_supplies entries)

-- A supply is its type and whether it is online, as the two files say.
unfoldable pub on_ac_from_supplies : List (Text × Text) → Option Bool
on_ac_from_supplies [] = none
on_ac_from_supplies ((kind, online) ∷ supplies) =
    let rest = on_ac_from_supplies supplies in
    if text_eq (trim kind) (codes "Mains") then some (text_eq (trim online) (codes "1")) else rest

unfoldable pub on_ac_sysfs : Option (List (Option Text × Option Text)) → Option Bool
unfolding read_supplies on_ac_from_supplies
on_ac_sysfs none = none
on_ac_sysfs (some entries) = on_ac_from_supplies (read_supplies entries)
