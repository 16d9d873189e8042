-- ===== src/GpuCmd.antt =====
-- src/cli/gpu.rs and src/sysio/gpu_state.rs: `gpu select` and `gpu check`, which print a device list or
-- nothing, and the state file that select writes.
pub mod Cards
pub mod Printed
mod Tests
use hyprstate.Prelude.{
  ℕ, suc, ltb, ◌==◌, Bool, true, false, not, ◌&&◌, ◌||◌, Text, codes, text_eq, any, all, length,
  unwrap_or, List, [], ◌∷◌, map, Option, none, some, is_some, option_eq, if◌then◌else◌,
}
use hyprstate.Gpu.{
  GpuCard, GpuSnapshot, GpuMode, GpuModeSource, Reason, bailed_transient, Indexed, integrated_card,
  devnode, gpu_desired, resolve_gpu_mode, text_le,
}
use hyprstate.Sysio.{read_first_word}
use hyprstate.Powerd.Knobs.Rows.{pci_key}

-- The reason that is recorded: that of the choice, or a device that is not there.
pub data RunReason : Type 0 where
  chosen : Reason → RunReason
  validation_failed : RunReason

pub record CardRecord : Type 0 where
  pub kind : Text
  pub boot_vga : ℕ
  pub vram : ℕ
  pub external : ℕ
  pub edp : ℕ

-- The state file, whose version is 1 always. `records` is its map of the cards, in the keys' order.
pub record GpuStateFile : Type 0 where
  pub mode : GpuMode
  pub reason : RunReason
  pub primary : Option Text
  pub devices : List Text
  pub omitted : List Text
  pub records : List (Text × CardRecord)

-- An insert into a `BTreeMap`: an equal key's value is replaced.
unfoldable pub put_record : Text → CardRecord → List (Text × CardRecord) → List (Text × CardRecord)
put_record k v [] = (k, v) ∷ []
put_record k v ((l, w) ∷ rs) =
    let rest = put_record k v rs in
    if text_eq k l
    then (k, v) ∷ rs
    else (if text_le k l then (k, v) ∷ (l, w) ∷ rs else (l, w) ∷ rest)

abbrev pub index_of : Option Indexed → Option ℕ
index_of none = none
index_of (some (i, c)) = some i

-- With less than two cards none is called integrated.
unfoldable pub integrated_index : List GpuCard → Option ℕ
unfolding integrated_card
integrated_index cards = if ltb (length cards) 2 then none else index_of (integrated_card cards)

abbrev pub card_record : Bool → GpuCard → CardRecord
card_record integrated c = record {
  kind = if integrated then codes "integrated" else codes "discrete";
  boot_vga = c.boot_vga;
  vram = c.vram;
  external = c.external;
  edp = c.edp;
}

-- The cards are collected in their order.
unfoldable pub put_records :
    Option ℕ → ℕ → List GpuCard → List (Text × CardRecord) → List (Text × CardRecord)
unfolding put_record pci_key
put_records integrated i [] rs = rs
put_records integrated i (c ∷ cards) rs =
    put_records integrated (suc i) cards
      (put_record (pci_key c.path) (card_record (option_eq ◌==◌ integrated (some i)) c) rs)

unfoldable pub left_out : Option (List Text) → List Text → List Text
left_out devices [] = []
left_out devices (d ∷ ds) =
    let rest = left_out devices ds in
    if not (is_some devices) || not (any (text_eq d) (unwrap_or devices [])) then d ∷ rest else rest

abbrev pub first_device : List Text → Option Text
first_device [] = none
first_device (d ∷ ds) = some d

unfoldable pub write_gpu_state :
    GpuMode → RunReason → Option (List Text) → GpuSnapshot → GpuStateFile
unfolding put_records integrated_index left_out
write_gpu_state mode reason devices snap =
    let device_list = unwrap_or devices [] in
    record {
      mode = mode;
      reason = reason;
      primary = first_device device_list;
      devices = device_list;
      omitted = left_out devices (map devnode snap.cards);
      records = put_records (integrated_index snap.cards) 0 snap.cards [];
    }

-- The bodies of the three files that the mode is resolved from.
unfoldable pub resolve_mode_from_files :
    Option Text → Option Text → Option Text → GpuMode × GpuModeSource × List Text
unfolding read_first_word resolve_gpu_mode
resolve_mode_from_files override_file overlay_file platform_file =
    resolve_gpu_mode (read_first_word override_file) (read_first_word overlay_file)
      (read_first_word platform_file)

-- What one run printed and wrote, and the snapshot that it settled on.
pub record Ran : Type 0 where
  pub snapshot : GpuSnapshot
  pub printed : Option (List Text)
  pub written : Option GpuStateFile

abbrev pub is_transient : Option (List Text) × Reason → Bool
is_transient (none, bailed_transient) = true
is_transient _ = false

abbrev pub if_all : Bool → List Text → Reason → Option (List Text) × RunReason
if_all there list reason = if there then (some list, chosen reason) else (none, validation_failed)

-- All or nothing: one device that does not exist drops the list.
abbrev pub validated : (Text → Bool) → Option (List Text) × Reason → Option (List Text) × RunReason
validated exists (none, reason) = (none, chosen reason)
validated exists (some list, reason) = if_all (all exists list) list reason

-- The first snapshot, or a second one after the settle time.
unfoldable pub settled_snapshot :
    Bool → GpuMode → GpuModeSource → GpuSnapshot → GpuSnapshot → GpuSnapshot
unfolding gpu_desired
settled_snapshot select mode source first second =
    if select && is_transient (gpu_desired first mode source) then second else first

-- `select` is whether the action is "select"; every other action but "status" checks.
unfoldable pub gpu_run :
    Bool → GpuMode → GpuModeSource → (Text → Bool) → GpuSnapshot → GpuSnapshot → Ran
unfolding write_gpu_state settled_snapshot
gpu_run select mode source exists first second =
    let snap = settled_snapshot select mode source first second in
    let (devices, reason) = validated exists (gpu_desired snap mode source) in
    record {
      snapshot = snap;
      printed = devices;
      written = if select then some (write_gpu_state mode reason devices snap) else none;
    }
