-- ===== src/ProfileCmd/Tests.antt =====
-- The migration at concrete directories.
use hyprstate.Prelude.{
  ◌≡◌, refl, true, false, Text, codes, text_eq, starts_with, is_empty, List, [], ◌∷◌, none, some,
  is_some,
}
use hyprstate.Daemon.Sources.Files.Route.{last_dot, extension}
use hyprstate.Gpu.{text_le}
use hyprstate.Daemon.Startup.{put_name, sort_names}
use hyprstate.ProfileCmd.{
  Tomls, Converter, SaveOpts, file_stem, same_stem, is_lua, is_legacy, legacy_only, dedup_from,
  dedup, legacy_files, put_toml, migrate_one, migrate_all, migrate, store_profile, survivor,
}
use hyprstate.ProfileCmd.Written.{Listed, migrate-Kept, migrate-stored}
use hyprstate.ProfileCmd.Loop.{Kept}

-- A profile is its text, and an empty one has no monitors.
abbrev copier : Converter Text
copier = record {
  body = λ name. some (codes "layout");
  to_profile = λ stem text. some text;
  bare = is_empty;
  to_toml = λ text. text;
  writable = λ stem. true;
}

abbrev plain : SaveOpts
plain = record { force = false; dry_run = false }

abbrev no_tomls : Tomls
no_tomls stem = none

abbrev twins : List Text
twins = codes "home.lua" ∷ codes "desk.conf" ∷ codes "home.conf" ∷ codes ".active.lua" ∷ []

lua_twin_displaces_conf : legacy_files none twins ≡ codes "desk.conf" ∷ codes "home.lua" ∷ []
unfolding legacy_files dedup dedup_from survivor sort_names put_name text_le legacy_only is_legacy
    is_lua same_stem file_stem extension last_dot text_eq starts_with
lua_twin_displaces_conf = refl

-- A dotted name sorts between the twins, so that both stay.
parted_twins :
    legacy_files none (codes "home.lua" ∷ codes "home.conf" ∷ codes "home.desk.conf" ∷ [])
    ≡ codes "home.conf" ∷ codes "home.desk.conf" ∷ codes "home.lua" ∷ []
unfolding legacy_files dedup dedup_from survivor sort_names put_name text_le legacy_only is_legacy
    is_lua same_stem file_stem extension last_dot text_eq starts_with
parted_twins = refl

migrate-Kept_example :
    Kept
      (Listed none twins)
      copier
      plain
      no_tomls
      (migrate copier plain (λ t. true) none twins no_tomls).1
      (codes "home")
migrate-Kept_example = migrate-Kept copier plain (λ t. true) none twins no_tomls (codes "home")

migrate-stored_example :
    is_some
      ((migrate copier plain (λ t. true) none twins no_tomls).1 (file_stem (codes "home.conf")))
    ≡ true
unfolding migrate migrate_all migrate_one put_toml store_profile legacy_files dedup dedup_from
    survivor sort_names put_name text_le legacy_only is_legacy is_lua same_stem file_stem extension
    last_dot text_eq starts_with
migrate-stored_example =
    migrate-stored copier plain (λ t. true) none twins no_tomls (codes "home.conf") refl refl refl
      refl
