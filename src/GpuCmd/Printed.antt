-- ===== src/GpuCmd/Printed.antt =====
-- What `gpu select` and `gpu check` print and record (src/cli/gpu.rs, src/sysio/gpu_state.rs).
use hyprstate.Prelude.{
  ◌≡◌, refl, ap, subst, ◌∙◌, Bool, true, false, not, ◌&&◌, Text, text_eq, text_eq_iff, any, all,
  unwrap_or, List, [], ◌∷◌, map, Option, none, some, arith, if◌then◌else◌,
}
use hyprstate.Gpu.{GpuSnapshot, GpuMode, GpuModeSource, Reason, gpu_desired, devnode}
use hyprstate.Gpu.Lit.{Lit, gpu_desired-Lit}
use hyprstate.GpuCmd.{
  RunReason, if_all, GpuStateFile, Ran, left_out, validated, settled_snapshot, write_gpu_state,
  gpu_run,
}

abbrev pub recorded_devices : Option GpuStateFile → Option (List Text)
recorded_devices none = none
recorded_devices (some f) = some f.devices

-- A list that is printed: the choice for the snapshot, with every device there; each is the node of a
-- card of the snapshot, one of which lights a display; and select records the list.
pub record Sound (select : Bool) (mode : GpuMode) (source : GpuModeSource) (exists : Text → Bool)
    (r : Ran) (list : List Text) : Type 0 where
  pub choice : (gpu_desired r.snapshot mode source).0 ≡ some list
  pub there : all exists list ≡ true
  pub lit : Lit r.snapshot (some list)
  pub recorded : select ≡ true → recorded_devices r.written ≡ some list

kept :
    (exists : Text → Bool) (ds : List Text) (reason : Reason) (list : List Text) (b : Bool)
    → all exists ds ≡ b
    → (if_all b ds reason).0 ≡ some list
    → (some ds ≡ some list) × (all exists list ≡ true)
kept exists ds reason list true e h =
    (h, subst (λ l. all exists l ≡ true) (ap (λ o. unwrap_or o []) h) e)
kept exists ds reason list false e h = absurd (ground (arith, h))

validated-some :
    (exists : Text → Bool) (d : Option (List Text) × Reason) (list : List Text)
    → (validated exists d).0 ≡ some list
    → (d.0 ≡ some list) × (all exists list ≡ true)
validated-some exists (none, reason) list h = absurd (ground (arith, h))
validated-some exists (some ds, reason) list h = kept exists ds reason list (all exists ds) refl h

wrote :
    (select : Bool) (f : GpuStateFile)
    → select ≡ true
    → recorded_devices (if select then some f else none) ≡ some f.devices
wrote select f e = rw e refl

-- A list that is printed is the choice for the snapshot that the run settled on; every device in it is
-- there and is the node of a card of that snapshot, one of these cards has an external display, or a
-- built-in panel under an open lid, and select records the same list.
pub gpu_run-Sound :
    (select : Bool) (mode : GpuMode) (source : GpuModeSource) (exists : Text → Bool)
    (first second : GpuSnapshot) (list : List Text)
    → (gpu_run select mode source exists first second).printed ≡ some list
    → Sound select mode source exists (gpu_run select mode source exists first second) list
unfolding gpu_run write_gpu_state
gpu_run-Sound select mode source exists first second list h =
    let snap = settled_snapshot select mode source first second in
    let (choice, there) = validated-some exists (gpu_desired snap mode source) list h in
    record {
      choice = choice;
      there = there;
      lit = subst (Lit snap) choice (gpu_desired-Lit snap mode source);
      recorded = λ e. wrote select _ e ∙ ap (λ o. some (unwrap_or o [])) h;
    }

same_any :
    (d e : Text) (list : List Text)
    → text_eq d e ≡ true
    → any (text_eq d) list ≡ any (text_eq e) list
same_any d e list h = ap (λ t. any (text_eq t) list) ((text_eq_iff d e).0 h)

left_out_lem :
    (devices : Option (List Text)) (d : Text) (ds : List Text)
    → any (text_eq d) (left_out devices ds)
      ≡ (any (text_eq d) ds && not (any (text_eq d) (unwrap_or devices [])))
unfolding left_out
left_out_lem devices d [] = refl
left_out_lem none d (e ∷ ds) = ground (arith, left_out_lem none d ds)
left_out_lem (some list) d (e ∷ ds) =
    ground (arith, left_out_lem (some list) d ds, same_any d e list)

-- Every card of the snapshot stands in the state file as a device or as omitted, and not as both.
pub write_gpu_state-splits :
    (mode : GpuMode) (reason : RunReason) (devices : Option (List Text)) (snap : GpuSnapshot)
    (d : Text)
    → any (text_eq d) (map devnode snap.cards) ≡ true
    → any (text_eq d) (write_gpu_state mode reason devices snap).omitted
      ≡ not (any (text_eq d) (write_gpu_state mode reason devices snap).devices)
unfolding write_gpu_state
write_gpu_state-splits mode reason devices snap d h =
    left_out_lem devices d (map devnode snap.cards) ∙ rw h refl
