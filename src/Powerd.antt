-- ===== src/Powerd.antt =====
-- src/powerd/mod.rs: the root helper's `ApplyProfile`. The runtime has one thread, so what stands
-- between two awaits is one step: a call is parsed and stored, it is granted the lock and decides,
-- and it ends once its signals are emitted. A resume from sleep is one step too. The knobs stand for
-- the profile that `powerd_apply` was last given.
pub mod Coalesce
pub mod Knobs
mod Tests
use hyprstate.Prelude.{
  Bool, true, false, Text, List, [], ◌∷◌, ◌++◌, Option, none, some, option_eq, if◌then◌else◌, ◌≡◌,
}
use hyprstate.Power.{PowerProfile, profile_eq, from_str}

pub data Reply : Type 0 where
  applied : PowerProfile → Reply
  superseded_by : Option PowerProfile → Reply
  invalid_profile : Reply

-- `waiting` are the calls that wait for the lock, `holding` the one that emits its signals under it.
-- `persisted` is what a restart would read. The newest call and the newest reply come first.
pub record Power1 : Type 0 where
  pub active : PowerProfile
  pub latest : Option PowerProfile
  pub waiting : List PowerProfile
  pub holding : Option PowerProfile
  pub knobs : PowerProfile
  pub persisted : PowerProfile
  pub calls : List Text
  pub replies : List Reply

abbrev queued : Option PowerProfile → Power1 → Power1
queued none s = record s { replies = invalid_profile ∷ s.replies }
queued (some p) s = record s { latest = some p; waiting = s.waiting ++ p ∷ [] }

-- `apply_profile` up to its lock.
unfoldable pub request : Text → Power1 → Power1
request word s = queued (from_str word) (record s { calls = word ∷ s.calls })

-- Under the lock, up to the first signal. `saved` tells whether the state file was written.
unfoldable pub decide : Bool → PowerProfile → Power1 → Power1
decide saved p s =
    if option_eq profile_eq s.latest (some p)
    then record s {
      knobs = p;
      active = p;
      persisted = if saved then p else s.persisted;
      holding = some p;
    }
    else record s { replies = superseded_by s.latest ∷ s.replies }

-- The signals are out and the lock is free again.
unfoldable pub release : PowerProfile → Power1 → Power1
release p s = record s { holding = none; replies = applied p ∷ s.replies }

-- `PrepareForSleep(false)`: the active profile is applied again, without the lock.
unfoldable pub resume : Power1 → Power1
resume s = record s { knobs = s.active }

-- `run` up to its loop: the persisted profile is applied.
unfoldable pub boot : PowerProfile → Power1
boot p = record {
  active = p;
  latest = none;
  waiting = [];
  holding = none;
  knobs = p;
  persisted = p;
  calls = [];
  replies = [];
}

-- Any waiting call may be granted the lock once it is free.
pub data Step (s : Power1) : Power1 → Type 0 where
  asks : (word : Text) → Step s (request word s)
  granted :
      (saved : Bool) (before after : List PowerProfile) (p : PowerProfile)
      → s.waiting ≡ before ++ p ∷ after
      → s.holding ≡ none
      → Step s (decide saved p (record s { waiting = before ++ after }))
  emitted : (p : PowerProfile) → s.holding ≡ some p → Step s (release p s)
  resumed : Step s (resume s)

pub data Reach : Power1 → Type 0 where
  started : (p : PowerProfile) → Reach (boot p)
  next : {s t : Power1} → Reach s → Step s t → Reach t
