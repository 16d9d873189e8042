-- ===== src/Powerd/Tests.antt =====
-- The overlapping calls of `ApplyProfile` at concrete runs (src/powerd/mod.rs).
use hyprstate.Prelude.{codes, [], ◌∷◌, true}
use hyprstate.Power.{power_saver, balanced, performance, as_str}
use hyprstate.Powerd.{Power1, boot, request, decide, release, resume}

-- A performance call and a power-saver call overlap, a bad word comes between: the first call finds
-- itself superseded, and the machine resumes before the second one applies.
abbrev first_calls : Power1
first_calls =
    request (as_str power_saver)
      (request (codes "turbo") (request (as_str performance) (boot balanced)))

abbrev refused : Power1
refused = decide true performance (record first_calls { waiting = power_saver ∷ [] })

abbrev settled : Power1
settled = release power_saver (decide true power_saver (record (resume refused) { waiting = [] }))
