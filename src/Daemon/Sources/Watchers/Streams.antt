-- ===== src/Daemon/Sources/Watchers/Streams.antt =====
-- A watcher of src/daemon/sources that subscribes again and again, against one stream of all values.
use hyprstate.Prelude.{
  ℕ, zero, suc, ◌+◌, ◌-◌, ◌≡◌, refl, ap, ◌∙◌, sym, leb, length, take, take-append_within,
  take-append_past, take-nil, take-all, length-append, zero_off, suc_off, ◌≤◌, ◌<◌, List, [], ◌∷◌,
  ◌++◌, Option, none, some, arith, Bool-cases, inl, inr, leb→le,
}
use hyprstate.Daemon.Sources.Watchers.Loop.{Heard, hear, go_on, watch, subscribe}

off_twice : (n a b : ℕ) → n - a - b ≡ n - (a + b)
off_twice n a b = omega arith

-- The values of all streams, in order.
abbrev pub joined {ℓ} : {X : Type ℓ} → List (Option (List X)) → List X
joined [] = []
joined (none ∷ streams) = joined streams
joined (some xs ∷ streams) = xs ++ joined streams

module _ {ℓ κ μ} {S : Type ℓ} {X : Type μ} {E : Type κ} (step : S → X → S × Option E) where
  abbrev pub final : S → List X → S
  final s [] = s
  final s (x ∷ xs) = final (step s x).0 xs

  abbrev pub told_then : Option E → List E → List E
  told_then none es = es
  told_then (some e) es = e ∷ es

  -- What a task sends that the dispatcher never leaves.
  abbrev pub outputs : S → List X → List E
  outputs s [] = []
  outputs s (x ∷ xs) = told_then (step s x).1 (outputs (step s x).0 xs)

  final-append : (s : S) (xs ys : List X) → final s (xs ++ ys) ≡ final (final s xs) ys
  final-append s [] ys = refl
  final-append s (x ∷ xs) ys = final-append (step s x).0 xs ys

  told_then-append : (o : Option E) (es fs : List E) → told_then o (es ++ fs) ≡ told_then o es ++ fs
  told_then-append none es fs = refl
  told_then-append (some e) es fs = refl

  outputs-append :
      (s : S) (xs ys : List X) → outputs s (xs ++ ys) ≡ outputs s xs ++ outputs (final s xs) ys
  outputs-append s [] ys = refl
  outputs-append s (x ∷ xs) ys =
      ap (told_then (step s x).1) (outputs-append (step s x).0 xs ys)
      ∙ told_then-append (step s x).1 (outputs (step s x).0 xs) _

  -- What a task sends, with the room that it had.
  record Sends (room : ℕ) (es : List E) (t : S) (h : Heard S E) : Type (ℓ ⊔ κ) where
    sent : h.sent ≡ take room es
    over : room < length es → h.left ≡ none
    there : length es ≤ room → (h.left ≡ some (room - length es)) × (h.state ≡ t)

  hear-Sends :
      (o : Option E) (room : ℕ) (s t : S) (es : List E) (rest : ℕ → Heard S E)
      → ((r : ℕ) → Sends r es t (rest r))
      → Sends room (told_then o es) t (hear step o room s rest)
  hear-Sends none room s t es rest h = h room
  hear-Sends (some e) zero s t es rest h = record {
    sent = refl;
    over = λ k. refl;
    there = λ k. absurd (omega arith);
  }
  hear-Sends (some e) (suc r) s t es rest h = record {
    sent = ap (λ l. e ∷ l) (h r).sent;
    over = λ k. (h r).over (omega arith);
    there = λ k. rw (suc_off r (length es)) ((h r).there (omega arith));
  }

  watch-Sends :
      (room : ℕ) (s : S) (xs : List X)
      → Sends room (outputs s xs) (final s xs) (watch step room s xs)
  unfolding watch
  watch-Sends room s [] = record {
    sent = sym (take-nil room);
    over = λ k. absurd (omega arith);
    there = λ k. (ap some (sym (zero_off room)), refl);
  }
  watch-Sends room s (x ∷ xs) =
      hear-Sends (step s x).1 room (step s x).0 _ _ _ (λ r. watch-Sends r (step s x).0 xs)

  -- One stream, up to the room.
  pub watch_sent :
      (room : ℕ) (s : S) (xs : List X) → (watch step room s xs).sent ≡ take room (outputs s xs)
  watch_sent room s xs = (watch-Sends room s xs).sent

  -- One stream: what is sent, and what is left where the dispatcher takes all of it.
  pub watch_lem :
      (room : ℕ) (s : S) (xs : List X)
      → length (outputs s xs) ≤ room
      → ((watch step room s xs).sent ≡ outputs s xs)
        × ((watch step room s xs).left ≡ some (room - length (outputs s xs)))
        × ((watch step room s xs).state ≡ final s xs)
  watch_lem room s xs h =
      let sends = watch-Sends room s xs in
      (sends.sent ∙ take-all room _ h, (sends.there h).0, (sends.there h).1)

  more :
      (room : ℕ) (es fs : List E) (t u : S) (h : Heard S E) (rest : ℕ → S → Heard S E)
      → Sends room es t h
      → ((r : ℕ) → Sends r fs u (rest r t))
      → length es ≤ room
      → Sends room (es ++ fs) u (go_on step h.left h rest)
  more room es fs t u h rest p q le =
      rw ((p.there le).0, (p.there le).1)
        record {
          sent =
              rw
                (
                  take-append_past room es fs le,
                  p.sent,
                  take-all room es le,
                  (q (room - length es)).sent,
                )
                refl;
          over = λ k. (q (room - length es)).over (omega (arith, length-append es fs));
          there = λ k.
              rw (length-append es fs, sym (off_twice room (length es) (length fs)))
                ((q (room - length es)).there (omega (arith, length-append es fs)));
        }

  go_on-Sends :
      (room : ℕ) (es fs : List E) (t u : S) (h : Heard S E) (rest : ℕ → S → Heard S E)
      → Sends room es t h
      → ((r : ℕ) → Sends r fs u (rest r t))
      → Sends room (es ++ fs) u (go_on step h.left h rest)
  go_on-Sends room es fs t u h rest p q = elim (Bool-cases (leb (length es) room)) [
    | inl k ↦ more room es fs t u h rest p q (leb→le _ _ k)
    | inr k ↦ rw (p.over (ground (arith, k))) record {
      sent = p.sent ∙ sym (take-append_within room es fs (ground (arith, k)));
      over = λ l. refl;
      there = λ l. absurd (ground (arith, k, length-append es fs));
    }
  ]

  subscribe-Sends :
      (room : ℕ) (s : S) (streams : List (Option (List X)))
      → Sends room
          (outputs s (joined streams))
          (final s (joined streams))
          (subscribe step room s streams)
  unfolding subscribe
  subscribe-Sends room s [] = watch-Sends room s []
  subscribe-Sends room s (none ∷ streams) = subscribe-Sends room s streams
  subscribe-Sends room s (some xs ∷ streams) =
      rw (outputs-append s xs (joined streams), final-append s xs (joined streams))
        (go_on-Sends room _ _ _ _ _ (λ r t. subscribe step r t streams) (watch-Sends room s xs)
          (λ r. subscribe-Sends r _ streams))

  -- Whatever subscriptions fail and whatever streams end: the events that are sent are those of one
  -- stream of all the values, up to the room.
  pub subscribe_lem :
      (room : ℕ) (s : S) (streams : List (Option (List X)))
      → (subscribe step room s streams).sent ≡ take room (outputs s (joined streams))
  subscribe_lem room s streams = (subscribe-Sends room s streams).sent

  -- A task that is still there has sent what one stream of all the values gives, and has its state.
  pub subscribe_whole :
      (room : ℕ) (s : S) (streams : List (Option (List X))) (k : ℕ)
      → (subscribe step room s streams).left ≡ some k
      → ((subscribe step room s streams).sent ≡ outputs s (joined streams))
        × ((subscribe step room s streams).state ≡ final s (joined streams))
  subscribe_whole room s streams k h =
      let sends = subscribe-Sends room s streams in
      elim (Bool-cases (leb (length (outputs s (joined streams))) room)) [
        | inl l ↦ (sends.sent ∙ take-all room _ (leb→le _ _ l), (sends.there (leb→le _ _ l)).1)
        | inr l ↦ absurd (ground (arith, h, sends.over (ground (arith, l))))
      ]
