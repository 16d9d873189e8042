-- ===== src/Prelude/Results.antt =====
-- Results: a value, or the reason why there is none.
pub data Result {ℓ κ} (E : Type κ) (A : Type ℓ) : Type (ℓ ⊔ κ) where
  ok : A → Result E A
  err : E → Result E A

-- `r?` in a function whose other exits return a value.
abbrev pub map_ok {ℓ κ ι} :
    {E : Type κ} {A : Type ℓ} {B : Type ι} → (A → B) → Result E A → Result E B
map_ok f (ok a) = ok (f a)
map_ok f (err e) = err e
