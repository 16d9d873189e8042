-- ===== src/Profiles/Lua.antt =====
-- The argument vectors for hyprctl (crates/hyprstate-fsm/src/profiles.rs), and what the Lua string
-- literal in one of them means. The rules of the literal's reading are Lua's: a backslash takes the
-- next character with it, and the first quote without one ends the literal.
use mathlib.Core.List.{append_assoc}
use hyprstate.Prelude.{
  eqb→eq, sym, ℕ, ◌≡◌, refl, ap, ◌∙◌, arith, Bool, true, false, not, ◌||◌, ◌==◌, Text, codes, List,
  [], ◌∷◌, ◌++◌, Option, none, some, all, if◌then◌else◌, ℤ, print_i64,
}

abbrev pub edp_disable_args : Text → List Text
edp_disable_args monitor =
    codes "eval"
    ∷ (codes "hl.monitor({ output = \"" ++ monitor ++ codes "\", disabled = true })")
    ∷ []

-- What is pushed for one character.
unfoldable pub lua_char : ℕ → Text
lua_char c =
    if c == b'\\'
    then codes "\\\\"
    else (if c == b'"'
        then codes "\\\""
        else (if c == b'\n'
            then codes "\\n"
            else (if c == b'\r' then codes "\\r" else (if c == 0 then codes "\\0" else c ∷ []))))

unfoldable pub lua_body : Text → Text
lua_body [] = []
lua_body (c ∷ s) = lua_char c ++ lua_body s

unfoldable pub lua_string_literal : Text → Text
lua_string_literal s = b'"' ∷ lua_body s ++ b'"' ∷ []

abbrev pub apply_profile_args : Text → List Text
apply_profile_args lua_path =
    codes "eval" ∷ (codes "dofile(" ++ lua_string_literal lua_path ++ codes ")") ∷ []

abbrev pub dpms_on_args : List Text
dpms_on_args = codes "dispatch" ∷ codes "hl.dsp.dpms({ action = \"on\" })" ∷ []

abbrev pub move_workspace_to_monitor_args : ℤ → Text → List Text
move_workspace_to_monitor_args ws monitor =
    codes "dispatch"
    ∷ (codes "hl.dsp.workspace.move({ workspace = "
        ++ print_i64 ws
        ++ codes ", monitor = \""
        ++ monitor
        ++ codes "\" })")
    ∷ []

-- What follows the quote that ends a literal whose opening quote is read; `taken` says that the next
-- character belongs to a backslash. A raw line end, and a text that ends first, leave it open.
unfoldable pub close : Bool → Text → Option Text
close taken [] = none
close true (c ∷ s) = close false s
close false (c ∷ s) =
    let next = close (c == b'\\') s in
    if c == b'"' then some s else (if c == b'\n' || c == b'\r' then none else next)

-- The character that an escape stands for, of those that `lua_char` writes for a path.
abbrev pub meant : ℕ → ℕ
meant d = if d == b'n' then b'\n' else (if d == b'r' then b'\r' else d)

unfoldable pub unescape : Bool → Text → Text
unescape taken [] = []
unescape true (c ∷ s) = meant c ∷ unescape false s
unescape false (c ∷ s) = let rest = unescape (c == b'\\') s in if c == b'\\' then rest else c ∷ rest

-- A path has no NUL.
abbrev pub no_nul : Text → Bool
no_nul t = all (λ c. not (c == 0)) t

data Pushed (c : ℕ) : Text → Type 0 where
  raw :
      (c == b'\\') ≡ false
      → (c == b'"') ≡ false
      → (c == b'\n' || c == b'\r') ≡ false
      → Pushed c (c ∷ [])
  escaped : (d : ℕ) → meant d ≡ c → Pushed c (b'\\' ∷ d ∷ [])

Pushed-if :
    (b : Bool) {c : ℕ} {p q : Text}
    → (b ≡ true → Pushed c p)
    → (b ≡ false → Pushed c q)
    → Pushed c (if b then p else q)
Pushed-if true h k = h refl
Pushed-if false h k = k refl

lua_char-Pushed : (c : ℕ) → not (c == 0) ≡ true → Pushed c (lua_char c)
unfolding lua_char
lua_char-Pushed c h =
    Pushed-if (c == b'\\') (λ e. escaped b'\\' (sym (eqb→eq c b'\\' e)))
      λ s.
        Pushed-if (c == b'"') (λ e. escaped b'"' (sym (eqb→eq c b'"' e)))
          λ q.
            Pushed-if (c == b'\n') (λ e. escaped b'n' (sym (eqb→eq c b'\n' e)))
              λ n.
                Pushed-if (c == b'\r') (λ e. escaped b'r' (sym (eqb→eq c b'\r' e)))
                  λ r.
                    Pushed-if (c == 0) (λ z. absurd (ground (arith, ap not (sym z) ∙ h)))
                      λ z. raw s q (rw (n, r) refl)

close-Pushed : (c : ℕ) (p s : Text) → Pushed c p → close false (p ++ s) ≡ close false s
unfolding close
close-Pushed c p s (raw b q l) = rw (q, l, b) refl
close-Pushed c p s (escaped d e) = refl

unescape-Pushed : (c : ℕ) (p s : Text) → Pushed c p → unescape false (p ++ s) ≡ c ∷ unescape false s
unfolding unescape
unescape-Pushed c p s (raw b q l) = rw b refl
unescape-Pushed c p s (escaped d e) = ap (λ x. x ∷ unescape false s) e

close-lua_body :
    (s rest : Text) → no_nul s ≡ true → close false (lua_body s ++ b'"' ∷ rest) ≡ some rest
unfolding lua_body close
close-lua_body [] rest h = refl
close-lua_body (c ∷ s) rest h =
    ap (close false) (append_assoc (lua_char c) (lua_body s) (b'"' ∷ rest))
    ∙ close-Pushed c (lua_char c) (lua_body s ++ b'"' ∷ rest) (lua_char-Pushed c (ground arith))
    ∙ close-lua_body s rest (ground arith)

unescape-lua_body : (s : Text) → no_nul s ≡ true → unescape false (lua_body s) ≡ s
unfolding lua_body unescape
unescape-lua_body [] h = refl
unescape-lua_body (c ∷ s) h =
    unescape-Pushed c (lua_char c) (lua_body s) (lua_char-Pushed c (ground arith))
    ∙ ap (λ t. c ∷ t) (unescape-lua_body s (ground arith))

-- What follows a literal at the start of a text.
unfoldable pub after_literal : Text → Option Text
after_literal [] = none
after_literal (c ∷ s) = let rest = close false s in if c == b'"' then rest else none

-- The literal of a path without NUL, before any text, is read to its own last quote and no further,
-- and the characters between its quotes stand for the path.
pub literal_reads :
    (path rest : Text)
    → no_nul path ≡ true
    → (after_literal (lua_string_literal path ++ rest) ≡ some rest)
      × (unescape false (lua_body path) ≡ path)
unfolding lua_string_literal after_literal
literal_reads path rest h = (
  ap (close false) (append_assoc (lua_body path) (b'"' ∷ []) rest) ∙ close-lua_body path rest h,
  unescape-lua_body path h,
)
