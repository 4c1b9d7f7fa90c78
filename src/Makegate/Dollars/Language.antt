-- ===== src/Makegate/Dollars/Language.antt =====
-- What the text of a value or a recipe may say, independently of the loops that check it.
use vizra_search.Base.{ℕ, ◌≡◌, ◌≢◌, Bool, true, false, [], ◌∷◌, ◌++◌, ◌==◌, Str, codes, is_blank}
use vizra_search.Makegate.Patterns.{is_bracket, closing}
use vizra_search.Makegate.Patterns.Shapes.{IsIdent}
use vizra_search.Makegate.Dollars.Close.{Nest}

-- Brackets of the kind `(` are balanced in the text.
abbrev pub IsBalanced : Str → Type 0
IsBalanced = Nest b'(' b')' 0

-- Text in which every `$` is `$$`, a reference to a literal name other than MAKE, or, where `shell`
-- allows it, a balanced `$(shell …)` whose own text is such text with no `$(shell …)`.
pub data Allowed : Bool → Str → Type 0 where
  done : {shell : Bool} → Allowed shell []
  plain :
      {shell : Bool} {c : ℕ} {s : Str}
      → (c == b'$') ≡ false
      → Allowed shell s
      → Allowed shell (c ∷ s)
  escaped : {shell : Bool} {t s : Str} → t ≡ b'$' ∷ b'$' ∷ s → Allowed shell s → Allowed shell t
  reference :
      {shell : Bool} {t s : Str} (bracket : ℕ) (name : Str)
      → is_bracket bracket ≡ true
      → IsIdent name
      → name ≢ codes "MAKE"
      → t ≡ b'$' ∷ bracket ∷ (name ++ closing bracket ∷ s)
      → Allowed shell s
      → Allowed shell t
  shell_call :
      {shell : Bool} {t s : Str} (blank : ℕ) (body : Str)
      → shell ≡ true
      → is_blank blank ≡ true
      → IsBalanced body
      → Allowed false body
      → t ≡ codes "$(" ++ (codes "shell" ++ blank ∷ body) ++ b')' ∷ s
      → Allowed shell s
      → Allowed shell t
