-- ===== src/Makegate/Lines/Tests.antt =====
-- The line reader at small texts.
use vizra_search.Base.{◌≡◌, refl, [], ◌∷◌, codes, map, List, Str}
use vizra_search.Makegate.Lines.{makefile_lines, LogicalLine}

abbrev raws : List LogicalLine → List Str
raws = map (λ (l : LogicalLine). l.raw)

two_lines :
    raws (makefile_lines (codes "a: b \\\n  c # d\n\tx \\\n\ty\n"))
    ≡ codes "a: b  c # d" ∷ codes "\tx  y" ∷ [] ∷ []
unfolding makefile_lines
two_lines = refl
