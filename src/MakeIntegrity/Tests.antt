-- ===== src/MakeIntegrity/Tests.antt =====
-- The closure of a makefile with a circle.
use vizra_search.Base.{◌≡◌, refl, true, some, List, [], ◌∷◌, Str, codes, mem_str}
use vizra_search.Base.{All}
use vizra_search.MakeIntegrity.Reached.{Reached, prerequisite_closure-Reached}
use vizra_search.Makegate.Lines.{makefile_lines}
use vizra_search.MakeIntegrity.Closure.{read_rules, prerequisite_closure}
use vizra_search.MakeIntegrity.Closed.{IsClosed, prerequisite_closure-IsClosed}

abbrev rules : Str
rules = codes "V := 1\nci: test lint # all\ntest: ci\n\tgo test\nother: x"

closes :
    prerequisite_closure (makefile_lines rules) (codes "ci" ∷ [])
    ≡ some (codes "ci" ∷ codes "test" ∷ codes "lint" ∷ [])
unfolding prerequisite_closure makefile_lines
closes = refl

prerequisite_closure-IsClosed_example :
    (r : List Str) × (prerequisite_closure (makefile_lines rules) (codes "ci" ∷ []) ≡ some r)
    × IsClosed (read_rules (makefile_lines rules) []) r
    × ((s : Str) → mem_str s (codes "ci" ∷ []) ≡ true → mem_str s r ≡ true)
prerequisite_closure-IsClosed_example =
    prerequisite_closure-IsClosed (makefile_lines rules) (codes "ci" ∷ [])

prerequisite_closure-Reached_example :
    All
      (Reached (read_rules (makefile_lines rules) []) (codes "ci" ∷ []))
      (codes "ci" ∷ codes "test" ∷ codes "lint" ∷ [])
prerequisite_closure-Reached_example =
    prerequisite_closure-Reached (makefile_lines rules) (codes "ci" ∷ [])
      (codes "ci" ∷ codes "test" ∷ codes "lint" ∷ []) closes
