-- ===== src/Makegate/Grammar/Tests.antt =====
-- The grammar at small texts.
use vizra_search.Base.{◌≡◌, refl, [], ◌∷◌, codes, map, List, Str}
use vizra_search.Makegate.Dollars.{bare, names_make}
use vizra_search.Makegate.Grammar.Defs.{
  grammar_problems, GrammarProblem, GrammarWhy, tab_outside_rule, recipe_using, value_using,
  conditional, keyword_as_variable,
}

abbrev whys : List GrammarProblem → List GrammarWhy
whys = map (λ (p : GrammarProblem). p.why)

abbrev makefile : Str
makefile =
    codes
      "# build\nSHELL := /bin/bash\n\n.PHONY: all test\nall: build test # both\n\tgo $(FLAGS) $$x\n\ntest:\n\t@go test\n"

accepts_makefile : grammar_problems (codes "Makefile") makefile ≡ []
unfolding grammar_problems
accepts_makefile = refl

refuses :
    whys (
      grammar_problems
        (codes "Makefile")
        (codes "\tx\nifdef := 1\nA = $x $(MAKE)\nifeq (a,b)\nb:\n\t$@\n"))
    ≡ tab_outside_rule
      ∷ keyword_as_variable (codes "ifdef")
      ∷ value_using (bare (codes "$x"))
      ∷ value_using names_make
      ∷ conditional
      ∷ recipe_using (bare (codes "$@"))
      ∷ []
unfolding grammar_problems
refuses = refl
