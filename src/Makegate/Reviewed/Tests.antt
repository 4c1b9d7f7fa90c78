-- ===== src/Makegate/Reviewed/Tests.antt =====
-- The named refusals at small texts.
use vizra_search.Base.{◌≡◌, refl, [], ◌∷◌, codes, map, List}
use vizra_search.Makegate.Rules.{
  NamedProblem, NamedWhy, plus_prefix, begins_with_expansion, assigns_controlled, special_target,
  several_targets, inline_recipe, computed_assignment, make_in_recipe,
}
use vizra_search.Makegate.Reviewed.{reviewed_bytes_problems}

abbrev whys : List NamedProblem → List NamedWhy
whys = map (λ (p : NamedProblem). p.why)

refuses_by_name :
    whys (
      reviewed_bytes_problems (codes "Makefile") (
        codes
          "SHELL := /bin/bash\nSHELL = /bin/sh\nall: MAKEFLAGS += -i\na b: c ; x\n$(M)AKEFLAGS += -i\n.ONESHELL:\na:\n\t@+x\n\t-$(X) y\n\tx $(MAKE)\n"))
    ≡ assigns_controlled (codes "SHELL")
      ∷ assigns_controlled (codes "MAKEFLAGS")
      ∷ inline_recipe
      ∷ several_targets
      ∷ computed_assignment
      ∷ special_target (codes ".ONESHELL")
      ∷ plus_prefix
      ∷ begins_with_expansion (codes "$(X) y")
      ∷ make_in_recipe
      ∷ []
unfolding reviewed_bytes_problems
refuses_by_name = refl
