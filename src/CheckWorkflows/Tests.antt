-- ===== src/CheckWorkflows/Tests.antt =====
-- The check on workflows of one job.
use vizra_search.Base.{◌≡◌, ◌≢◌, refl, true, some, List, [], ◌∷◌, Str, codes, All}
use vizra_search.CheckWorkflows.Search.{
  Yaml, named, truth, text, array, mapping, item, no_item, entry, no_entry,
}
use vizra_search.CheckWorkflows.Status.{Content, read, not_utf8, main}
use vizra_search.CheckWorkflows.Clean.{IsClean, main-IsClean}

abbrev with_step : Yaml → Yaml
with_step step = mapping (
    entry (named (codes "jobs"))
      (mapping (
        entry (named (codes "test"))
          (mapping (entry (named (codes "steps")) (array (item step no_item)) no_entry)) no_entry))
      no_entry)

abbrev clean_step : Yaml
clean_step = mapping (entry (named (codes "run")) (text (codes "make")) no_entry)

abbrev lax_step : Yaml
lax_step = mapping (entry (named (codes " 'Continue-On-Error'")) (truth true) no_entry)

abbrev workflow : List (Str × Content)
workflow = (codes "ci.yml", read (codes "jobs:")) ∷ []

clean_passes : main (λ s. some (with_step clean_step)) workflow ≡ 0
unfolding main
clean_passes = refl

lax_is_refused : main (λ s. some (with_step lax_step)) workflow ≡ 1
unfolding main
lax_is_refused = refl

-- The exception of a file that is not UTF-8 ends the program with the status of a violation.
not_utf8_is_one : main (λ s. some (with_step clean_step)) ((codes "ci.yml", not_utf8) ∷ []) ≡ 1
unfolding main
not_utf8_is_one = refl

main-IsClean_example : (workflow ≢ []) × All (IsClean (λ s. some (with_step clean_step))) workflow
main-IsClean_example = main-IsClean (λ s. some (with_step clean_step)) workflow clean_passes
