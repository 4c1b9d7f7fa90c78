-- ===== src/GoTestReport/Floors.antt =====
-- Every floor that the lane is held to is at least 1.
use vizra_search.Base.{
  ℕ, zero, suc, ◌≤◌, ◌≡◌, refl, Bool, true, false, not, ◌&&◌, ◌||◌, inl, inr, Option, none, some,
  if◌then◌else◌, Str, codes, arith, All, Bool-cases, Option-cases, Option-some,
}
use vizra_search.Json.{
  Json, null, bool, natural, negative, fraction, text, array, object, Dict, no_entry, entry, get,
  contains, is_true,
}
use vizra_search.GoTestReport.Inputs.{
  FloorsFile, no_file, not_json, not_utf8, document, Step, stop, crash, next, Floors, at_least_one,
  floors_of, has_vacuous, is_none_left, package_floors, package_step, skips_step, suite_step,
  suites_step, document_step, read_floors, exit_number, ExitFile, not_given, not_recorded, recorded,
  read_exit,
}

-- Every floor is at least 1.
pub record AreFloors (floors : Floors) : Type 0 where
  pub whole : 1 ≤ floors.min_tests
  pub each : All (λ (f : Str × ℕ). 1 ≤ f.1) floors.packages

at_least_one-bound : (v : Json) (n : ℕ) → at_least_one v ≡ some n → 1 ≤ n
at_least_one-bound null n e = cc
at_least_one-bound (bool true) n e = omega (arith, Option-some e)
at_least_one-bound (bool false) n e = cc
at_least_one-bound (natural zero) n e = cc
at_least_one-bound (natural (suc m)) n e = omega (arith, Option-some e)
at_least_one-bound (negative m) n e = cc
at_least_one-bound (fraction shown z) n e = cc
at_least_one-bound (text s) n e = cc
at_least_one-bound (array vs) n e = cc
at_least_one-bound (object m) n e = cc

floors_of-bound : (m : Dict) → All (λ (f : Str × ℕ). 1 ≤ f.1) (floors_of m)
floors_of-bound no_entry = tt
floors_of-bound (entry p v m) = elim (Option-cases (at_least_one v)) [
  | inl e ↦ rw (e, All) (floors_of-bound m)
  | inr (n, e) ↦ rw (e, All) (at_least_one-bound v n e, floors_of-bound m)
]

-- What is claimed of a step that reads the floors.
abbrev pub ReadsFloors : Step Floors → Type 0
ReadsFloors (stop n) = (n ≡ 1)
ReadsFloors crash = Unit
ReadsFloors (next floors) = AreFloors floors

package_floors-ReadsFloors :
    (emit : Bool) (n : ℕ) (m : Dict) → 1 ≤ n → ReadsFloors (package_floors emit n m)
package_floors-ReadsFloors emit n m h =
    elim (Bool-cases ((is_none_left m || has_vacuous m) && not emit)) [
      | inl e ↦ rw e refl
      | inr e ↦ rw e (record { whole = h; each = floors_of-bound m })
    ]

dict_or_none-ReadsFloors :
    (emit b : Bool) (n : ℕ)
    → 1 ≤ n
    → ReadsFloors (if b then crash else package_floors emit n no_entry)
dict_or_none-ReadsFloors emit true n h = tt
dict_or_none-ReadsFloors emit false n h = package_floors-ReadsFloors emit n no_entry h

package_step-ReadsFloors :
    (emit : Bool) (n : ℕ) (v : Json) → 1 ≤ n → ReadsFloors (package_step emit n v)
package_step-ReadsFloors emit n (object m) h = package_floors-ReadsFloors emit n m h
package_step-ReadsFloors emit n null h = dict_or_none-ReadsFloors emit (is_true null) n h
package_step-ReadsFloors emit n (bool b) h = dict_or_none-ReadsFloors emit (is_true (bool b)) n h
package_step-ReadsFloors emit n (natural m) h =
    dict_or_none-ReadsFloors emit (is_true (natural m)) n h
package_step-ReadsFloors emit n (negative m) h =
    dict_or_none-ReadsFloors emit (is_true (negative m)) n h
package_step-ReadsFloors emit n (fraction shown z) h =
    dict_or_none-ReadsFloors emit (is_true (fraction shown z)) n h
package_step-ReadsFloors emit n (text s) h = dict_or_none-ReadsFloors emit (is_true (text s)) n h
package_step-ReadsFloors emit n (array vs) h =
    dict_or_none-ReadsFloors emit (is_true (array vs)) n h

skips_step-ReadsFloors :
    (emit : Bool) (n : ℕ) (floor : Dict) → 1 ≤ n → ReadsFloors (skips_step emit n floor)
skips_step-ReadsFloors emit n floor h =
    elim (Bool-cases (is_true (get (codes "allowed_skips") floor))) [
      | inl e ↦ rw e refl
      | inr e ↦ rw e (package_step-ReadsFloors emit n (get (codes "min_package_tests") floor) h)
    ]

suite_step-ReadsFloors : (emit : Bool) (v : Json) → ReadsFloors (suite_step emit v)
suite_step-ReadsFloors emit (object floor) =
    elim (Option-cases (at_least_one (get (codes "min_tests") floor))) [
      | inl e ↦ rw e refl
      | inr (n, e) ↦ rw e (
          skips_step-ReadsFloors emit n floor
            (at_least_one-bound (get (codes "min_tests") floor) n e))
    ]
suite_step-ReadsFloors emit null = tt
suite_step-ReadsFloors emit (bool b) = tt
suite_step-ReadsFloors emit (natural m) = tt
suite_step-ReadsFloors emit (negative m) = tt
suite_step-ReadsFloors emit (fraction shown z) = tt
suite_step-ReadsFloors emit (text s) = tt
suite_step-ReadsFloors emit (array vs) = tt

suites_step-ReadsFloors :
    (suite : Str) (emit : Bool) (v : Json) → ReadsFloors (suites_step suite emit v)
suites_step-ReadsFloors suite emit (object suites) = elim (Bool-cases (contains suite suites)) [
  | inl e ↦ rw e (suite_step-ReadsFloors emit (get suite suites))
  | inr e ↦ rw e refl
]
suites_step-ReadsFloors suite emit null = refl
suites_step-ReadsFloors suite emit (bool b) = refl
suites_step-ReadsFloors suite emit (natural m) = refl
suites_step-ReadsFloors suite emit (negative m) = refl
suites_step-ReadsFloors suite emit (fraction shown z) = refl
suites_step-ReadsFloors suite emit (text s) = refl
suites_step-ReadsFloors suite emit (array vs) = refl

document_step-ReadsFloors :
    (suite : Str) (emit : Bool) (v : Json) → ReadsFloors (document_step suite emit v)
document_step-ReadsFloors suite emit (object doc) =
    suites_step-ReadsFloors suite emit (get (codes "suites") doc)
document_step-ReadsFloors suite emit null = tt
document_step-ReadsFloors suite emit (bool b) = tt
document_step-ReadsFloors suite emit (natural m) = tt
document_step-ReadsFloors suite emit (negative m) = tt
document_step-ReadsFloors suite emit (fraction shown z) = tt
document_step-ReadsFloors suite emit (text s) = tt
document_step-ReadsFloors suite emit (array vs) = tt

-- And of one that reads the exit code.
abbrev pub StopsWithOne : Step ℕ → Type 0
StopsWithOne (stop n) = (n ≡ 1)
StopsWithOne crash = Unit
StopsWithOne (next n) = Unit

exit_number-StopsWithOne : (o : Option ℕ) → StopsWithOne (exit_number o)
exit_number-StopsWithOne none = refl
exit_number-StopsWithOne (some n) = tt

pub read_exit-StopsWithOne : (file : ExitFile) → StopsWithOne (read_exit file)
unfolding read_exit
read_exit-StopsWithOne not_given = refl
read_exit-StopsWithOne not_recorded = refl
read_exit-StopsWithOne (recorded s) = exit_number-StopsWithOne _

-- Reading the floors gives floors of at least 1, or status 1, or an exception.
pub read_floors-ReadsFloors :
    (suite : Str) (emit : Bool) (file : FloorsFile) → ReadsFloors (read_floors suite emit file)
unfolding read_floors
read_floors-ReadsFloors suite emit no_file = refl
read_floors-ReadsFloors suite emit not_json = refl
read_floors-ReadsFloors suite emit not_utf8 = tt
read_floors-ReadsFloors suite emit (document v) = document_step-ReadsFloors suite emit v
