-- ===== src/GoTestReport/Passes.antt =====
-- What a status of 0 says of the lane.
use vizra_search.Base.{
  ap, sym, ◌≢◌, append-nil, ap₂, ℕ, ◌+◌, ◌≤◌, ◌≡◌, refl, ◌∙◌, subst, Bool, true, false, not, inl,
  inr, List, [], ◌∷◌, ◌++◌, ◌==◌, ltb, length, Str, arith, All, Bool-cases, or_right,
}
use vizra_search.GoTestReport.Inputs.{Floors}
use vizra_search.GoTestReport.Tally.{Tally, every, tests_of}
use vizra_search.GoTestReport.Verdict.{
  one_if, some_left, unexplained, below, has_floor, unfloored, count_problems,
}

zero_of_test : (n : ℕ) → not (n == 0) ≡ false → n ≡ 0
zero_of_test n e = ground arith

bound_of_test : (n m : ℕ) → ltb n m ≡ false → m ≤ n
bound_of_test n m e = ground arith

test_of_bound : (n m : ℕ) → m ≤ n → ltb n m ≡ false
test_of_bound n m h = ground arith

false_of_bound : (n m : ℕ) → m ≤ n → ltb n m ≢ true
false_of_bound n m h e = ground arith

-- Nothing failed, was skipped or is unread, and the tests that passed meet every floor.
pub record Passes (floors : Floors) (go_exit : ℕ) (t : Tally) : Type 0 where
  pub ran : go_exit ≡ 0
  pub all_read : t.malformed ≡ 0
  pub none_failed : t.failed ≡ []
  pub no_package_failed : t.pkg_failed ≡ []
  pub none_skipped : t.skipped ≡ []
  pub all_have_tests : t.pkg_no_tests ≡ []
  pub enough : floors.min_tests ≤ length t.passed
  pub each_enough : All (λ (f : Str × ℕ). f.1 ≤ tests_of f.0 t.passed) floors.packages
  pub each_floored : All (λ (k : Str × Str). has_floor k.0 floors.packages ≡ true) t.passed

length-nil : {A : Type 0} (xs : List A) → length xs ≡ 0 → xs ≡ []
length-nil [] e = refl
length-nil (x ∷ xs) e = absurd (omega (arith, e))

some_left-nil : {A : Type 0} (xs : List A) → one_if (some_left xs) ≡ 0 → xs ≡ []
some_left-nil [] e = refl
some_left-nil (x ∷ xs) e = absurd (omega (arith, e))

unexplained-nil : (ps : List Str) → unexplained [] ps ≡ 0 → ps ≡ []
unfolding unexplained tests_of
unexplained-nil [] e = refl
unexplained-nil (p ∷ ps) e = absurd (omega (arith, e))

below-zero :
    (tests : List (Str × Str)) (floors : List (Str × ℕ))
    → below tests floors ≡ 0
    → All (λ (f : Str × ℕ). f.1 ≤ tests_of f.0 tests) floors
unfolding below
below-zero tests [] e = tt
below-zero tests ((p, want) ∷ floors) e = elim (Bool-cases (ltb (tests_of p tests) want)) [
  | inl k ↦ absurd (omega (arith, rw k at e))
  | inr k ↦ (ground arith, below-zero tests floors (rw k at e))
]

unfloored-false :
    (floors : List (Str × ℕ)) (tests : List (Str × Str))
    → unfloored floors tests ≡ false
    → All (λ (k : Str × Str). has_floor k.0 floors ≡ true) tests
unfolding unfloored
unfloored-false floors [] e = tt
unfloored-false floors ((p, t) ∷ tests) e =
    (ground arith, unfloored-false floors tests (or_right (not (has_floor p floors)) _ e))

one_if-zero : (b : Bool) → one_if b ≡ 0 → b ≡ false
one_if-zero true e = absurd (omega (arith, e))
one_if-zero false e = refl

sum_zero : (a b : ℕ) → a + b ≡ 0 → (a ≡ 0) × (b ≡ 0)
sum_zero a b e = (omega (arith, e), omega (arith, e))

every-passed : (t : Tally) → t.failed ≡ [] → t.skipped ≡ [] → every t ≡ t.passed
every-passed t f s = ap₂ (λ x y. t.passed ++ (x ++ y)) f s ∙ append-nil t.passed

-- A count of no problems says that the lane passes.
pub count_problems-Passes :
    (floors : Floors) (go_exit : ℕ) (t : Tally)
    → count_problems floors go_exit t ≡ 0
    → Passes floors go_exit t
unfolding count_problems
count_problems-Passes floors go_exit t e =
    let (z1, e1) = sum_zero (one_if (not (t.malformed == 0))) _ e in
    let (z2, e2) = sum_zero (one_if (some_left t.failed)) _ e1 in
    let (z3, e3) = sum_zero (unexplained t.failed t.pkg_failed) _ e2 in
    let (z4, e4) = sum_zero (length t.skipped) _ e3 in
    let (z5, e5) = sum_zero (length t.pkg_no_tests) _ e4 in
    let (z6, e6) = sum_zero (one_if (ltb (length (every t)) floors.min_tests)) _ e5 in
    let (z7, e7) = sum_zero (below (every t) floors.packages) _ e6 in
    let (z8, z9) = sum_zero (one_if (unfloored floors.packages (every t))) _ e7 in
    let f = some_left-nil t.failed z2 in
    let s = length-nil t.skipped z4 in
    let same = every-passed t f s in
    record {
      ran = zero_of_test go_exit (one_if-zero (not (go_exit == 0)) z9);
      all_read = zero_of_test t.malformed (one_if-zero (not (t.malformed == 0)) z1);
      none_failed = f;
      no_package_failed =
          unexplained-nil t.pkg_failed (subst (λ x. unexplained x t.pkg_failed ≡ 0) f z3);
      none_skipped = s;
      all_have_tests = length-nil t.pkg_no_tests z5;
      enough = bound_of_test (length t.passed) floors.min_tests (
          subst (λ x. ltb (length x) floors.min_tests ≡ false) same
            (one_if-zero (ltb (length (every t)) floors.min_tests) z6));
      each_enough =
          subst (λ x. All (λ (f : Str × ℕ). f.1 ≤ tests_of f.0 x) floors.packages) same
            (below-zero (every t) floors.packages z7);
      each_floored =
          subst (λ x. All (λ (k : Str × Str). has_floor k.0 floors.packages ≡ true) x) same
            (unfloored-false floors.packages (every t)
              (one_if-zero (unfloored floors.packages (every t)) z8));
    }

below-met :
    (tests : List (Str × Str)) (floors : List (Str × ℕ))
    → All (λ (f : Str × ℕ). f.1 ≤ tests_of f.0 tests) floors
    → below tests floors ≡ 0
unfolding below
below-met tests [] h = refl
below-met tests ((p, want) ∷ floors) h = elim (Bool-cases (ltb (tests_of p tests) want)) [
  | inl k ↦ absurd (false_of_bound (tests_of p tests) want h.0 k)
  | inr k ↦ rw k (below-met tests floors h.1)
]

unfloored-met :
    (floors : List (Str × ℕ)) (tests : List (Str × Str))
    → All (λ (k : Str × Str). has_floor k.0 floors ≡ true) tests
    → unfloored floors tests ≡ false
unfolding unfloored
unfloored-met floors [] h = refl
unfloored-met floors ((p, t) ∷ tests) h = rw (h.0, unfloored-met floors tests h.1) refl

-- And a lane that passes has no problem.
pub Passes-count_problems :
    (floors : Floors) (go_exit : ℕ) (t : Tally)
    → Passes floors go_exit t
    → count_problems floors go_exit t ≡ 0
unfolding count_problems unexplained
Passes-count_problems floors go_exit t p =
    let same = sym (every-passed t p.none_failed p.none_skipped) in
    let few =
      subst (λ x. ltb (length x) floors.min_tests ≡ false) same
        (test_of_bound (length t.passed) floors.min_tests p.enough) in
    let met =
      subst (λ x. below x floors.packages ≡ 0) same
        (below-met t.passed floors.packages p.each_enough) in
    let floored =
      subst (λ x. unfloored floors.packages x ≡ false) same
        (unfloored-met floors.packages t.passed p.each_floored) in
    omega (
      arith,
      ap (λ n. one_if (not (n == 0))) p.all_read,
      ap (λ x. one_if (some_left x)) p.none_failed,
      ap (λ x. unexplained t.failed x) p.no_package_failed,
      ap (length {A = Str × Str}) p.none_skipped,
      ap (length {A = Str}) p.all_have_tests,
      ap one_if few,
      met,
      ap one_if floored,
      ap (λ n. one_if (not (n == 0))) p.ran,
    )
