-- ===== src/VendorContract/Refs/Resolved.antt =====
-- scripts/vendor-contract.py: what the accepted remote, ref and commit are.
use vizra_search.Base.{
  false, str_eq-ne, if◌then◌else◌, ◌≢◌, Bool, subst, ℕ, true, not, ◌&&◌, ◌≡◌, sym, ap, ◌∙◌, Option,
  none, some, List, [], ◌∷◌, Str, codes, str_eq, str_eq_iff, lower, and_left, and_right, not-false,
}
use vizra_search.VendorContract.Attempt.{
  ◌>>=◌, shallow, die_if, Refusal, got, bind-got, then-got, die_if-got, some_or_raise-got, got-inj,
}
use vizra_search.VendorContract.Url.{parse_remote_url, canonical_host, canonical_owner_repo}
use vizra_search.VendorContract.Git.{strict_text, Answer, Checkout, git_raw, stripped}
use vizra_search.VendorContract.Refs.{
  or_die, judge_remote, check_remote_is_canonical, Ref, all_refs, ref_named, first_listed,
  candidates_for, remote_main, judge_ref, resolve_ref, refuse_shallow, named_commit, ancestry,
  choose_commit,
}

-- Git's answer to the question is success, with this output.
abbrev pub Answers : Checkout → List Str → List ℕ → Type 0
Answers core args out = core.run args ≡ some (record { ok = true; stdout = out })

-- The remote's URL, as git gives it, names `owner_repo` at the canonical host.
pub record IsCanonical (core : Checkout) (remote owner_repo : Str) : Type 0 where
  pub raw : List ℕ
  pub asked : Answers core (codes "remote" ∷ codes "get-url" ∷ remote ∷ []) raw
  pub host_named : (parse_remote_url (stripped raw)).host ≡ some canonical_host
  pub repository_named : (parse_remote_url (stripped raw)).owner_repo ≡ some owner_repo
  pub repository : lower owner_repo ≡ canonical_owner_repo

-- `git_raw` with a success.
pub answered :
    (core : Checkout) (args : List Str) (r : Refusal) {a : Answer}
    → git_raw core args ≡ got a
    → die_if (not a.ok) r ≡ got tt
    → Answers core args a.stdout
unfolding git_raw
answered core args r {a} e f =
    some_or_raise-got _ e
    ∙ ap (λ b. some (record { ok = b; stdout = a.stdout }))
        (not-false a.ok (die_if-got (not a.ok) r f))

judge_remote-canonical :
    (url : Str) (h o : Option Str) {x : Str}
    → judge_remote url h o ≡ got x
    → (h ≡ some canonical_host) × (o ≡ some x) × (lower x ≡ canonical_owner_repo)
judge_remote-canonical url none o e = cc
judge_remote-canonical url (some h) none e = cc
judge_remote-canonical url (some h) (some o) {x} e =
    let (passed, returned) = then-got _ _ e in
    let canonical =
      not-false (str_eq h canonical_host && str_eq (lower o) canonical_owner_repo)
        (die_if-got _ _ passed) in
    let same = got-inj returned in
    (
      ap some ((str_eq_iff h canonical_host).0 (and_left _ _ canonical)),
      ap some same,
      ap lower (sym same)
          ∙ (str_eq_iff _ canonical_owner_repo).0 (and_right (str_eq h canonical_host) _ canonical),
    )

pub check_remote-IsCanonical :
    (core : Checkout) (remote : Str) {x : Str}
    → check_remote_is_canonical core remote ≡ got x
    → IsCanonical core remote x
unfolding check_remote_is_canonical
check_remote-IsCanonical core remote e =
    let (a, asked, e1) = bind-got _ _ e in
    let (ok, e2) = then-got _ _ e1 in
    let facts = judge_remote-canonical _ _ _ e2 in
    record {
      raw = a.stdout;
      asked = answered core _ _ asked ok;
      host_named = facts.0;
      repository_named = facts.1;
      repository = facts.2;
    }

-- Git does not answer `true` to the question whether the history is cut off. A git that fails to answer
-- is accepted, so a history that is cut off may pass.
pub record IsNotSaidShallow (core : Checkout) : Type 0 where
  pub answer : Answer
  pub asked : core.run (codes "rev-parse" ∷ codes "--is-shallow-repository" ∷ []) ≡ some answer
  pub not_true :
      answer.ok ≡ true
      → ((said : Str) × (strict_text answer.stdout ≡ got said) × (said ≢ codes "true"))

not_shallow :
    (ok : Bool) (out : List ℕ)
    → (if not ok
        then got tt
        else (strict_text out >>= λ said. die_if (str_eq said (codes "true")) shallow))
      ≡ got tt
    → ok ≡ true
    → ((said : Str) × (strict_text out ≡ got said) × (said ≢ codes "true"))
not_shallow false out k e = cc
not_shallow true out k e =
    let (said, read, passed) = bind-got (strict_text out) _ k in
    (said, read, str_eq-ne said (codes "true") (die_if-got _ shallow passed))

pub refuse_shallow-IsNotSaidShallow :
    (core : Checkout) → refuse_shallow core ≡ got tt → IsNotSaidShallow core
unfolding refuse_shallow git_raw
refuse_shallow-IsNotSaidShallow core e =
    let (answer, asked, e1) = bind-got (git_raw core _) _ e in
    record {
      answer = answer;
      asked = some_or_raise-got _ asked;
      not_true = not_shallow answer.ok answer.stdout e1;
    }

-- The ref is listed as a commit with this tip, and `ref` means it before any other.
pub record IsResolved (core : Checkout) (remote ref tip : Str) : Type 0 where
  pub refs : List Ref
  pub listed : all_refs core ≡ got refs
  pub main_ref : Ref
  pub found : ref_named (remote_main remote) refs ≡ some main_ref
  pub kind : main_ref.objecttype ≡ codes "commit"
  pub object : main_ref.objectname ≡ tip
  pub first : first_listed refs (candidates_for ref) ≡ some (remote_main remote)

or_die-got : {A : Type 0} (o : Option A) (r : Refusal) {a : A} → or_die o r ≡ got a → o ≡ some a
or_die-got none r e = cc
or_die-got (some b) r e = cc

pub resolve_ref-IsResolved :
    (core : Checkout) (remote ref : Str) {x : Str × Str}
    → resolve_ref core remote ref ≡ got x
    → (x.0 ≡ remote_main remote) × IsResolved core remote ref x.1
unfolding resolve_ref judge_ref
resolve_ref-IsResolved core remote ref {x} e =
    let (refs, listed, e1) = bind-got _ _ e in
    let (r, found, e2) = bind-got _ _ e1 in
    let (kind, e3) = then-got _ _ e2 in
    let (resolved, first, e4) = bind-got _ _ e3 in
    let (same, e5) = then-got _ _ e4 in
    let named = (str_eq_iff resolved (remote_main remote)).0 (not-false _ (die_if-got _ _ same)) in
    let returned = got-inj e5 in
    (
      ap (λ (y : Str × Str). y.0) (sym returned),
      record {
        refs = refs;
        listed = listed;
        main_ref = r;
        found = or_die-got _ _ found;
        kind = (str_eq_iff r.objecttype _).0 (not-false _ (die_if-got _ _ kind));
        object = ap (λ (y : Str × Str). y.1) returned;
        first = or_die-got _ _ first ∙ ap some named;
      },
    )

-- The commit is in the history of the ref.
abbrev pub IsOnRef : Checkout → Str → Str → Type 0
IsOnRef core commit full_ref = (out : List ℕ) × Answers core (ancestry commit full_ref) out

pub choose_commit-IsOnRef :
    (core : Checkout) (full_ref explicit : Str) {c : Str}
    → choose_commit core full_ref explicit ≡ got c
    → IsOnRef core c full_ref
unfolding choose_commit
choose_commit-IsOnRef core full_ref explicit e =
    let (c, named, e1) = bind-got (named_commit core full_ref explicit) _ e in
    let (a, asked, e2) = bind-got (git_raw core (ancestry c full_ref)) _ e1 in
    let (ok, e3) = then-got _ _ e2 in
    let on = answered core (ancestry c full_ref) _ asked ok in
    subst (λ d. (out : List ℕ) × Answers core (ancestry d full_ref) out) (got-inj e3) (a.stdout, on)
