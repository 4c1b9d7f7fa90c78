-- ===== src/VendorContract/Refs/Unshadowed.antt =====
-- scripts/vendor-contract.py, `resolve_ref` with the ref that `main` takes where none is given.
use vizra_search.Base.{
  str_eq-ne, ◌+◌, true, false, not, ◌≡◌, ◌≢◌, ◌↔◌, refl, sym, ap, ap₂, ◌∙◌, inl, inr, none, some,
  List, [], ◌∷◌, ◌++◌, arith, length, Str, codes, str_eq, str_eq_iff, str_eq_refl, starts_with,
  Bool-cases, Option-some, if◌then◌else◌,
}
use vizra_search.VendorContract.Attempt.{
  other_ref, unknown_ref, not_a_commit, no_main, got, ◌>>=◌, ◌>>◌, die_if,
}
use vizra_search.VendorContract.Git.{Checkout}
use vizra_search.VendorContract.Refs.{
  Ref, all_refs, ref_named, is_listed, first_listed, candidates_for, remote_main, or_die, judge_ref,
  resolve_ref,
}
use vizra_search.VendorContract.Refs.Resolved.{IsResolved, resolve_ref-IsResolved}

-- `args.ref`, where `--ref` is not given
abbrev pub default_ref : Str → Str
default_ref remote = remote ++ codes "/main"

-- The ref is listed as a commit with this tip, and nothing that git looks up earlier has its name.
pub record IsUnshadowed (core : Checkout) (remote tip : Str) : Type 0 where
  pub refs : List Ref
  pub listed : all_refs core ≡ got refs
  pub main_ref : Ref
  pub found : ref_named (remote_main remote) refs ≡ some main_ref
  pub kind : main_ref.objecttype ≡ codes "commit"
  pub object : main_ref.objectname ≡ tip
  pub no_ref : is_listed refs (codes "refs/" ++ default_ref remote) ≡ false
  pub no_tag : is_listed refs (codes "refs/tags/" ++ default_ref remote) ≡ false
  pub no_branch : is_listed refs (codes "refs/heads/" ++ default_ref remote) ≡ false

head_listed :
    (refs : List Ref) (c : Str) (cs : List Str) (want : Str)
    → c ≢ want
    → first_listed refs (c ∷ cs) ≡ some want
    → (is_listed refs c ≡ false) × (first_listed refs cs ≡ some want)
unfolding first_listed
head_listed refs c cs want other k = elim (Bool-cases (is_listed refs c)) [
  | inl e ↦
      absurd
        (other (Option-some (sym (ap (λ b. if b then some c else first_listed refs cs) e) ∙ k)))
  | inr e ↦ (e, sym (ap (λ b. if b then some c else first_listed refs cs) e) ∙ k)
]

not_short : (r : Str) → codes "refs/" ++ r ≢ codes "refs/remotes/" ++ r
not_short r = λ e.
    let same : length r + 5 ≡ length r + 13 = omega (arith, ap length e) in
    absurd (omega (arith, same))

not_tag : (r : Str) → codes "refs/tags/" ++ r ≢ codes "refs/remotes/" ++ r
unfolding str_eq
not_tag r = str_eq-ne _ _ refl

not_branch : (r : Str) → codes "refs/heads/" ++ r ≢ codes "refs/remotes/" ++ r
unfolding str_eq
not_branch r = str_eq-ne _ _ refl

-- What git looks up for a short name, in its order.
abbrev lookups : Str → List Str
lookups r =
    (codes "refs/" ++ r)
    ∷ (codes "refs/tags/" ++ r)
    ∷ (codes "refs/heads/" ++ r)
    ∷ (codes "refs/remotes/" ++ r)
    ∷ (codes "refs/remotes/" ++ r ++ codes "/HEAD")
    ∷ []

candidates_for-short :
    (r : Str) → starts_with (codes "refs/") r ≡ false → candidates_for r ≡ lookups r
unfolding candidates_for
candidates_for-short r short = ap (λ b. if b then r ∷ [] else lookups r) short

first_listed-skip :
    (refs : List Ref) (c : Str) (cs : List Str)
    → is_listed refs c ≡ false
    → first_listed refs (c ∷ cs) ≡ first_listed refs cs
unfolding first_listed
first_listed-skip refs c cs e = ap (λ b. if b then some c else first_listed refs cs) e

first_listed-take :
    (refs : List Ref) (c : Str) (cs : List Str)
    → is_listed refs c ≡ true
    → first_listed refs (c ∷ cs) ≡ some c
unfolding first_listed
first_listed-take refs c cs e = ap (λ b. if b then some c else first_listed refs cs) e

Unshadowed-first :
    (core : Checkout) (remote tip : Str) (u : IsUnshadowed core remote tip)
    → first_listed u.refs (lookups (default_ref remote)) ≡ some (remote_main remote)
Unshadowed-first core remote tip u =
    first_listed-skip u.refs _ _ u.no_ref
    ∙ first_listed-skip u.refs _ _ u.no_tag
    ∙ first_listed-skip u.refs _ _ u.no_branch
    ∙ first_listed-take u.refs _ _ (ap (λ o. elim o [ some r ↦ true | none ↦ false ]) u.found)

resolved-Unshadowed :
    (core : Checkout) (remote tip : Str)
    → starts_with (codes "refs/") (default_ref remote) ≡ false
    → IsResolved core remote (default_ref remote) tip
    → IsUnshadowed core remote tip
resolved-Unshadowed core remote tip short s =
    let r = default_ref remote in
    let first : first_listed s.refs (lookups r) ≡ some (remote_main remote) =
      ap (first_listed s.refs) (sym (candidates_for-short r short)) ∙ s.first in
    let (no_ref, rest) = head_listed s.refs _ _ _ (not_short r) first in
    let (no_tag, rest) = head_listed s.refs _ _ _ (not_tag r) rest in
    let (no_branch, rest) = head_listed s.refs _ _ _ (not_branch r) rest in
    record {
      refs = s.refs;
      listed = s.listed;
      main_ref = s.main_ref;
      found = s.found;
      kind = s.kind;
      object = s.object;
      no_ref = no_ref;
      no_tag = no_tag;
      no_branch = no_branch;
    }

Unshadowed-judge_ref :
    (core : Checkout) (remote tip : Str) (u : IsUnshadowed core remote tip)
    → starts_with (codes "refs/") (default_ref remote) ≡ false
    → judge_ref u.refs (remote_main remote) (default_ref remote) u.main_ref
      ≡ got (remote_main remote, tip)
unfolding judge_ref
Unshadowed-judge_ref core remote tip u short =
    let want = remote_main remote in
    let r = default_ref remote in
    ap₂
      (λ b o.
        die_if (not b) (not_a_commit want u.main_ref.objecttype)
        >> (or_die o (unknown_ref r) >>= λ resolved.
            die_if (not (str_eq resolved want)) (other_ref r resolved want)
            >> got (want, u.main_ref.objectname)))
      ((str_eq_iff u.main_ref.objecttype (codes "commit")).1 u.kind)
      (ap (first_listed u.refs) (candidates_for-short r short) ∙ Unshadowed-first core remote tip u)
    ∙ ap₂ (λ b t. die_if (not b) (other_ref r want want) >> got (want, t)) (str_eq_refl want)
        u.object

-- With the default ref, resolve_ref returns the remote's main and a tip exactly when that ref is
-- listed as a commit with that tip and no ref, tag or branch that git looks up earlier has the short
-- name. Condition: the short name does not start with refs/.
pub resolve_ref-IsUnshadowed :
    (core : Checkout) (remote tip : Str)
    → starts_with (codes "refs/") (default_ref remote) ≡ false
    → (resolve_ref core remote (default_ref remote) ≡ got (remote_main remote, tip))
      ↔ IsUnshadowed core remote tip
unfolding resolve_ref
resolve_ref-IsUnshadowed core remote tip short = (
  λ k.
      resolved-Unshadowed core remote tip short
        (resolve_ref-IsResolved core remote (default_ref remote) k).1,
  λ u.
      ap
        (λ a. a >>= λ refs.
          or_die (ref_named (remote_main remote) refs) (no_main (remote_main remote)) >>= λ r.
          judge_ref refs (remote_main remote) (default_ref remote) r)
        u.listed
      ∙ ap
          (λ o. or_die o (no_main (remote_main remote)) >>= λ r.
            judge_ref u.refs (remote_main remote) (default_ref remote) r)
          u.found
      ∙ Unshadowed-judge_ref core remote tip u short,
)
