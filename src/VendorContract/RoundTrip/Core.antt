-- ===== src/VendorContract/RoundTrip/Core.antt =====
-- scripts/vendor-contract.py: what `check --core` finds of what `vendor` left, with the same checkout.
use vizra_search.Base.{
  ◌&&◌, ℕ, true, false, not, ◌≡◌, refl, ap, ap₂, ◌∙◌, none, some, List, [], ◌∷◌, ◌++◌, map, Str,
  codes, str_eq, str_eq_refl, if◌then◌else◌,
}
use vizra_search.Json.{contains, Dict, text, get}
use vizra_search.VendorContract.Attempt.{some_or_raise, Attempt, got, raised, ◌>>=◌}
use vizra_search.VendorContract.Git.{Checkout}
use vizra_search.VendorContract.Manifest.{read_from_core, Host, FileEntry, Manifest}
use vizra_search.VendorContract.Vendor.{Args, Provenance, measure, updated, pin_entry}
use vizra_search.VendorContract.Vendor.Copied.{ShownAll, core_bytes, pinned}
use vizra_search.VendorContract.Vendor.Updated.{
  contains-updated-commit, written_manifest, get-updated-tip, get-updated-commit, get-updated-ref,
  get-pin_entry-digest,
}
use vizra_search.VendorContract.Check.{
  unknown_tip, commit_not_in_tip, check_core, tip_not_on_ref, stale_commit, core_differs,
  ref_differs, check_recorded_tip, tip_args, check_bytes, check_tip, check_provenance, commit_text,
  check_against, sha_of, Problem, note_if, is_sha, is_text,
}
use vizra_search.VendorContract.Refs.{ancestry}
use vizra_search.VendorContract.Refs.Resolved.{Answers, IsOnRef}
use vizra_search.VendorContract.Vendor.Copied.{ShownAll}
use vizra_search.VendorContract.Git.{git_raw}

-- What git promises of the objects that it names: the tip is a commit on the ref, with the pinned one
-- in its history.
pub record KnowsTip (core : Checkout) (p : Provenance) : Type 0 where
  pub known : (out : List ℕ) × Answers core (tip_args p.tip) out
  pub on_ref : IsOnRef core p.tip p.full_ref
  pub contained : IsOnRef core p.commit p.tip

check_bytes-pinned :
    (h : Host) (core : Checkout) (commit : Str) (e : FileEntry)
    → check_bytes h (text commit) (pinned h core commit e) (core_bytes core commit e.path) ≡ got []
unfolding check_bytes pin_entry
check_bytes-pinned h core commit e =
    let raw : List ℕ = core_bytes core commit e.path in
    ap
      (λ d.
        if not (is_text (h.sha256 raw) d) && false
        then raised
        else got (note_if (not (is_text (h.sha256 raw) d)) (core_differs e.path)))
      (get-pin_entry-digest h e raw)
    ∙ ap (λ b. if not b && false then raised else got (note_if (not b) (core_differs e.path)))
        (str_eq_refl (h.sha256 raw))

pub check_against-pinned :
    (h : Host) (core : Checkout) (commit : Str) (m : Dict) (es : List FileEntry)
    → contains (codes "source_commit") m ≡ true
    → get (codes "source_commit") m ≡ text commit
    → ShownAll core commit es
    → check_against h core m (map (pinned h core commit) es) ≡ got []
unfolding check_against pin_entry
check_against-pinned h core commit m [] has is shown = refl
check_against-pinned h core commit m (e ∷ es) has is (first, shown) =
    ap₂
      (λ b v. commit_text h b v >>= λ c. read_from_core core c e.path >>= λ raw.
        check_bytes h v (pinned h core commit e) raw >>= λ x.
        check_against h core m (map (pinned h core commit) es) >>= λ y. got (x ++ y))
      has is
    ∙ ap₂
        (λ a r. a >>= λ raw.
          check_bytes h (text commit) (pinned h core commit e) raw >>= λ x. r >>= λ y. got (x ++ y))
        first (check_against-pinned h core commit m es has is shown)
    ∙ ap (λ a. a >>= λ x. got (x ++ [])) (check_bytes-pinned h core commit e)

check_tip-known :
    (core : Checkout) (p : Provenance)
    → KnowsTip core p
    → check_tip core p.full_ref (text p.commit) p.tip ≡ got []
unfolding check_tip git_raw
check_tip-known core p k =
    ap
      (λ o.
        some_or_raise o >>= λ known. if not known.ok then got (unknown_tip p.tip ∷ []) else onward)
      k.known.1
    ∙ ap₂
        (λ a b. some_or_raise a >>= λ on_ref. some_or_raise b >>= λ contained. got (
          note_if (not on_ref.ok) (tip_not_on_ref p.tip)
          ++ note_if (not contained.ok) (commit_not_in_tip p.commit)))
        k.on_ref.1 k.contained.1
  where
    onward : Attempt (List Problem)
    onward = do
      on_ref ← git_raw core (ancestry p.tip p.full_ref)
      contained ← git_raw core (ancestry p.commit p.tip)
      got (
          note_if (not on_ref.ok) (tip_not_on_ref p.tip)
          ++ note_if (not contained.ok) (commit_not_in_tip p.commit))

sha_of-sha : (tip : Str) → is_sha tip ≡ true → sha_of (text tip) ≡ some tip
unfolding sha_of
sha_of-sha tip full = ap (λ b. if b then some tip else none) full

pub check_provenance-known :
    (core : Checkout) (p : Provenance)
    → is_sha p.tip ≡ true
    → KnowsTip core p
    → check_provenance core p (text p.full_ref) (text p.tip) (text p.commit) ≡ got []
unfolding check_provenance
check_provenance-known core p full k =
    ap
      (λ t. check_recorded_tip core p.full_ref (text p.commit) t >>= λ x. got (
        note_if (not (str_eq p.full_ref p.full_ref)) (ref_differs p.full_ref p.full_ref)
        ++ x
        ++ note_if (not (str_eq p.commit p.commit)) (stale_commit p.commit)))
      (sha_of-sha p.tip full)
    ∙ ap
        (λ a. a >>= λ x. got (
          note_if (not (str_eq p.full_ref p.full_ref)) (ref_differs p.full_ref p.full_ref)
          ++ x
          ++ note_if (not (str_eq p.commit p.commit)) (stale_commit p.commit)))
        (check_tip-known core p k)
    ∙ ap₂
        (λ a b. got (
          note_if (not a) (ref_differs p.full_ref p.full_ref)
          ++ []
          ++ note_if (not b) (stale_commit p.commit)))
        (str_eq_refl p.full_ref) (str_eq_refl p.commit)

-- The manifest that `vendor` wrote, against the checkout that it was written from.
pub check_core-written :
    (h : Host) (core : Checkout) (args : Args) (written_by : Args) (m : Manifest) (p : Provenance)
    → measure core args ≡ got p
    → is_sha p.tip ≡ true
    → KnowsTip core p
    → ShownAll core p.commit m.files
    → check_core h args (written_manifest h core written_by p m) core ≡ got []
unfolding check_core
check_core-written h core args written_by m p measured full k shown =
    let files = map (pinned h core p.commit) m.files in
    let fields = updated h written_by p m.fields files in
    ap
      (λ a. a >>= λ q.
        check_provenance core q (get (codes "source_ref") fields)
          (get (codes "source_ref_tip") fields) (get (codes "source_commit") fields)
        >>= λ x. check_against h core fields files >>= λ y. got (x ++ y))
      measured
    ∙ ap₂
        (λ r t. check_provenance core p r t (get (codes "source_commit") fields) >>= λ x.
          check_against h core fields files >>= λ y. got (x ++ y))
        (get-updated-ref h written_by p m.fields files)
        (get-updated-tip h written_by p m.fields files)
    ∙ ap₂
        (λ c a.
          check_provenance core p (text p.full_ref) (text p.tip) c >>= λ x. a >>= λ y. got (x ++ y))
        (get-updated-commit h written_by p m.fields files)
        (check_against-pinned h core p.commit fields m.files
          (contains-updated-commit h written_by p m.fields files)
          (get-updated-commit h written_by p m.fields files) shown)
    ∙ ap (λ a. a >>= λ x. got (x ++ [])) (check_provenance-known core p full k)
