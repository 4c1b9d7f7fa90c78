-- ===== src/VendorContract/Vendor/Measured.antt =====
-- scripts/vendor-contract.py: what is established before the first file is written.
use vizra_search.Base.{subst, true, ◌≡◌, not-false}
use vizra_search.VendorContract.Attempt.{bind-got, then-got, die_if-got, got, got-inj}
use vizra_search.VendorContract.Git.{Checkout}
use vizra_search.VendorContract.Refs.{
  refuse_shallow, resolve_ref, choose_commit, remote_main, check_remote_is_canonical,
}
use vizra_search.VendorContract.Refs.Resolved.{
  IsNotSaidShallow, refuse_shallow-IsNotSaidShallow, IsCanonical, IsResolved, IsOnRef,
  check_remote-IsCanonical, resolve_ref-IsResolved, choose_commit-IsOnRef,
}
use vizra_search.VendorContract.Vendor.{Args, Provenance, ref_of, measure}

-- The provenance is what git says of the checkout.
pub record IsMeasured (core : Checkout) (args : Args) (p : Provenance) : Type 0 where
  pub checkout : core.has_git ≡ true
  pub canonical : IsCanonical core args.remote p.owner_repo
  pub not_said_shallow : IsNotSaidShallow core
  pub full_name : p.full_ref ≡ remote_main args.remote
  pub resolved : IsResolved core args.remote (ref_of args) p.tip
  pub on_ref : IsOnRef core p.commit p.full_ref

pub measure-IsMeasured :
    (core : Checkout) (args : Args) {p : Provenance}
    → measure core args ≡ got p
    → IsMeasured core args p
unfolding measure
measure-IsMeasured core args {p} e =
    let (is_git, e1) = then-got _ _ e in
    let (owner_repo, canonical, e2) = bind-got (check_remote_is_canonical core args.remote) _ e1 in
    let (passed, e3) = then-got (refuse_shallow core) _ e2 in
    let (found, resolved, e4) = bind-got (resolve_ref core args.remote (ref_of args)) _ e3 in
    let (commit, chosen, e5) = bind-got (choose_commit core found.0 args.commit) _ e4 in
    let facts = resolve_ref-IsResolved core args.remote (ref_of args) resolved in
    subst (IsMeasured core args) (got-inj e5) (record {
      checkout = not-false core.has_git (die_if-got _ _ is_git);
      canonical = check_remote-IsCanonical core args.remote canonical;
      not_said_shallow = refuse_shallow-IsNotSaidShallow core passed;
      full_name = facts.0;
      resolved = facts.1;
      on_ref = choose_commit-IsOnRef core found.0 args.commit chosen;
    })
