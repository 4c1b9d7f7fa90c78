-- ===== src/VendorContract/Attempt.antt =====
-- How a step of scripts/vendor-contract.py ends: with a value, by `die`, or by an exception.
use vizra_search.Base.{◌≢◌, List, Bool, true, false, ◌≡◌, refl, Option, none, some, Str}

-- The calls of `die`, one constructor each, with what the message names.
pub data Refusal : Type 0 where
  git_failed : List Str → Refusal
  no_remote : Str → Refusal
  foreign_remote : Str → Refusal
  no_main : Str → Refusal
  not_a_commit : Str → Str → Refusal
  unknown_ref : Str → Refusal
  -- the ref that was asked for, what it resolves to, what it should be
  other_ref : Str → Str → Str → Refusal
  shallow : Refusal
  no_such_commit : Str → Refusal
  no_api_commit : Str → Refusal
  not_ancestor : Str → Str → Refusal
  bad_json foreign_manifest few_files : Refusal
  lacks_key : Str → Refusal
  moved_file : Refusal
  not_plain : Str → Refusal
  empty_file : Str → Refusal
  no_checkout : Refusal
  not_read_back : Str → Refusal
  -- `ap.error`
  core_required : Refusal

pub data Attempt (A : Type 0) : Type 0 where
  got : A → Attempt A
  died : Refusal → Attempt A
  raised : Attempt A

infixl 10 ◌>>=◌ ◌>>◌
abbrev pub ◌>>=◌ : {A B : Type 0} → Attempt A → (A → Attempt B) → Attempt B
got a >>= f = f a
died r >>= f = died r
raised >>= f = raised

abbrev pub ◌>>◌ : {B : Type 0} → Attempt Unit → Attempt B → Attempt B
m >> k = m >>= λ _. k

-- `if b: die(r)`
abbrev pub die_if : Bool → Refusal → Attempt Unit
die_if true r = died r
die_if false r = got tt

abbrev pub some_or_raise : {A : Type 0} → Option A → Attempt A
some_or_raise none = raised
some_or_raise (some a) = got a

pub bind-got :
    {A B : Type 0} (m : Attempt A) (f : A → Attempt B) {b : B}
    → (m >>= f) ≡ got b
    → ((a : A) × (m ≡ got a) × (f a ≡ got b))
bind-got (got a) f h = (a, refl, h)
bind-got (died r) f h = cc
bind-got raised f h = cc

pub then-got :
    {B : Type 0} (m : Attempt Unit) (k : Attempt B) {b : B}
    → (m >> k) ≡ got b
    → (m ≡ got tt) × (k ≡ got b)
then-got (got tt) k h = (refl, h)
then-got (died r) k h = cc
then-got raised k h = cc

pub die_if-got : (b : Bool) (r : Refusal) → die_if b r ≡ got tt → b ≡ false
die_if-got true r h = cc
die_if-got false r h = refl

pub some_or_raise-got : {A : Type 0} (o : Option A) {a : A} → some_or_raise o ≡ got a → o ≡ some a
some_or_raise-got none h = cc
some_or_raise-got (some b) h = cc

pub got-inj : {A : Type 0} {a b : A} → got a ≡ got b → a ≡ b
got-inj h = cc

pub died-not-got : {A : Type 0} {r : Refusal} {a : A} → died r ≢ got a
died-not-got = λ e. cc

pub raised-not-got : {A : Type 0} {a : A} → raised ≢ got a
raised-not-got = λ e. cc
