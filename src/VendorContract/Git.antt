-- ===== src/VendorContract/Git.antt =====
-- scripts/vendor-contract.py, `git_raw`, `git` and `gits`. What git answers is a parameter.
use vizra_search.Base.{ℕ, Bool, not, Option, List, Str, is_space, strip, decode_utf8, decode_lossy}
use vizra_search.VendorContract.Attempt.{
  git_failed, Attempt, got, ◌>>=◌, ◌>>◌, die_if, some_or_raise,
}

-- `returncode == 0`, and what was written to stdout
pub record Answer : Type 0 where
  pub ok : Bool
  pub stdout : List ℕ

-- A checkout of vizra-core: whether it has a file or a directory `.git`, and git's answer in it to
-- the arguments behind `git -C <core>`; `none`: git could not be started.
pub record Checkout : Type 0 where
  pub has_git : Bool
  pub run : List Str → Option Answer

unfoldable pub git_raw : Checkout → List Str → Attempt Answer
git_raw core args = some_or_raise (core.run args)

unfoldable pub git : Checkout → List Str → Attempt (List ℕ)
unfolding git_raw
git core args = do
  answer ← git_raw core args
  die_if (not answer.ok) (git_failed args)
  got answer.stdout

-- `.decode("utf-8", "replace").strip()`
abbrev pub stripped : List ℕ → Str
stripped raw = strip is_space (decode_lossy raw)

unfoldable pub gits : Checkout → List Str → Attempt Str
unfolding git strip is_space decode_lossy
gits core args = do out ← git core args; got (stripped out)

-- `.decode().strip()`
unfoldable pub strict_text : List ℕ → Attempt Str
unfolding strip is_space decode_utf8
strict_text raw = do decoded ← some_or_raise (decode_utf8 raw); got (strip is_space decoded)
