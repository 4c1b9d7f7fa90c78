-- ===== src/VendorContract/Url.antt =====
-- scripts/vendor-contract.py, `parse_remote_url` and its patterns. A port has ASCII digits.
use vizra_search.Base.{
  ◌≡◌, refl, ℕ, char_in, ◌≡◌, Bool, not, ◌||◌, Option, none, some, List, [], ◌∷◌, ◌==◌, between,
  if◌then◌else◌, Str, codes, is_space, strip, lower, split_on, join_with, without_suffix, has_infix,
}
use vizra_search.Regex.{
  Regex, Caps, char, seq, star, group, dollar, lit, opt, plus, match_re, group_of,
}

abbrev pub none_of : Str → Regex
none_of s = char (λ c. not (char_in c s))

abbrev pub any_char : Regex
any_char = char (λ c. not (c == b'\n'))

abbrev is_letter : ℕ → Bool
is_letter c = between b'A' b'Z' c || between b'a' b'z' c

abbrev is_digit : ℕ → Bool
is_digit c = between b'0' b'9' c

-- `_SCP_LIKE`: group 1 is `host`, group 2 is `path`.
abbrev pub scp_like : Regex
scp_like = seq (opt (seq (plus (none_of (codes "/@"))) (lit "@"))) (
    seq (group 1 (plus (none_of (codes "/:"))))
      (seq (lit ":") (seq (group 2 (plus any_char)) dollar)))

-- `_URL_LIKE`: the same groups.
abbrev pub url_like : Regex
url_like = seq (char is_letter) (
    seq (star (char (λ c. is_letter c || is_digit c || char_in c (codes "+.-")))) (
      seq (lit "://") (
        seq (opt (seq (star (none_of (codes "/@"))) (lit "@"))) (
          seq (group 1 (star (none_of (codes "/:")))) (
            seq (opt (seq (lit ":") (plus (char is_digit))))
              (seq (lit "/") (seq (group 2 (star any_char)) dollar)))))))

-- The host, and `owner/repo`; `none` is None.
pub record Remote : Type 0 where
  pub host : Option Str
  pub owner_repo : Option Str

abbrev pub not_hosted : Remote
not_hosted = record { host = none; owner_repo = none }

abbrev pub or_none : Str → Option Str
or_none [] = none
or_none (c ∷ s) = some (c ∷ s)

-- `[p for p in parts if p]`
unfoldable pub nonempty : List Str → List Str
nonempty [] = []
nonempty ([] ∷ ws) = nonempty ws
nonempty ((c ∷ s) ∷ ws) = (c ∷ s) ∷ nonempty ws

-- The segments of the path, which are two.
abbrev pub two_segments : Str → List Str → Remote
two_segments host (owner ∷ repo ∷ []) = record {
  host = some host;
  owner_repo = some (join_with b'/' (owner ∷ repo ∷ []));
}
two_segments host _ = record { host = or_none host; owner_repo = none }

-- `path.strip("/")`, without the suffix `.git`
unfoldable pub repository_path : Str → Str
unfolding without_suffix strip
repository_path path = without_suffix (codes ".git") (strip (λ c. c == b'/') path)

abbrev pub matched_remote : Caps → Remote
matched_remote caps =
    two_segments (lower (group_of 1 caps))
      (nonempty (split_on b'/' (repository_path (group_of 2 caps))))

abbrev pub scp_remote : Str → Remote
scp_remote url = elim (match_re scp_like url) [
  | none ↦ not_hosted
  | some m ↦ if has_infix (codes "://") url then not_hosted else matched_remote m.caps
]

unfoldable pub parse_remote_url : Str → Remote
unfolding strip is_space match_re group_of lower nonempty split_on join_with repository_path
    has_infix char_in
parse_remote_url url =
    let s = strip is_space url in
    elim (match_re url_like s) [ some m ↦ matched_remote m.caps | none ↦ scp_remote s ]

abbrev pub canonical_host : Str
canonical_host = codes "github.com"

abbrev pub canonical_owner_repo : Str
canonical_owner_repo = codes "yegamble/vizra-core"

deeper_path :
    parse_remote_url (codes "https://github.com/attacker/x/yegamble/vizra-core")
    ≡ record { host = some canonical_host; owner_repo = none }
unfolding parse_remote_url
deeper_path = refl

with_token :
    parse_remote_url (codes "https://u:t@GitHub.com:443/yegamble/vizra-core.git/")
    ≡ record { host = some canonical_host; owner_repo = some canonical_owner_repo }
unfolding parse_remote_url
with_token = refl

scp_form :
    parse_remote_url (codes "git@github.com:yegamble/vizra-core.git")
    ≡ record { host = some canonical_host; owner_repo = some canonical_owner_repo }
unfolding parse_remote_url
scp_form = refl
