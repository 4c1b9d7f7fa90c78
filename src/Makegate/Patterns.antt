-- ===== src/Makegate/Patterns.antt =====
-- The patterns of scripts/makegate.py that more than one check reads, one definition for each.
pub mod Shapes
pub mod LineShapes
use vizra_search.Base.{
  ℕ, Bool, ◌||◌, ◌==◌, between, is_blank, is_space, char_in, codes, not, if◌then◌else◌,
}
use vizra_search.Regex.{Regex, char, seq, alt, star, group, dollar, lit, opt, plus}

abbrev pub is_alpha : ℕ → Bool
is_alpha c = between b'A' b'Z' c || between b'a' b'z' c

-- `nxt in "({"`, and the bracket that closes it
abbrev pub is_bracket : ℕ → Bool
is_bracket c = c == b'(' || c == b'{'

abbrev pub closing : ℕ → ℕ
closing nxt = if nxt == b'(' then b')' else b'}'

-- `[A-Za-z_]` and `[A-Za-z0-9_]`
abbrev pub name_start : ℕ → Bool
name_start c = is_alpha c || c == b'_'

abbrev pub name_char : ℕ → Bool
name_char c = name_start c || between b'0' b'9' c

abbrev pub blanks : Regex
blanks = star (char is_blank)

abbrev pub blanks1 : Regex
blanks1 = plus (char is_blank)

abbrev pub spaces : Regex
spaces = star (char is_space)

-- `[A-Za-z_][A-Za-z0-9_]*`
abbrev pub ident : Regex
ident = seq (char name_start) (star (char name_char))

-- `_G_IDENT_RE`
abbrev pub g_ident_re : Regex
g_ident_re = seq ident dollar

-- `_G_NAME`
abbrev pub g_name : Regex
g_name = alt ident (alt (lit ".SHELLFLAGS") (lit ".DEFAULT_GOAL"))

abbrev pub any_but_feed : ℕ → Bool
any_but_feed c = not (c == b'\n')

-- `_G_ASSIGN_RE`
abbrev pub g_assign_re : Regex
g_assign_re = seq (group 1 g_name) (
    seq blanks (
      seq (group 2 (alt (lit ":=") (alt (lit "?=") (lit "="))))
        (seq (group 3 (star (char any_but_feed))) dollar)))

-- `_G_WORD`
abbrev pub word_start : ℕ → Bool
word_start c = name_char c

abbrev pub word_char : ℕ → Bool
word_char c = name_char c || c == b'.' || c == b'/' || c == b'-'

abbrev pub g_word : Regex
g_word = seq (char word_start) (star (char word_char))

-- `(?:[ \t]+` `_G_WORD` `)`
abbrev pub spaced_word : Regex
spaced_word = seq blanks1 g_word

-- `_G_PHONY_RE`
abbrev pub g_phony_re : Regex
g_phony_re =
    seq (lit ".PHONY")
      (seq blanks (seq (lit ":") (seq (group 1 (plus spaced_word)) (seq blanks dollar))))

-- `_G_RULE_RE`
abbrev pub g_rule_re : Regex
g_rule_re =
    seq (group 1 g_word)
      (seq blanks (seq (lit ":") (seq (group 2 (star spaced_word)) (seq blanks dollar))))

-- `shell[ \t]`
abbrev pub shell_call_re : Regex
shell_call_re = seq (lit "shell") (char is_blank)

-- `_G_LEAD_RE`
abbrev pub lead_char : ℕ → Bool
lead_char c = not (is_space c || char_in c (codes ":=?+!#"))

abbrev pub g_lead_re : Regex
g_lead_re = seq (group 1 (plus (char lead_char))) (
    seq blanks (
      opt (
        group 2 (
          alt (lit ":::=") (
            alt (lit "::=") (
              alt (lit ":=") (
                alt (lit "?=") (
                  alt (lit "+=") (
                    alt (lit "!=")
                      (alt (lit "=") (seq (opt (lit "&")) (seq (lit ":") (opt (lit ":"))))))))))))))
