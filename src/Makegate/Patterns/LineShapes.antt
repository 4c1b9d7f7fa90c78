-- ===== src/Makegate/Patterns/LineShapes.antt =====
-- What the patterns of assignments, `.PHONY` lines and rules match, written without them.
use vizra_search.Base.{
  Option, ℕ, ◌≡◌, ◌≢◌, refl, ap, sym, ◌∙◌, true, inl, inr, none, some, [], ◌∷◌, ◌++◌, append-nil,
  append-eq-nil_left, append_assoc, All-append_right, Lacks, Str, codes, is_blank,
}
use vizra_search.Regex.{
  last_or, seq, char, star, group, dollar, lit, plus, Lang, Rounds, stop, more, Caps, match_re,
  does_match, match_re-Lang, does_match-Lang, group_of, InClass, Rounds-InClass, lit-word, Match,
}
use vizra_search.Makegate.Patterns.{
  alt, g_name, g_assign_re, g_rule_re, g_phony_re, spaced_word, blanks, blanks1, any_but_feed,
  name_start, name_char, word_start, word_char,
}
use vizra_search.Makegate.Patterns.Shapes.{IsIdent, IsWordOf, Lang-IsWordOf, whole_match}

abbrev pub IsBlankText : Str → Type 0
IsBlankText = InClass is_blank

-- A target or a prerequisite.
abbrev pub IsMakeWord : Str → Type 0
IsMakeWord = IsWordOf word_start word_char

-- Words, each behind a blank or more.
pub data IsSpacedWords : Str → Type 0 where
  no_more : IsSpacedWords []
  spaced :
      {t : Str} (blank word rest : Str)
      → blank ≢ []
      → IsBlankText blank
      → IsMakeWord word
      → IsSpacedWords rest
      → t ≡ (blank ++ word) ++ rest
      → IsSpacedWords t

-- What may be assigned to: an identifier, or one of the two special names.
pub data IsVariableName : Str → Type 0 where
  plain_name : {s : Str} → IsIdent s → IsVariableName s
  shellflags : {s : Str} → s ≡ codes ".SHELLFLAGS" → IsVariableName s
  default_goal : {s : Str} → s ≡ codes ".DEFAULT_GOAL" → IsVariableName s

pub data IsAssignOp : Str → Type 0 where
  simple : {s : Str} → s ≡ codes ":=" → IsAssignOp s
  conditional : {s : Str} → s ≡ codes "?=" → IsAssignOp s
  recursive : {s : Str} → s ≡ codes "=" → IsAssignOp s

pub record IsAssignment (code value : Str) : Type 0 where
  pub name : Str
  pub blank : Str
  pub op : Str
  pub code_is : code ≡ name ++ (blank ++ (op ++ value))
  pub is_name : IsVariableName name
  pub only_blanks : IsBlankText blank
  pub is_op : IsAssignOp op

pub record IsRule (code : Str) : Type 0 where
  pub target : Str
  pub blank : Str
  pub prerequisites : Str
  pub trailing : Str
  pub code_is : code ≡ target ++ (blank ++ (codes ":" ++ (prerequisites ++ trailing)))
  pub is_target : IsMakeWord target
  pub only_blanks : IsBlankText blank
  pub are_words : IsSpacedWords prerequisites
  pub is_trailing : IsBlankText trailing

pub record IsPhony (code : Str) : Type 0 where
  pub blank : Str
  pub names : Str
  pub trailing : Str
  pub code_is : code ≡ codes ".PHONY" ++ (blank ++ (codes ":" ++ (names ++ trailing)))
  pub only_blanks : IsBlankText blank
  pub some_names : names ≢ []
  pub are_words : IsSpacedWords names
  pub is_trailing : IsBlankText trailing

blanks1-lem :
    (p : Option ℕ) (w s : Str) (cs : Caps)
    → Lang blanks1 p w s cs
    → (w ≢ []) × IsBlankText w × (cs ≡ [])
blanks1-lem p w s cs t =
    let (c, f, g, h) = t.fst_in in
    let (i, n) = Rounds-InClass is_blank t.snd_in in
    let word : w ≡ c ∷ t.snd = rw (t.word_is, f) in
    (λ e. cc (word, e), rw word (h, i), rw (t.caps_are, g, n))

spaced_word-lem :
    (p : Option ℕ) (w s rest : Str) (cs : Caps)
    → Lang spaced_word p w s cs
    → IsSpacedWords rest
    → IsSpacedWords (w ++ rest) × (cs ≡ [])
spaced_word-lem p w s rest cs t r =
    let (ne, bl, n) = blanks1-lem p t.fst _ t.fst_caps t.fst_in in
    let (wd, k) = Lang-IsWordOf word_start word_char _ t.snd s t.snd_caps t.snd_in in
    (spaced t.fst t.snd rest ne bl wd r (rw t.word_is), rw (t.caps_are, n, k))

word_list_lem :
    {p : Option ℕ} {w s : Str} {cs : Caps}
    → Rounds (Lang spaced_word) p w s cs
    → IsSpacedWords w × (cs ≡ [])
word_list_lem (stop e k) = (rw e no_more, k)
word_list_lem {p} {s = s} (more c u v ca cb e k l r) =
    let (i, n) = word_list_lem r in
    let (j, m) = spaced_word-lem p (c ∷ u) (v ++ s) v ca l i in (rw e j, rw (k, n, m))

g_name-lem :
    (p : Option ℕ) (w s : Str) (cs : Caps) → Lang g_name p w s cs → IsVariableName w × (cs ≡ [])
g_name-lem p w s cs (inl i) =
    let (j, n) = Lang-IsWordOf name_start name_char p w s cs i in (plain_name j, n)
g_name-lem p w s cs (inr (inl i)) =
    let (j, n) = lit-word ".SHELLFLAGS" p w s cs i in (shellflags j, n)
g_name-lem p w s cs (inr (inr i)) =
    let (j, n) = lit-word ".DEFAULT_GOAL" p w s cs i in (default_goal j, n)

assign_op-lem :
    (p : Option ℕ) (w s : Str) (cs : Caps)
    → Lang (alt (lit ":=") (alt (lit "?=") (lit "="))) p w s cs
    → IsAssignOp w × (cs ≡ [])
assign_op-lem p w s cs (inl i) = let (j, n) = lit-word ":=" p w s cs i in (simple j, n)
assign_op-lem p w s cs (inr (inl i)) = let (j, n) = lit-word "?=" p w s cs i in (conditional j, n)
assign_op-lem p w s cs (inr (inr i)) = let (j, n) = lit-word "=" p w s cs i in (recursive j, n)

-- The text of `code` behind a first part that a pattern matched.
behind :
    (c : ℕ) (code w rest a b : Str)
    → code ≡ w ++ rest
    → w ≡ a ++ b
    → Lacks c code
    → Lacks c (b ++ rest)
behind c code w rest a b e f l =
    All-append_right _ a (b ++ rest) (rw (← append_assoc a b rest) (rw (e, f) at l))

assign_value-lem :
    (p : Option ℕ) (w rest : Str) (cs : Caps)
    → Lacks b'\n' (w ++ rest)
    → Lang (seq (group 3 (star (char any_but_feed))) dollar) p w rest cs
    → (rest ≡ []) × (cs ≡ (3, w) ∷ [])
assign_value-lem p w rest cs l t =
    let (e, (ca, f, r)) = whole_match (group 3 (star (char any_but_feed))) p w rest cs l t in
    let (_, n) = Rounds-InClass any_but_feed r in (e, f ∙ rw n)

-- A line that `_G_ASSIGN_RE` matches is an assignment, and group 3 is its value.
pub g_assign_re-IsAssignment :
    (code : Str) (m : Match)
    → Lacks b'\n' code
    → match_re g_assign_re code ≡ some m
    → IsAssignment code (group_of 3 m.caps)
unfolding group_of
g_assign_re-IsAssignment code m l h =
    let (e, t) = match_re-Lang g_assign_re code h in
    let (ca, fa, na) = t.fst_in in
    let (iname, ncaps) = g_name-lem none t.fst (t.snd ++ m.rest) ca na in
    let u = t.snd_in in
    let (iblank, bcaps) = Rounds-InClass is_blank u.fst_in in
    let v = u.snd_in in
    let (cv, fv, nv) = v.fst_in in
    let (iop, ocaps) = assign_op-lem _ v.fst (v.snd ++ m.rest) cv nv in
    let l1 = behind b'\n' code m.word m.rest t.fst t.snd e t.word_is l in
    let l2 = behind b'\n' (t.snd ++ m.rest) t.snd m.rest u.fst u.snd refl u.word_is l1 in
    let l3 = behind b'\n' (u.snd ++ m.rest) u.snd m.rest v.fst v.snd refl v.word_is l2 in
    let (rest_nil, vcaps) = assign_value-lem _ v.snd m.rest v.snd_caps l3 v.snd_in in
    let value : group_of 3 m.caps ≡ v.snd = rw (t.caps_are, u.caps_are, v.caps_are, vcaps) in
    let parts : m.word ≡ t.fst ++ (u.fst ++ (v.fst ++ v.snd)) =
      t.word_is ∙ ap (λ x. t.fst ++ x) (u.word_is ∙ ap (λ x. u.fst ++ x) v.word_is) in
    record {
      name = t.fst;
      blank = u.fst;
      op = v.fst;
      code_is = rw value (e ∙ ap (λ x. m.word ++ x) rest_nil ∙ append-nil m.word ∙ parts);
      is_name = iname;
      only_blanks = iblank;
      is_op = iop;
    }

-- The blanks at the end of a line, and what they end.
trailing-lem :
    (p : Option ℕ) (w rest : Str) (cs : Caps)
    → Lacks b'\n' (w ++ rest)
    → Lang (seq blanks dollar) p w rest cs
    → (rest ≡ []) × IsBlankText w
trailing-lem p w rest cs l t =
    let (e, r) = whole_match blanks p w rest cs l t in (e, (Rounds-InClass is_blank r).0)

-- A line that `_G_RULE_RE` matches is a rule.
pub g_rule_re-IsRule :
    (code : Str) → Lacks b'\n' code → does_match g_rule_re code ≡ true → IsRule code
g_rule_re-IsRule code l h =
    let (m, _, e, t) = does_match-Lang g_rule_re code h in
    let (ca, _, na) = t.fst_in in
    let (iword, _) = Lang-IsWordOf word_start word_char none t.fst (t.snd ++ m.rest) ca na in
    let u = t.snd_in in
    let (iblank, _) = Rounds-InClass is_blank u.fst_in in
    let v = u.snd_in in
    let (colon, _) =
      lit-word ":" (last_or (last_or none t.fst) u.fst) v.fst (v.snd ++ m.rest) v.fst_caps
        v.fst_in in
    let w = v.snd_in in
    let (cw, _, nw) = w.fst_in in
    let (iwords, _) = word_list_lem nw in
    let l1 = behind b'\n' code m.word m.rest t.fst t.snd e t.word_is l in
    let l2 = behind b'\n' (t.snd ++ m.rest) t.snd m.rest u.fst u.snd refl u.word_is l1 in
    let l3 = behind b'\n' (u.snd ++ m.rest) u.snd m.rest v.fst v.snd refl v.word_is l2 in
    let l4 = behind b'\n' (v.snd ++ m.rest) v.snd m.rest w.fst w.snd refl w.word_is l3 in
    let (rest_nil, itrail) = trailing-lem _ w.snd m.rest w.snd_caps l4 w.snd_in in
    let tail : v.fst ++ v.snd ≡ codes ":" ++ (w.fst ++ w.snd) =
      ap (λ x. x ++ v.snd) colon ∙ ap (λ x. codes ":" ++ x) w.word_is in
    let parts : m.word ≡ t.fst ++ (u.fst ++ (codes ":" ++ (w.fst ++ w.snd))) =
      t.word_is ∙ ap (λ x. t.fst ++ x) (u.word_is ∙ ap (λ x. u.fst ++ x) (v.word_is ∙ tail)) in
    record {
      target = t.fst;
      blank = u.fst;
      prerequisites = w.fst;
      trailing = w.snd;
      code_is = e ∙ ap (λ x. m.word ++ x) rest_nil ∙ append-nil m.word ∙ parts;
      is_target = iword;
      only_blanks = iblank;
      are_words = iwords;
      is_trailing = itrail;
    }

-- `(?:[ \t]+` `_G_WORD` `)+` takes a word at least.
some_words-lem :
    (p : Option ℕ) (w s : Str) (cs : Caps)
    → Lang (plus spaced_word) p w s cs
    → (w ≢ []) × IsSpacedWords w
some_words-lem p w s cs t =
    let (i, _) = word_list_lem t.snd_in in
    let (j, _) = spaced_word-lem p t.fst (t.snd ++ s) t.snd t.fst_caps t.fst_in i in
    let word = t.fst_in in
    let (ne, _, _) = blanks1-lem p word.fst _ word.fst_caps word.fst_in in
    (
      λ e. ne (
          append-eq-nil_left word.fst word.snd
            (sym word.word_is ∙ append-eq-nil_left t.fst t.snd (sym t.word_is ∙ e))),
      rw t.word_is j,
    )

-- A line that `_G_PHONY_RE` matches is a `.PHONY` line.
pub g_phony_re-IsPhony :
    (code : Str) → Lacks b'\n' code → does_match g_phony_re code ≡ true → IsPhony code
g_phony_re-IsPhony code l h =
    let (m, _, e, t) = does_match-Lang g_phony_re code h in
    let (phony, _) = lit-word ".PHONY" none t.fst (t.snd ++ m.rest) t.fst_caps t.fst_in in
    let u = t.snd_in in
    let (iblank, _) = Rounds-InClass is_blank u.fst_in in
    let v = u.snd_in in
    let (colon, _) =
      lit-word ":" (last_or (last_or none t.fst) u.fst) v.fst (v.snd ++ m.rest) v.fst_caps
        v.fst_in in
    let w = v.snd_in in
    let (cw, _, nw) = w.fst_in in
    let (ne, iwords) = some_words-lem _ w.fst (w.snd ++ m.rest) cw nw in
    let l1 = behind b'\n' code m.word m.rest t.fst t.snd e t.word_is l in
    let l2 = behind b'\n' (t.snd ++ m.rest) t.snd m.rest u.fst u.snd refl u.word_is l1 in
    let l3 = behind b'\n' (u.snd ++ m.rest) u.snd m.rest v.fst v.snd refl v.word_is l2 in
    let l4 = behind b'\n' (v.snd ++ m.rest) v.snd m.rest w.fst w.snd refl w.word_is l3 in
    let (rest_nil, itrail) = trailing-lem _ w.snd m.rest w.snd_caps l4 w.snd_in in
    let tail : v.fst ++ v.snd ≡ codes ":" ++ (w.fst ++ w.snd) =
      ap (λ x. x ++ v.snd) colon ∙ ap (λ x. codes ":" ++ x) w.word_is in
    let parts : m.word ≡ codes ".PHONY" ++ (u.fst ++ (codes ":" ++ (w.fst ++ w.snd))) =
      t.word_is
      ∙ ap (λ x. x ++ t.snd) phony
      ∙ ap (λ x. codes ".PHONY" ++ x) (u.word_is ∙ ap (λ x. u.fst ++ x) (v.word_is ∙ tail)) in
    record {
      blank = u.fst;
      names = w.fst;
      trailing = w.snd;
      code_is = e ∙ ap (λ x. m.word ++ x) rest_nil ∙ append-nil m.word ∙ parts;
      only_blanks = iblank;
      some_names = ne;
      are_words = iwords;
      is_trailing = itrail;
    }
