-- ===== src/Regex/Complete.antt =====
-- Every word of the pattern's language is among the matches that the engine lists, so `re.match`
-- fails only where no word of the language begins the text.
use vizra_search.Base.{
  ℕ, zero, suc, ◌≤◌, ◌≡◌, refl, ap, true, inl, inr, Option, none, some, List, [], ◌∷◌, ◌++◌,
  append_assoc, arith, length, length-append, In, here, there, In-append_left, In-append_right, Str,
  List-cases, subst,
}
use vizra_search.Regex.Defs.{
  Caps, Regex, empty, char, seq, alt, star, group, dollar, not_behind, not_ahead, Match, Engine,
  last_or, extend, then_each, rounds, loop, mark_group, matches, match_re, does_match, first,
}
use vizra_search.Regex.Language.{Relation, Rounds, stop, more, Lang}

abbrev found : Str → Str → Caps → Match
found w s cs = record { word = w; rest = s; caps = cs }

abbrev IsComplete : Relation → Engine → Type 0
IsComplete L e =
    (p : Option ℕ) (w s : Str) (cs : Caps) → L p w s cs → In (found w s cs) (e p (w ++ s))

abbrev joined : Match → Match → Match
joined m n = found (m.word ++ n.word) n.rest (n.caps ++ m.caps)

In-extend : (m : Match) {n : Match} {ns : List Match} → In n ns → In (joined m n) (extend m ns)
In-extend m (here e) = here (ap (joined m) e)
In-extend m (there i) = there (In-extend m i)

In-mark_group :
    (k : ℕ) {m : Match} {ms : List Match}
    → In m ms
    → In (found m.word m.rest (m.caps ++ (k, m.word) ∷ [])) (mark_group k ms)
In-mark_group k (here e) =
    here (ap (λ (x : Match). found x.word x.rest (x.caps ++ (k, x.word) ∷ [])) e)
In-mark_group k (there i) = there (In-mark_group k i)

In-then_each :
    (b : Engine) (p : Option ℕ) {m n : Match} {ms : List Match}
    → In m ms
    → In n (b (last_or p m.word) m.rest)
    → In (joined m n) (then_each b p ms)
unfolding then_each
In-then_each b p {n = n} (here {x = x} e) l =
    rw (ap (λ y. joined y n) e)
      (In-append_left _ (In-extend x (subst (λ y. In n (b (last_or p y.word) y.rest)) e l)))
In-then_each b p (there i) l = In-append_right _ (In-then_each b p i l)

In-rounds_cons :
    (b : Engine) (p : Option ℕ) (x : Match) (ms : List Match) {n : Match}
    → In n (rounds b p ms)
    → In n (rounds b p (x ∷ ms))
unfolding rounds
In-rounds_cons b p x ms i = elim (List-cases x.word) [
  | inl e ↦ rw (e, rounds) i
  | inr (d, t, e) ↦ rw (e, rounds) (In-append_right _ i)
]

In-rounds_head :
    (b : Engine) (p : Option ℕ) (x : Match) (c : ℕ) (u : Str) (ms : List Match) {k : Match}
    → x.word ≡ c ∷ u
    → In k (extend x (b (last_or p x.word) x.rest))
    → In k (rounds b p (x ∷ ms))
unfolding rounds
In-rounds_head b p x c u ms e i = rw (e, rounds) (In-append_left _ i)

In-rounds :
    (b : Engine) (p : Option ℕ) (c : ℕ) (u : Str) {m n : Match} {ms : List Match}
    → m.word ≡ c ∷ u
    → In m ms
    → In n (b (last_or p m.word) m.rest)
    → In (joined m n) (rounds b p ms)
In-rounds b p c u {n = n} f (here {x = x} {xs = xs} e) l = rw (ap (λ y. joined y n) e) (
    In-rounds_head b p x c u xs (rw e at f)
      (In-extend x (subst (λ y. In n (b (last_or p y.word) y.rest)) e l)))
In-rounds b p c u f (there {x = x} {xs = xs} i) l =
    In-rounds_cons b p x xs (In-rounds b p c u f i l)

-- With at least as much fuel as there are characters to take, no round is missing.
In-loop :
    (L : Relation) (a : Engine) (n : ℕ)
    → IsComplete L a
    → (p : Option ℕ) (w s : Str) (cs : Caps) → length w ≤ n
    → Rounds L p w s cs
    → In (found w s cs) (loop a n p (w ++ s))
unfolding loop
In-loop L a zero h p w s cs f (stop e k) = rw (e, k) (here refl)
In-loop L a zero h p w s cs f (more c u v ca cb e k l r) =
    absurd (omega (arith, ap (length {A = ℕ}) e))
In-loop L a (suc n) h p w s cs f (stop e k) = rw (e, k) (In-append_right _ (here refl))
In-loop L a (suc n) h p w s cs f (more c u v ca cb e k l r) =
    rw (e, k)
      (In-append_left {xs = rounds (loop a n) p (a p (c ∷ ((u ++ v) ++ s)))} _ (
        rw (append_assoc u v s) (
          In-rounds (loop a n) p c u refl (h p (c ∷ u) (v ++ s) ca l) (
            In-loop L a n h (last_or p (c ∷ u)) v s cb
              (omega (arith, ap (length {A = ℕ}) e, length-append u v)) r))))

matches-IsComplete : (r : Regex) → IsComplete (Lang r) (matches r)
unfolding matches
matches-IsComplete empty p w s cs (e, k) = rw (e, k) (here refl)
matches-IsComplete (char q) p w s cs (c, e, k, h) = rw (e, k, h) (here refl)
matches-IsComplete (seq a b) p w s cs t =
    rw (t.word_is, t.caps_are, append_assoc t.fst t.snd s)
      (In-then_each (matches b) p (matches-IsComplete a p t.fst (t.snd ++ s) t.fst_caps t.fst_in)
        (matches-IsComplete b (last_or p t.fst) t.snd s t.snd_caps t.snd_in))
matches-IsComplete (alt a b) p w s cs (inl h) = In-append_left _ (matches-IsComplete a p w s cs h)
matches-IsComplete (alt a b) p w s cs (inr h) = In-append_right _ (matches-IsComplete b p w s cs h)
matches-IsComplete (star a) p w s cs h =
    In-loop (Lang a) (matches a) (length (w ++ s)) (matches-IsComplete a) p w s cs
      (omega (arith, length-append w s)) h
matches-IsComplete (group n a) p w s cs (ca, k, h) =
    rw k (In-mark_group n (matches-IsComplete a p w s ca h))
matches-IsComplete dollar p w s cs (e, k, h) = rw (e, k, h) (here refl)
matches-IsComplete (not_behind q) p w s cs (e, k, h) = rw (e, k, h) (here refl)
matches-IsComplete (not_ahead q) p w s cs (e, k, h) = rw (e, k, h) (here refl)

first-of_In : {m : Match} (ms : List Match) → In m ms → (n : Match) × (first ms ≡ some n)
first-of_In [] i = elim i [ ]
first-of_In (x ∷ ms) i = (x, refl)

-- A text that begins with a word of the pattern's language is accepted.
pub Lang-match_re :
    (r : Regex) (w s : Str) (cs : Caps)
    → Lang r none w s cs
    → (m : Match) × (match_re r (w ++ s) ≡ some m)
unfolding match_re
Lang-match_re r w s cs h = first-of_In _ (matches-IsComplete r none w s cs h)

pub Lang-does_match :
    (r : Regex) (w s : Str) (cs : Caps) → Lang r none w s cs → does_match r (w ++ s) ≡ true
unfolding does_match
Lang-does_match r w s cs h = let (m, e) = Lang-match_re r w s cs h in rw e
