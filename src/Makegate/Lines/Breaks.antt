-- ===== src/Makegate/Lines/Breaks.antt =====
-- Where the line reader breaks: a physical line goes on exactly when it ends in an odd number of
-- backslashes, and each record carries the number of its first physical line.
use vizra_search.Base.{
  ◌≢◌, ℕ, ◌+◌, ◌≡◌, refl, Bool, true, false, inl, inr, List, [], ◌∷◌, ◌++◌, Bool-cases, length, All,
  All-append, Str, split_on,
}
use vizra_search.Makegate.Lines.{
  LogicalLine, Open, begin, absorb, finish, continued, collect, lines_of, makefile_lines,
}

-- Every physical line of `segments` but the last goes on in the next; whether the last does is `open`.
pub record IsJoined (open_end : Bool) (segments : List Str) : Type 0 where
  pub before : List Str
  pub final : Str
  pub parts : segments ≡ before ++ final ∷ []
  pub go_on : All (λ p. continued p ≡ true) before
  pub ends : continued final ≡ open_end

-- The records from the physical line `n` on: numbered, and broken where no line goes on. Only the
-- last line of the text may end in a backslash that continues nothing.
abbrev pub Reads : ℕ → List LogicalLine → Type 0
Reads n [] = Unit
Reads n (rec ∷ []) = (rec.n ≡ n) × (open_end : Bool) × IsJoined open_end rec.segments
Reads n (rec ∷ next ∷ lines) =
    (rec.n ≡ n) × IsJoined false rec.segments × Reads (n + length rec.segments) (next ∷ lines)

-- What the open line has: its physical lines so far, all going on but perhaps `cur`.
record IsOpen (o : Open) : Type 0 where
  before : List Str
  parts : o.segments ≡ before ++ o.cur ∷ []
  go_on : All (λ p. continued p ≡ true) before

IsOpen-begin : (n : ℕ) (p : Str) → IsOpen (begin n p)
IsOpen-begin n p = record { before = []; parts = refl; go_on = tt }

IsOpen-absorb : (o : Open) (nxt : Str) → IsOpen o → continued o.cur ≡ true → IsOpen (absorb o nxt)
unfolding absorb
IsOpen-absorb o nxt h e = record {
  before = o.segments;
  parts = refl;
  go_on = rw h.parts (All-append _ h.before (o.cur ∷ []) h.go_on (e, tt));
}

finish-IsJoined :
    (o : Open) (b : Bool) → IsOpen o → continued o.cur ≡ b → IsJoined b (finish o).segments
unfolding finish
finish-IsJoined o b h e = record {
  before = h.before;
  final = o.cur;
  parts = h.parts;
  go_on = h.go_on;
  ends = e;
}

Reads-cons :
    (o : Open) (lines : List LogicalLine)
    → IsJoined false (finish o).segments
    → lines ≢ []
    → Reads (o.first + length o.segments) lines
    → Reads o.first (finish o ∷ lines)
unfolding finish
Reads-cons o [] j ne h = absurd (ne refl)
Reads-cons o (rec ∷ lines) j ne h = (refl, j, h)

collect-ne-nil : (phys : List Str) (o : Open) → collect o phys ≢ []
unfolding collect
collect-ne-nil [] o = λ e. cc
collect-ne-nil (nxt ∷ phys) o = elim (Bool-cases (continued o.cur)) [
  | inl e ↦ rw (e, collect) (collect-ne-nil phys (absorb o nxt))
  | inr e ↦ rw (e, collect) (λ k. cc)
]

first-absorb : (o : Open) (nxt : Str) → (absorb o nxt).first ≡ o.first
unfolding absorb
first-absorb o nxt = refl

collect-Reads : (phys : List Str) (o : Open) → IsOpen o → Reads o.first (collect o phys)
unfolding collect
collect-Reads [] o h =
    unfold finish in (refl, continued o.cur, finish-IsJoined o (continued o.cur) h refl)
collect-Reads (nxt ∷ phys) o h = elim (Bool-cases (continued o.cur)) [
  | inl e ↦
      rw (e, collect)
        (rw first-absorb at (collect-Reads phys (absorb o nxt) (IsOpen-absorb o nxt h e)))
  | inr e ↦
      rw (e, collect)
        (Reads-cons o (collect (begin (o.first + length o.segments) nxt) phys)
          (finish-IsJoined o false h e) (collect-ne-nil phys _)
          (collect-Reads phys (begin (o.first + length o.segments) nxt) (IsOpen-begin _ nxt)))
]

lines_of-Reads : (phys : List Str) → Reads 1 (lines_of phys)
unfolding lines_of
lines_of-Reads [] = tt
lines_of-Reads (p ∷ phys) = collect-Reads phys (begin 1 p) (IsOpen-begin 1 p)

-- The records number the physical lines from 1 and break exactly where a line does not end in an odd
-- number of backslashes.
pub makefile_lines-Reads : (text : Str) → Reads 1 (makefile_lines text)
unfolding makefile_lines
makefile_lines-Reads text = lines_of-Reads (split_on b'\n' text)
