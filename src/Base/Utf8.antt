-- ===== src/Base/Utf8.antt =====
-- Python's strict UTF-8 decoding, `bytes.decode("utf-8")`: no overlong form, no surrogate, nothing
-- beyond U+10FFFF.
use Prim.Native.Nat.{ℕ, ◌+◌, ◌-◌, ◌*◌}
use mathlib.Core.Path.{◌≡◌, refl}
use mathlib.Core.List.{List, [], ◌∷◌}
use mathlib.Core.Option.{Option, none, some}
use vizra_search.Base.Tests.{◌==◌, between, if◌then◌else◌, leb}
use vizra_search.Base.Text.{Str}

-- What the bytes so far ask for: `more k value lo hi` wants k more bytes, the next within lo and hi.
pub data Pending : Type 0 where
  start : Pending
  more : ℕ → ℕ → ℕ → ℕ → Pending
  bad : Pending

lead : ℕ → Pending
lead b =
    if between 0xc2 0xdf b
    then more 1 (b - 0xc0) 0x80 0xbf
    else if b == 0xe0
    then more 2 0 0xa0 0xbf
    else if b == 0xed
    then more 2 0xd 0x80 0x9f
    else if between 0xe1 0xef b
    then more 2 (b - 0xe0) 0x80 0xbf
    else if b == 0xf0
    then more 3 0 0x90 0xbf
    else if b == 0xf4
    then more 3 4 0x80 0x8f
    else if between 0xf1 0xf3 b
    then more 3 (b - 0xf0) 0x80 0xbf
    else bad

abbrev prepend : ℕ → Option Str → Option Str
prepend c none = none
prepend c (some s) = some (c ∷ s)

decode_from : Pending → List ℕ → Option Str
unfolding lead
decode_from start [] = some []
decode_from start (b ∷ bs) =
    let ascii = prepend b (decode_from start bs) in
    let longer = decode_from (lead b) bs in if leb b 0x7f then ascii else longer
decode_from (more k value lo hi) [] = none
decode_from (more k value lo hi) (b ∷ bs) =
    let v = value * 64 + (b - 0x80) in
    let char = prepend v (decode_from start bs) in
    let onward = decode_from (more (k - 1) v 0x80 0xbf) bs in
    if between lo hi b then (if k == 1 then char else onward) else none
decode_from bad bs = none

unfoldable pub decode_utf8 : List ℕ → Option Str
unfolding decode_from
decode_utf8 = decode_from start

-- `bytes.decode("utf-8", "replace")`: U+FFFD for each longest run that begins no valid sequence.
lossy_from : Pending → List ℕ → Str
unfolding lead
lossy_from start [] = []
lossy_from _ [] = 0xfffd ∷ []
lossy_from p (b ∷ bs) =
    let after = lossy_from start bs in
    let begun = lossy_from (lead b) bs in
    let fresh = (if leb b 0x7f then b ∷ after else begun) in
    let further =
      λ (k v : ℕ). if k == 1 then v ∷ after else lossy_from (more (k - 1) v 0x80 0xbf) bs in
    elim p [
      | start ↦ fresh
      | more k value lo hi ↦
          if between lo hi b then further k (value * 64 + (b - 0x80)) else 0xfffd ∷ fresh
      | bad ↦ 0xfffd ∷ fresh
    ]

unfoldable pub decode_lossy : List ℕ → Str
unfolding lossy_from
decode_lossy = lossy_from start

replaces :
    decode_lossy (0x61 ∷ 0xe2 ∷ 0x82 ∷ 0x62 ∷ 0xff ∷ 0xc3 ∷ 0xa9 ∷ 0xe0 ∷ 0x80 ∷ 0xf0 ∷ [])
    ≡ 0x61 ∷ 0xfffd ∷ 0x62 ∷ 0xfffd ∷ 0xe9 ∷ 0xfffd ∷ 0xfffd ∷ 0xfffd ∷ []
unfolding decode_lossy
replaces = refl

decodes :
    decode_utf8 (0x61 ∷ 0xc3 ∷ 0xa9 ∷ 0xe2 ∷ 0x82 ∷ 0xac ∷ 0xf0 ∷ 0x9f ∷ 0x98 ∷ 0x80 ∷ [])
    ≡ some (0x61 ∷ 0xe9 ∷ 0x20ac ∷ 0x1f600 ∷ [])
unfolding decode_utf8
decodes = refl

refuses_surrogate : decode_utf8 (0xed ∷ 0xa0 ∷ 0x80 ∷ []) ≡ none
unfolding decode_utf8
refuses_surrogate = refl
