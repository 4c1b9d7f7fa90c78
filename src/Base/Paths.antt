-- ===== src/Base/Paths.antt =====
-- Python's `os.path` on POSIX, as far as the scripts call it.
use mathlib.Core.Path.{◌≡◌, refl}
use mathlib.Core.List.{List, [], ◌∷◌, ◌++◌, reverse}
use mathlib.Core.Bool.{Bool, true, false, not, ◌&&◌, ◌||◌}
use vizra_search.Base.Tests.{◌==◌, if◌then◌else◌}
use vizra_search.Base.Text.{Str, codes, str_eq, split_on, join_with, starts_with}

abbrev last_is_up : List Str → Bool
last_is_up [] = false
last_is_up (w ∷ ws) = str_eq w (codes "..")

abbrev is_none : List Str → Bool
is_none [] = true
is_none (w ∷ ws) = false

abbrev but_first : List Str → List Str
but_first [] = []
but_first (w ∷ ws) = ws

-- The loop of `normpath` over the components; `acc` is `new_comps` with its last entry first.
comps : Bool → List Str → List Str → List Str
unfolding str_eq
comps rooted acc [] = acc
comps rooted acc (w ∷ ws) =
    comps rooted
      (if str_eq w [] || str_eq w (codes ".")
        then acc
        else if not (str_eq w (codes "..")) || (not rooted && is_none acc) || last_is_up acc
        then w ∷ acc
        else but_first acc)
      ws

-- Exactly two leading slashes stay.
abbrev slashes : Str → Str
slashes s =
    if starts_with (codes "//") s && not (starts_with (codes "///") s)
    then codes "//"
    else if starts_with (codes "/") s
    then codes "/"
    else []

abbrev or_dot : Str → Str
or_dot [] = codes "."
or_dot (c ∷ s) = c ∷ s

unfoldable pub normpath : Str → Str
unfolding comps split_on join_with starts_with str_eq
normpath s =
    or_dot (
      slashes s
      ++ join_with b'/' (reverse (comps (starts_with (codes "/") s) [] (split_on b'/' s))))

-- `os.path.split`: the text up to the last slash with it, and the text behind it.
split_path : Str → Str × Str
split_path [] = ([], [])
split_path (c ∷ s) =
    let (head, tail) = split_path s in
    elim head [
      | [] ↦ if c == b'/' then (c ∷ [], tail) else ([], c ∷ tail)
      | h ∷ hs ↦ (c ∷ h ∷ hs, tail)
    ]

all_slashes : Str → Bool
all_slashes [] = true
all_slashes (c ∷ s) = c == b'/' && all_slashes s

rstrip_slashes : Str → Str
rstrip_slashes [] = []
rstrip_slashes (c ∷ s) = elim (rstrip_slashes s) [
  | [] ↦ if c == b'/' then [] else c ∷ []
  | d ∷ t ↦ c ∷ d ∷ t
]

unfoldable pub basename : Str → Str
unfolding split_path
basename s = (split_path s).1

unfoldable pub dirname : Str → Str
unfolding split_path all_slashes rstrip_slashes
dirname s = let head = (split_path s).0 in if all_slashes head then head else rstrip_slashes head

unfoldable pub is_absolute : Str → Bool
unfolding starts_with
is_absolute s = starts_with (codes "/") s

normalises : normpath (codes "a/./b//../c/") ≡ codes "a/c"
unfolding normpath
normalises = refl

keeps_up : normpath (codes "../a/../..") ≡ codes "../.."
unfolding normpath
keeps_up = refl

splits : dirname (codes "/home/x/_runner_file_commands/env") ≡ codes "/home/x/_runner_file_commands"
unfolding dirname
splits = refl
