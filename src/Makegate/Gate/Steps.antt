-- ===== src/Makegate/Gate/Steps.antt =====
-- What the steps before make establish where they succeed.
use vizra_search.Base.{
  In-mem_str, str_eq_iff, there, here, ◌⊎◌, ap, split_lines, str_eq, ◌≡◌, refl, sym, ◌∙◌, subst,
  true, false, inl, inr, some, List, [], ◌∷◌, map, Bool-cases, Option-cases, All, In, In-All, Str,
  codes, mem_str, dirname, basename,
}
use vizra_search.Makegate.Pin.{Loaded, pins, refused, load_pin}
use vizra_search.Makegate.ReadSet.{ReadSet, static_read_set}
use vizra_search.Makegate.Environ.{clean_env, Env, assigns}
use vizra_search.Makegate.Gate.Machine.{
  make_was_not_invoked, of_pin, Disk, Host, done, gate_refused,
}
use vizra_search.Makegate.Gate.Bytes.{
  sort_pins, Pinned, read_pinned, judge, Checked, check_pinned_bytes, or_crash,
}
use vizra_search.Makegate.Gate.Program.{
  approved_make_dirs, check_program, read_answer, resolve_make, check_environment, shown_lines,
}
use vizra_search.Makegate.Gate.Run.{problems_of}
use vizra_search.Makegate.Gate.Digests.{
  done-eq, Matches, read_pinned-Matches, judge-AgreesWith, sort_pins-In, In-sort_pins,
}
use vizra_search.Makegate.ReadSet.Closed.{IsNoShadow, static_read_set-IsReadSet}
use vizra_search.Makegate.Gate.Texts.{IsAcceptedFile, read_set-IsAcceptedFile}

-- Step 1 and 2: the pin file's entries `pinned` match the files; the read set, `order`, holds Makefile,
-- every pinned file, and each file that a directive of one of its files names, each an accepted text;
-- no entry of the directory shadows Makefile; and the digests are the pinned ones.
pub record IsReviewed (h : Host) (disk : Disk) (c : Checked) : Type 0 where
  pub pinned : List (Str × Str)
  pub loads : load_pin disk.pin ≡ pins pinned
  pub match_all : (e : Str × Str) → In e pinned → Matches h disk e
  pub all_read : (e : Str × Str) → In e pinned → mem_str e.0 c.order ≡ true
  pub present : List Str
  pub listed : disk.listing ≡ some present
  pub unshadowed : All IsNoShadow present
  pub starts : In (codes "Makefile") c.order
  pub accepted : All (IsAcceptedFile disk c.order) c.order
  pub names : map (λ (e : Str × Str). e.0) c.digests ≡ c.order
  pub digests_pinned : (e : Str × Str) → In e c.digests → In e pinned

judged-IsReviewed :
    (h : Host) (disk : Disk) (m : List (Str × Str)) (r : Pinned) (s : ReadSet) (c : Checked)
    → load_pin disk.pin ≡ pins m
    → read_pinned h disk (sort_pins m) ≡ some r
    → static_read_set disk.listing r.texts ≡ some s
    → judge (sort_pins m) r s ≡ done c
    → IsReviewed h disk c
judged-IsReviewed h disk m r s c l a b j =
    let g = judge-AgreesWith (sort_pins m) r s c j in
    let closed = static_read_set-IsReadSet disk.listing r.texts s b g.accepted in
    let (matching, same) = read_pinned-Matches h disk (sort_pins m) r a g.read_well in
    record {
      pinned = m;
      loads = l;
      match_all = λ e i. In-All (Matches h disk) matching (In-sort_pins e m i);
      all_read = λ e i.
          rw g.order_of (
            In-All (λ (x : Str × Str). mem_str x.0 s.order ≡ true) g.all_read (In-sort_pins e m i));
      present = closed.present;
      listed = closed.listed;
      unshadowed = closed.unshadowed;
      starts = rw g.order_of closed.starts;
      accepted =
          rw g.order_of
            (read_set-IsAcceptedFile h disk (sort_pins m) r s c.sites a b g.accepted g.sites_are);
      names = g.digests_are.0 ∙ sym g.order_of;
      digests_pinned = λ e i.
          sort_pins-In e m
            (subst (λ x. In e x) same (In-All (λ x. In x r.digests) g.digests_are.1 i));
    }

-- If check_pinned_bytes returns, every pinned file is regular with the pinned digest and in the read
-- set; the read set holds Makefile and every file that an include or load line of one of its files
-- names, each a UTF-8 text that the grammar accepts; no other spelling of Makefile or GNUmakefile is
-- in the directory; and the digests are pinned ones of the read set.
pub check_pinned_bytes-IsReviewed :
    (h : Host) (disk : Disk) (c : Checked)
    → check_pinned_bytes h disk ≡ done c
    → IsReviewed h disk c
unfolding check_pinned_bytes
check_pinned_bytes-IsReviewed h disk c e = step (load_pin disk.pin) refl e
  where
    step :
        (l : Loaded)
        → load_pin disk.pin ≡ l
        → (elim l [
          | refused p ↦ gate_refused (of_pin p ∷ []) make_was_not_invoked
          | pins m ↦
              or_crash (read_pinned h disk (sort_pins m)) (λ r.
                or_crash (static_read_set disk.listing r.texts) (λ s. judge (sort_pins m) r s))
        ])
          ≡ done c
        → IsReviewed h disk c
    step (refused p) l e = cc
    step (pins m) l e = elim (Option-cases (read_pinned h disk (sort_pins m))) [
      | inl n ↦ cc (rw n at e)
      | inr (r, n) ↦ elim (Option-cases (static_read_set disk.listing r.texts)) [
        | inl k ↦ cc (rw (n, k, or_crash) at e)
        | inr (s, k) ↦ judged-IsReviewed h disk m r s c l n k (rw (n, k, or_crash) at e)
      ]
    ]

-- The directories of the system.
abbrev pub system_dirs : List Str
system_dirs =
    codes "/usr/bin"
    ∷ codes "/bin"
    ∷ codes "/usr/local/bin"
    ∷ codes "/opt/homebrew/bin"
    ∷ codes "/usr/sbin"
    ∷ codes "/sbin"
    ∷ []

-- An executable file of a system directory that is named make or gmake.
pub record IsSystemMake (h : Host) (make : Str) : Type 0 where
  pub executable : h.is_executable make ≡ true
  pub approved : In (dirname make) system_dirs
  pub named : (basename make ≡ codes "make") ⊎ (basename make ≡ codes "gmake")

-- Step 4: the program is the real path of the file that the shell, in a clean environment, names for
-- `make`, and is such a file.
pub record IsApproved (h : Host) (make : Str) : Type 0 where
  pub out : Str
  pub asked : h.ask_shell (clean_env h.environ []) ≡ some out
  pub path : Str
  pub more : List Str
  pub says : shown_lines (split_lines out) ≡ codes "file" ∷ path ∷ more
  pub real : h.realpath path ≡ make
  pub system : IsSystemMake h make

one_of_two : (k a b : Str) → In k (a ∷ b ∷ []) → (k ≡ a) ⊎ (k ≡ b)
one_of_two k a b (here e) = inl e
one_of_two k a b (there (here e)) = inr e
one_of_two k a b (there (there i)) = elim i [ ]

check_program-IsSystemMake :
    (h : Host) (real make : Str)
    → check_program h real ≡ done make
    → (real ≡ make) × IsSystemMake h real
unfolding check_program
check_program-IsSystemMake h real make e = elim (Bool-cases (h.is_executable real)) [
  | inr a ↦ cc (rw a at e)
  | inl a ↦ elim (Bool-cases (mem_str (dirname real) approved_make_dirs)) [
    | inr b ↦ cc (rw (a, b) at e)
    | inl b ↦ elim (Bool-cases (mem_str (basename real) (codes "make" ∷ codes "gmake" ∷ []))) [
      | inr c ↦ cc (rw (a, b, c) at e)
      | inl c ↦ (
        done-eq (rw (a, b, c) at e),
        record {
          executable = a;
          approved = In-mem_str (dirname real) system_dirs b;
          named = one_of_two (basename real) _ _ (In-mem_str (basename real) _ c);
        },
      )
    ]
  ]
]

read_answer-IsApproved :
    (h : Host) (out : Str) (lines : List Str) (make : Str)
    → h.ask_shell (clean_env h.environ []) ≡ some out
    → shown_lines (split_lines out) ≡ lines
    → read_answer h out lines ≡ done make
    → IsApproved h make
unfolding read_answer
read_answer-IsApproved h out [] make n s e = cc
read_answer-IsApproved h out (kind ∷ []) make n s e = cc
read_answer-IsApproved h out (kind ∷ path ∷ more) make n s e =
    elim (Bool-cases (str_eq kind (codes "file"))) [
      | inr a ↦ cc (rw a at e)
      | inl a ↦
          let (real, system) = check_program-IsSystemMake h (h.realpath path) make (rw a at e) in
          record {
            out = out;
            asked = n;
            path = path;
            more = more;
            says = s ∙ ap (λ k. k ∷ path ∷ more) ((str_eq_iff kind (codes "file")).0 a);
            real = real;
            system = subst (IsSystemMake h) real system;
          }
    ]

-- A program that resolve_make returns is the real path of what the shell, asked in a clean
-- environment, names as the file `make`, is executable, stands in one of six system directories and
-- is named make or gmake.
pub resolve_make-IsApproved :
    (h : Host) (make : Str) → resolve_make h ≡ done make → IsApproved h make
unfolding resolve_make
resolve_make-IsApproved h make e = elim (Option-cases (h.ask_shell (clean_env h.environ []))) [
  | inl n ↦ cc (rw (n, resolve_make) at e)
  | inr (out, n) ↦
      read_answer-IsApproved h out (shown_lines (split_lines out)) make n refl
        (rw (n, resolve_make) at e)
]

-- Step 3: where `check_environment` raises nothing, MAKEFILES is not set.
pub check_environment-unset :
    (environ : Env)
    → problems_of (check_environment environ) ≡ []
    → assigns (codes "MAKEFILES") environ ≡ false
unfolding check_environment
check_environment-unset environ e = elim (Bool-cases (assigns (codes "MAKEFILES") environ)) [
  | inr a ↦ a
  | inl a ↦ cc (rw a at e)
]
