-- ===== src/Makegate/Characters/Exact.antt =====
-- Which texts have no forbidden character.
use vizra_search.Base.{
  ℕ, ◌≤◌, ◌≡◌, ◌⊎◌, refl, true, false, inl, inr, none, some, [], ◌∷◌, ◌==◌, arith, All,
  Option-cases, between, Str, is_space, ◌||◌, ◌↔◌, Bool-cases, if◌then◌else◌,
}
use vizra_search.Makegate.Characters.{
  control, invisible, non_ascii_space, is_control, is_format, forbidden_char, first_forbidden,
}

-- TAB, printable ASCII, or a character that is no control, format or white-space character.
pub data IsPlainChar (c : ℕ) : Type 0 where
  tab : c ≡ 9 → IsPlainChar c
  printable : 32 ≤ c → c ≤ 126 → IsPlainChar c
  beyond : is_control c ≡ false → is_format c ≡ false → is_space c ≡ false → IsPlainChar c

ascii_test : (c : ℕ) → (c == 9 || between 32 126 c) ≡ true → (c ≡ 9) ⊎ ((32 ≤ c) × (c ≤ 126))
ascii_test c h = ground arith

ascii_control : (c k : ℕ) → k ≤ 13 → (c == k) ≡ true → is_control c ≡ true
unfolding is_control
ascii_control c k le h = ground arith

forbidden_char-none : (c : ℕ) → forbidden_char c ≡ none → IsPlainChar c
unfolding forbidden_char
forbidden_char-none c h = elim (Bool-cases (c == 9 || between 32 126 c)) [
  | inl e ↦ elim (ascii_test c e) [ inl t ↦ tab t | inr p ↦ printable p.0 p.1 ]
  | inr e ↦ elim (Bool-cases (c == 13)) [
    | inl k ↦ cc (rw (e, k) at h)
    | inr k ↦ elim (Bool-cases (c == 0)) [
      | inl z ↦ cc (rw (e, k, z) at h)
      | inr z ↦ others (rw (e, k, z) at h)
    ]
  ]
]
  where
    others :
        (if is_control c
            then some (control c)
            else if is_format c
            then some (invisible c)
            else if is_space c
            then some (non_ascii_space c)
            else none)
          ≡ none
        → IsPlainChar c
    others h = elim (Bool-cases (is_control c)) [
      | inl e ↦ cc (rw e at h)
      | inr e ↦ elim (Bool-cases (is_format c)) [
        | inl k ↦ cc (rw (e, k) at h)
        | inr k ↦ elim (Bool-cases (is_space c)) [
          | inl z ↦ cc (rw (e, k, z) at h)
          | inr z ↦ beyond e k z
        ]
      ]
    ]

IsPlainChar-none : (c : ℕ) → IsPlainChar c → forbidden_char c ≡ none
unfolding forbidden_char
IsPlainChar-none c (tab e) = rw e refl
IsPlainChar-none c (printable lo hi) =
    let e : (c == 9 || between 32 126 c) ≡ true = ground arith in rw e refl
IsPlainChar-none c (beyond e k z) = elim (Bool-cases (c == 9 || between 32 126 c)) [
  | inl t ↦ rw t refl
  | inr t ↦
      let not_cr : (c == 13) ≡ false = ground (arith, ascii_control c 13) in
      let not_nul : (c == 0) ≡ false = ground (arith, ascii_control c 0) in
      rw (t, not_cr, not_nul, e, k, z)
]

-- No character is forbidden exactly when each is TAB, printable ASCII, or neither control, format
-- nor white space.
pub first_forbidden-none : (s : Str) → (first_forbidden s ≡ none) ↔ All IsPlainChar s
unfolding first_forbidden
first_forbidden-none [] = (λ h. tt, λ h. refl)
first_forbidden-none (c ∷ s) =
    let rest = first_forbidden-none s in
    (
      λ h. elim (Option-cases (forbidden_char c)) [
        | inl e ↦ (forbidden_char-none c e, rest.0 (rw (e, first_forbidden) at h))
        | inr (w, e) ↦ cc (rw (e, first_forbidden) at h)
      ],
      λ h. rw (IsPlainChar-none c h.0, first_forbidden) (rest.1 h.1),
    )
