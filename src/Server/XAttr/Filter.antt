-- ===== src/Server/XAttr/Filter.antt =====
-- The filter of attribute names against lists of names.
use wsfs_core.Prelude.{
  length-drop, ℕ, zero, suc, ◌≡◌, ◌≤◌, ◌<◌, refl, ap, ◌∙◌, sym, true, false, none, some, List, [],
  ◌∷◌, ◌++◌, ◌==◌, if◌then◌else◌, length, take, drop, All, arith, Bool-cases, Option-cases, inl,
  inr, append_assoc, append-nil, length-append, take-length_append, Option,
}
use wsfs_core.Wire.Bytes.{Bytes}
use wsfs_core.Server.XAttr.{
  is_xattr_key_allowed, index_zero, last_is_zero, filter_loop, filter_xattr_list,
}

-- A name is not empty and has no zero byte; a list of names has a zero byte behind each.
abbrev pub IsName : Bytes → Type 0
IsName k = (0 < length k) × (index_zero k ≡ none)

abbrev pub name_list : List Bytes → Bytes
name_list [] = []
name_list (k ∷ ks) = k ++ (0 ∷ name_list ks)

abbrev pub keep : List Bytes → List Bytes → List Bytes
keep prefixes [] = []
keep prefixes (k ∷ ks) =
    if is_xattr_key_allowed prefixes k then (k ∷ keep prefixes ks) else keep prefixes ks

index_zero-append :
    (k d : Bytes) → index_zero k ≡ none → index_zero (k ++ (0 ∷ d)) ≡ some (length k)
unfolding index_zero
index_zero-append [] d e = refl
index_zero-append (b ∷ k) d e = elim (Option-cases (index_zero k)) [
  | inl none_in ↦ ground (arith, index_zero-append k d none_in)
  | inr (n, found) ↦ absurd (ground arith)
]

take_name : (k d : Bytes) → take (suc (length k)) (k ++ (0 ∷ d)) ≡ k ++ (0 ∷ [])
take_name [] d = refl
take_name (b ∷ k) d = ap (λ t. b ∷ t) (take_name k d)

drop_name : (k d : Bytes) → drop (suc (length k)) (k ++ (0 ∷ d)) ≡ d
drop_name [] d = refl
drop_name (b ∷ k) d = drop_name k d

last_is_zero-append :
    (k d : Bytes) → last_is_zero (0 ∷ d) ≡ true → last_is_zero (k ++ (0 ∷ d)) ≡ true
unfolding last_is_zero
last_is_zero-append [] d e = e
last_is_zero-append (b ∷ []) d e = e
last_is_zero-append (b ∷ c ∷ k) d e = last_is_zero-append (c ∷ k) d e

last_is_zero-name_list : (ks : List Bytes) → last_is_zero (0 ∷ name_list ks) ≡ true
unfolding last_is_zero
last_is_zero-name_list [] = refl
last_is_zero-name_list (k ∷ ks) =
    last_is_zero-append (0 ∷ k) (name_list ks) (last_is_zero-name_list ks)

next_filtered :
    (prefixes : List Bytes) (k filtered : Bytes) (ks : List Bytes)
    → (if is_xattr_key_allowed prefixes k then filtered ++ (k ++ (0 ∷ [])) else filtered)
        ++ name_list (keep prefixes ks)
      ≡ filtered ++ name_list (keep prefixes (k ∷ ks))
next_filtered prefixes k filtered ks = elim (Bool-cases (is_xattr_key_allowed prefixes k)) [
  | inl yes' ↦ rw yes' (
      append_assoc filtered (k ++ (0 ∷ [])) (name_list (keep prefixes ks))
      ∙ ap (λ t. filtered ++ t) (append_assoc k (0 ∷ []) (name_list (keep prefixes ks))))
  | inr no' ↦ rw no' refl
]

filter_loop-name_list :
    (prefixes : List Bytes) (fuel : ℕ) (ks : List Bytes) (filtered : Bytes)
    → All IsName ks
    → length (name_list ks) ≤ fuel
    → filter_loop prefixes fuel (name_list ks) filtered
      ≡ some (filtered ++ name_list (keep prefixes ks))
unfolding filter_loop
filter_loop-name_list prefixes zero [] filtered v h = ap (λ t. some t) (sym (append-nil filtered))
filter_loop-name_list prefixes zero (k ∷ ks) filtered v h =
    absurd (omega (arith, length-append k (0 ∷ name_list ks)))
filter_loop-name_list prefixes (suc fuel) [] filtered v h =
    ap (λ t. some t) (sym (append-nil filtered))
filter_loop-name_list prefixes (suc fuel) (k ∷ ks) filtered (v, vs) h =
    let size = length-append k (0 ∷ name_list ks) in
    let some_left : (length (k ++ (0 ∷ name_list ks)) == 0) ≡ false = ground arith in
    let not_empty : (length k == 0) ≡ false = ground arith in
    rw
      (
        filter_loop,
        some_left,
        index_zero-append k (name_list ks) v.1,
        not_empty,
        take-length_append k (0 ∷ name_list ks),
        take_name k (name_list ks),
        drop_name k (name_list ks),
      )
      (filter_loop-name_list prefixes fuel ks _ vs (omega arith)
        ∙ ap (λ t. some t) (next_filtered prefixes k filtered ks))

-- From a list of names, none of them empty or with a zero byte, the filter keeps exactly the names that
-- one of the prefixes lets through, in their order.
pub filter_xattr_list-name_list :
    (prefixes ks : List Bytes)
    → All IsName ks
    → filter_xattr_list prefixes (name_list ks) ≡ some (name_list (keep prefixes ks))
unfolding filter_xattr_list
filter_xattr_list-name_list prefixes [] v = refl
filter_xattr_list-name_list prefixes (k ∷ ks) v =
    let size = length-append k (0 ∷ name_list ks) in
    let some_left : (length (k ++ (0 ∷ name_list ks)) == 0) ≡ false = ground arith in
    rw
      (
        filter_xattr_list,
        some_left,
        last_is_zero-append k (name_list ks) (last_is_zero-name_list ks),
      )
      (filter_loop-name_list prefixes (length (name_list (k ∷ ks))) (k ∷ ks) [] v (omega arith))

index_zero-some :
    (d : Bytes) (n : ℕ)
    → index_zero d ≡ some n
    → (d ≡ take n d ++ (0 ∷ drop (suc n) d))
      × (index_zero (take n d) ≡ none)
      × (length (take n d) ≡ n)
unfolding index_zero
index_zero-some [] n e = absurd (ground arith)
index_zero-some (b ∷ d) zero e = ground arith
index_zero-some (b ∷ d) (suc n) e = elim (Option-cases (index_zero d)) [
  | inl none_in ↦ absurd (ground arith)
  | inr (m, found) ↦ ground (arith, index_zero-some d n)
]

abbrev next_kept : List Bytes → ℕ → Bytes → Bytes → Bytes
next_kept prefixes end d filtered =
    if is_xattr_key_allowed prefixes (take end d) then filtered ++ take (suc end) d else filtered

round_none :
    (prefixes : List Bytes) (fuel b : ℕ) (d filtered : Bytes)
    → index_zero (b ∷ d) ≡ none
    → filter_loop prefixes (suc fuel) (b ∷ d) filtered ≡ none
unfolding filter_loop
round_none prefixes fuel b d filtered e =
    let some_left : (length (b ∷ d) == 0) ≡ false = ground arith in
    rw (filter_loop, some_left, e) refl

round_some :
    (prefixes : List Bytes) (fuel b end : ℕ) (d filtered : Bytes)
    → index_zero (b ∷ d) ≡ some end
    → filter_loop prefixes (suc fuel) (b ∷ d) filtered ≡ (
        if end == 0
        then none
        else filter_loop prefixes fuel
            (drop (suc end) (b ∷ d))
            (next_kept prefixes end (b ∷ d) filtered))
unfolding filter_loop
round_some prefixes fuel b end d filtered e =
    let some_left : (length (b ∷ d) == 0) ≡ false = ground arith in
    rw (filter_loop, some_left, e) refl

goes_on :
    (end : ℕ) (more : Option Bytes) (out : Bytes)
    → (if end == 0 then none else more) ≡ some out
    → (0 < end) × (more ≡ some out)
goes_on end more out e = ground arith

split_names :
    (prefixes : List Bytes) (fuel : ℕ) (d filtered out : Bytes)
    → length d ≤ fuel
    → filter_loop prefixes fuel d filtered ≡ some out
    → (ks : List Bytes) × All IsName ks × (d ≡ name_list ks)
split_names prefixes fuel [] filtered out h e = ([], tt, refl)
split_names prefixes zero (b ∷ d) filtered out h e = absurd (omega arith)
split_names prefixes (suc fuel) (b ∷ d) filtered out h e =
    elim (Option-cases (index_zero (b ∷ d))) [
      | inl none_in ↦ absurd (ground (arith, round_none prefixes fuel b d filtered none_in))
      | inr (end, found) ↦
          let step = round_some prefixes fuel b end d filtered found in
          let whole = index_zero-some (b ∷ d) end found in
          let go : (0 < end)
              × (filter_loop prefixes fuel (drop (suc end) (b ∷ d))
                    (next_kept prefixes end (b ∷ d) filtered)
                  ≡ some out) =
            goes_on end _ out (sym step ∙ e) in
          let (ks, names, rest) =
            split_names prefixes fuel (drop (suc end) (b ∷ d)) _ out
              (omega (arith, length-drop (suc end) (b ∷ d))) go.1 in
          (
            take end (b ∷ d) ∷ ks,
            ((omega (arith, whole.2, go.0), whole.1), names),
            whole.0 ∙ ap (λ t. take end (b ∷ d) ++ (0 ∷ t)) rest,
          )
    ]

looped :
    (prefixes : List Bytes) (b : ℕ) (d out : Bytes)
    → last_is_zero (b ∷ d) ≡ true
    → filter_xattr_list prefixes (b ∷ d) ≡ some out
    → filter_loop prefixes (length (b ∷ d)) (b ∷ d) [] ≡ some out
unfolding filter_xattr_list
looped prefixes b d out ended e = ground arith

accepted :
    (prefixes : List Bytes) (d out : Bytes)
    → filter_xattr_list prefixes d ≡ some out
    → (ks : List Bytes) × All IsName ks × (d ≡ name_list ks)
unfolding filter_xattr_list
accepted prefixes [] out e = ([], tt, refl)
accepted prefixes (b ∷ d) out e = elim (Bool-cases (last_is_zero (b ∷ d))) [
  | inl ended ↦
      split_names prefixes (length (b ∷ d)) (b ∷ d) [] out (omega arith)
        (looped prefixes b d out ended e)
  | inr open' ↦ absurd (ground arith)
]

-- What the filter accepts is a list of names, none of them empty or with a zero byte, of which it keeps
-- exactly those that one of the prefixes lets through.
pub filter_xattr_list_lem :
    (prefixes : List Bytes) (d out : Bytes)
    → filter_xattr_list prefixes d ≡ some out
    → (ks : List Bytes) × All IsName ks × (d ≡ name_list ks) × (out ≡ name_list (keep prefixes ks))
filter_xattr_list_lem prefixes d out e =
    let (ks, names, same) = accepted prefixes d out e in
    let kept : some out ≡ some (name_list (keep prefixes ks)) =
      sym e
      ∙ ap (filter_xattr_list prefixes) same
      ∙ filter_xattr_list-name_list prefixes ks names in
    (ks, names, same, ground (arith, kept))
