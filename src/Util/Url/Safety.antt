-- ===== src/Util/Url/Safety.antt =====
-- What the validity of a path means for the elements of the path.
use wsfs_core.Prelude.{
  ℕ, Bool, true, false, not, ◌&&◌, ◌||◌, List, [], ◌∷◌, ◌++◌, ◌≡◌, refl, ◌∙◌, ◌==◌, if◌then◌else◌,
  arith, append_assoc, sym, Bool-cases, inl, inr,
}
use wsfs_core.Wire.Bytes.{Bytes}
use wsfs_core.Util.Strings.{str_eq, has_prefix, contains, has_suffix}
use mathlib.Core.List.{tail}
use wsfs_core.Util.Url.{slash, dot, is_url_valid, has_dots, starts_with_slash}

-- The elements of a path: what stands before, between and behind its slashes.
abbrev pub first : Bytes → Bytes
first [] = []
first (c ∷ v) = if c == slash then [] else (c ∷ first v)

abbrev pub others : Bytes → List Bytes
others [] = []
others (c ∷ v) = if c == slash then (first v ∷ others v) else others v

abbrev pub elements : Bytes → List Bytes
elements v = first v ∷ others v

abbrev pub is_dots : Bytes → Bool
is_dots e = str_eq e (dot ∷ []) || str_eq e (dot ∷ dot ∷ [])

abbrev pub any : (Bytes → Bool) → List Bytes → Bool
any p [] = false
any p (e ∷ es) = p e || any p es

-- The tests at one position.
dots_here : Bytes → Bool
dots_here v =
    has_prefix v (slash ∷ dot ∷ dot ∷ slash ∷ [])
    || str_eq v (slash ∷ dot ∷ dot ∷ [])
    || has_prefix v (slash ∷ dot ∷ slash ∷ [])
    || str_eq v (slash ∷ dot ∷ [])

dots_here-slash : (v : Bytes) → dots_here (slash ∷ v) ≡ is_dots (first v)
unfolding dots_here has_prefix str_eq
dots_here-slash [] = refl
dots_here-slash (a ∷ []) = ground arith
dots_here-slash (a ∷ b ∷ []) = ground arith
dots_here-slash (a ∷ b ∷ c ∷ v) = ground arith

dots_here-other : (c : ℕ) (v : Bytes) → (c == slash) ≡ false → dots_here (c ∷ v) ≡ false
unfolding dots_here has_prefix str_eq
dots_here-other c v h = ground arith

regroup :
    (a b c d e f g h : Bool)
    → ((a || b) || (c || d) || (e || f) || (g || h)) ≡ ((a || c || e || g) || (b || d || f || h))
regroup true b c d e f g h = refl
regroup false true c d e f g h = ground arith
regroup false false c d e f g h = ground arith

has_dots-cons : (c : ℕ) (v : Bytes) → has_dots (c ∷ v) ≡ (dots_here (c ∷ v) || has_dots v)
unfolding has_dots dots_here contains has_suffix
has_dots-cons c v =
    regroup (has_prefix (c ∷ v) (slash ∷ dot ∷ dot ∷ slash ∷ []))
      (contains v (slash ∷ dot ∷ dot ∷ slash ∷ [])) (str_eq (c ∷ v) (slash ∷ dot ∷ dot ∷ []))
      (has_suffix v (slash ∷ dot ∷ dot ∷ [])) (has_prefix (c ∷ v) (slash ∷ dot ∷ slash ∷ []))
      (contains v (slash ∷ dot ∷ slash ∷ [])) (str_eq (c ∷ v) (slash ∷ dot ∷ []))
      (has_suffix v (slash ∷ dot ∷ []))

has_dots-nil : has_dots [] ≡ false
unfolding has_dots contains has_suffix has_prefix str_eq
has_dots-nil = refl

has_dots-others : (v : Bytes) → has_dots v ≡ any is_dots (others v)
has_dots-others [] = has_dots-nil
has_dots-others (c ∷ v) =
    ground (arith, has_dots-cons c v, dots_here-slash v, dots_here-other c v, has_dots-others v)

-- A path is valid exactly if it starts with a slash and none of its elements is "." or "..".
pub is_url_valid_lem :
    (v : Bytes) → is_url_valid v ≡ (starts_with_slash v && not (any is_dots (elements v)))
unfolding is_url_valid starts_with_slash str_eq
is_url_valid_lem [] = refl
is_url_valid_lem (c ∷ v) = ground (arith, has_dots-others (c ∷ v))

-- The directory that a path leads to from another, by its elements: "" and "." stay, ".." goes up.
-- The innermost element comes first.
unfoldable pub walk : List Bytes → List Bytes → List Bytes
walk dir [] = dir
walk dir (e ∷ es) =
    walk
      (if str_eq e [] || str_eq e (dot ∷ [])
        then dir
        else (if str_eq e (dot ∷ dot ∷ []) then tail dir else (e ∷ dir)))
      es

-- The walk of a path without dots only goes down.
walk_below :
    (dir : List Bytes) (es : List Bytes)
    → any is_dots es ≡ false
    → (below : List Bytes) × (walk dir es ≡ below ++ dir)
unfolding walk
walk_below dir [] h = ([], refl)
walk_below dir (e ∷ es) h = elim (Bool-cases (str_eq e [] || str_eq e (dot ∷ []))) [
  | inl stays ↦ rw stays (walk_below dir es (ground arith))
  | inr moves ↦
      let (below, path) = walk_below (e ∷ dir) es (ground arith) in
      let down : (str_eq e (dot ∷ dot ∷ [])) ≡ false = ground arith in
      (below ++ (e ∷ []), rw (moves, down) (path ∙ sym (append_assoc below (e ∷ []) dir)))
]

-- A walk along the elements of a valid path ends below the root that it starts from, or at it.
pub is_url_valid-below :
    (root : List Bytes) (v : Bytes)
    → is_url_valid v ≡ true
    → (below : List Bytes) × (walk root (elements v) ≡ below ++ root)
is_url_valid-below root v h = walk_below root (elements v) (ground (arith, is_url_valid_lem v))
