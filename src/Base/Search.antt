-- ===== src/Base/Search.antt =====
-- The functions of Go's package `strings` that the program calls, on bytes; the letters are those
-- of ASCII.
use Prim.Native.Nat.{ℕ, ◌+◌}
use mathlib.Core.Path.{◌≡◌, refl}
use mathlib.Core.Logic.{◌≢◌}
use mathlib.Core.Bool.{Bool, true, false, ◌&&◌, ◌||◌}
use mathlib.Core.Option.{Option, none, some}
use mathlib.Core.List.{List, [], ◌∷◌, ◌++◌}
use native.Mathlib.Omega.{arith}
use sendry.Base.Tests.{leb, ◌==◌, if◌then◌else◌}
use sendry.Base.Bytes.{Text, is_empty}
use sendry.Base.Lists.{length, drop, All}

unfoldable pub lower_byte : ℕ → ℕ
lower_byte c = if leb b'A' c && leb c b'Z' then c + 32 else c

-- strings.ToLower
unfoldable pub to_lower : Text → Text
to_lower [] = []
to_lower (c ∷ s) = lower_byte c ∷ to_lower s

-- strings.HasPrefix(s, p), the prefix first
unfoldable pub has_prefix : Text → Text → Bool
has_prefix [] s = true
has_prefix (c ∷ p) [] = false
has_prefix (c ∷ p) (d ∷ s) = c == d && has_prefix p s

-- strings.Contains(s, p), the part first
unfoldable pub contains : Text → Text → Bool
unfolding has_prefix
contains p [] = has_prefix p []
contains p (c ∷ s) = has_prefix p (c ∷ s) || contains p s

-- strings.HasSuffix(s, p), the suffix first
unfoldable pub has_suffix : Text → Text → Bool
has_suffix p [] = has_prefix p []
has_suffix p (c ∷ s) = (has_prefix p (c ∷ s) && has_prefix (c ∷ s) p) || has_suffix p s

-- The text before and after the last byte `c`, if there is one: strings.LastIndex.
unfoldable pub split_last : ℕ → Text → Option (Text × Text)
split_last c [] = none
split_last c (x ∷ s) = elim (split_last c s) [
  | some (a, b) ↦ some (x ∷ a, b)
  | none ↦ if x == c then some ([], s) else none
]

-- The text before and after the first byte `c`, if there is one: strings.Index.
unfoldable pub split_first : ℕ → Text → Option (Text × Text)
split_first c [] = none
split_first c (x ∷ s) =
    let rest = split_first c s in
    if x == c then some ([], s) else elim rest [ some (a, b) ↦ some (x ∷ a, b) | none ↦ none ]

-- The white space of ASCII.
unfoldable pub is_space : ℕ → Bool
is_space c = c == b' ' || (leb 9 c && leb c 13)

unfoldable pub trim_left : Text → Text
trim_left [] = []
trim_left (c ∷ s) = let rest = trim_left s in if is_space c then rest else c ∷ s

unfoldable pub trim_right : Text → Text
trim_right [] = []
trim_right (c ∷ s) = let rest = trim_right s in if is_empty rest && is_space c then [] else c ∷ rest

-- strings.TrimSpace
unfoldable pub trim_space : Text → Text
unfolding trim_left trim_right
trim_space s = trim_right (trim_left s)

-- The text before and after the first occurrence of a part, if there is one: bytes.Index.
unfoldable pub split_text : Text → Text → Option (Text × Text)
split_text p [] = if has_prefix p [] then some ([], []) else none
split_text p (c ∷ s) =
    let rest = split_text p s in
    if has_prefix p (c ∷ s)
    then some ([], drop (length p) (c ∷ s))
    else elim rest [ some (a, b) ↦ some (c ∷ a, b) | none ↦ none ]

-- The pieces between the bytes `c`, at least one: bytes.Split.
unfoldable pub split_all : ℕ → Text → List Text
split_all c [] = [] ∷ []
split_all c (x ∷ s) = elim (split_all c s) [
  | [] ↦ []
  | piece ∷ pieces ↦ if x == c then [] ∷ (piece ∷ pieces) else (x ∷ piece) ∷ pieces
]

-- A text without a byte.
abbrev pub Without : ℕ → Text → Type 0
Without c s = All (λ x. x ≢ c) s

pub split_first-append :
    (c : ℕ) (s t : Text) → Without c s → split_first c (s ++ (c ∷ t)) ≡ some (s, t)
unfolding split_first
split_first-append c [] t w = ground arith
split_first-append c (x ∷ s) t w = ground (arith, split_first-append c s t w.1, w.0)

pub split_first-none : (c : ℕ) (s : Text) → Without c s → split_first c s ≡ none
unfolding split_first
split_first-none c [] w = refl
split_first-none c (x ∷ s) w = ground (arith, split_first-none c s w.1, w.0)
