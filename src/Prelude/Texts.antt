-- ===== src/Prelude/Texts.antt =====
-- Python's `str` as a list of characters: truth, equality, and slices from the start.
use Prim.Native.Nat.{ℕ, zero, suc, ◌+◌, ◌≤◌}
use Prim.Native.Char.{Char, code}
use mathlib.Core.Path.{◌≡◌, refl}
use mathlib.Core.List.{List, [], ◌∷◌}
use Prim.Native.String.{String}
use mathlib.Core.Bool.{Bool, true, false, not, ◌&&◌}
use mathlib.Core.Option.{Option, none, some}
use native.Mathlib.Omega.{arith}
use astra_licensing_graph.Prelude.Tests.{and_both, ◌==◌, if◌then◌else◌}
pub use text.Mathlib.Text.{◌==◌ as str_eq}
pub use text.Mathlib.TextEquality.{eq_iff as str_eq_iff}

-- `bool(s)`
abbrev pub text_true : String → Bool
text_true String.[] = false
text_true (String.◌∷◌ c s) = true

-- `bool(s)` where `s` may be `None`.
abbrev pub optional_true : Option String → Bool
optional_true none = false
optional_true (some s) = text_true s

-- `s[:n]`
abbrev pub truncate : ℕ → String → String
truncate zero s = String.[]
truncate (suc n) String.[] = String.[]
truncate (suc n) (String.◌∷◌ c s) = String.◌∷◌ c (truncate n s)

-- The number of characters, `len(s)`.
abbrev pub text_length : String → ℕ
text_length String.[] = 0
text_length (String.◌∷◌ c s) = suc (text_length s)

pub text_length-truncate : (n : ℕ) (s : String) → text_length (truncate n s) ≤ n
text_length-truncate zero s = omega arith
text_length-truncate (suc n) String.[] = omega arith
text_length-truncate (suc n) (String.◌∷◌ c s) = omega (arith, text_length-truncate n s)

-- Two texts joined, and `needle in text`.
abbrev pub append_text : String → String → String
append_text String.[] t = t
append_text (String.◌∷◌ c s) t = String.◌∷◌ c (append_text s t)

abbrev pub starts_text : String → String → Bool
starts_text String.[] t = true
starts_text (String.◌∷◌ c s) String.[] = false
starts_text (String.◌∷◌ c s) (String.◌∷◌ d t) =
    let rest = starts_text s t in
    if str_eq (String.◌∷◌ c String.[]) (String.◌∷◌ d String.[]) then rest else false

abbrev pub contains_text : String → String → Bool
contains_text needle String.[] = starts_text needle String.[]
contains_text needle (String.◌∷◌ c s) =
    let rest = contains_text needle s in if starts_text needle (String.◌∷◌ c s) then true else rest

-- `s.split(c)` for one character, by its code.
abbrev pub split_text : ℕ → String → List String
split_text sep String.[] = String.[] ∷ []
split_text sep (String.◌∷◌ c s) =
    let rest = split_text sep s in
    if code c == sep
    then String.[] ∷ rest
    else elim rest [ [] ↦ String.◌∷◌ c String.[] ∷ [] | x ∷ xs ↦ String.◌∷◌ c x ∷ xs ]

-- `s.rstrip(c)` for one character.
abbrev pub rstrip : ℕ → String → String
rstrip sep String.[] = String.[]
rstrip sep (String.◌∷◌ c s) =
    let rest = rstrip sep s in
    if text_true rest
    then String.◌∷◌ c rest
    else if code c == sep
    then String.[]
    else String.◌∷◌ c String.[]

-- `s * n`
abbrev pub repeat_text : String → ℕ → String
repeat_text s zero = String.[]
repeat_text s (suc n) = append_text s (repeat_text s n)

-- A character does not occur in a text.
abbrev pub lacks : ℕ → String → Bool
lacks sep String.[] = true
lacks sep (String.◌∷◌ c s) = not (code c == sep) && lacks sep s

pub text_length-append_text :
    (s t : String) → text_length (append_text s t) ≡ text_length s + text_length t
text_length-append_text String.[] t = omega arith
text_length-append_text (String.◌∷◌ c s) t = omega (arith, text_length-append_text s t)

pub text_length-repeat_text :
    (c : Char) (n : ℕ) → text_length (repeat_text (String.◌∷◌ c String.[]) n) ≡ n
text_length-repeat_text c zero = refl
text_length-repeat_text c (suc n) = omega (arith, text_length-repeat_text c n)

-- A text without the separator is the first part before it.
pub split_text-append :
    (sep : ℕ) (s : String) (c : Char) (t : String)
    → lacks sep s ≡ true
    → code c ≡ sep
    → split_text sep (append_text s (String.◌∷◌ c t)) ≡ s ∷ split_text sep t
split_text-append sep String.[] c t h e = ground (arith, e)
split_text-append sep (String.◌∷◌ d s) c t h e =
    let (other, later) = and_both (not (code d == sep)) (lacks sep s) h in
    rw (split_text-append sep s c t later e) (ground (arith, other))

pub split_text-lacks : (sep : ℕ) (s : String) → lacks sep s ≡ true → split_text sep s ≡ s ∷ []
split_text-lacks sep String.[] h = refl
split_text-lacks sep (String.◌∷◌ d s) h =
    let (other, later) = and_both (not (code d == sep)) (lacks sep s) h in
    rw (split_text-lacks sep s later) (ground (arith, other))

-- Stripping takes the repeated character off, and nothing of a text without it.
pub rstrip-repeat_text :
    (c : Char) (n : ℕ) → rstrip (code c) (repeat_text (String.◌∷◌ c String.[]) n) ≡ String.[]
rstrip-repeat_text c zero = refl
rstrip-repeat_text c (suc n) = rw (rstrip-repeat_text c n) (ground arith)

pub rstrip-append :
    (c : Char) (n : ℕ) (s : String)
    → lacks (code c) s ≡ true
    → rstrip (code c) (append_text s (repeat_text (String.◌∷◌ c String.[]) n)) ≡ s
rstrip-append c n String.[] h = rstrip-repeat_text c n
rstrip-append c n (String.◌∷◌ d s) h =
    let (other, later) = and_both (not (code d == code c)) (lacks (code c) s) h in
    rw (rstrip-append c n s later) (kept s other)
  where
    kept :
        (s' : String)
        → not (code d == code c) ≡ true
        → (if text_true s'
            then String.◌∷◌ d s'
            else if code d == code c
            then String.[]
            else String.◌∷◌ d String.[])
          ≡ String.◌∷◌ d s'
    kept String.[] o = ground (arith, o)
    kept (String.◌∷◌ e s') o = refl
