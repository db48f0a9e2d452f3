-- ===== src/FileTools/Characters.antt =====
-- `text[:n]` of Python, which counts characters, and from the end when n is negative; and
-- `text.replace(old, new, 1)`.
use Prim.Native.Nat.{ℕ, zero, suc, ◌+◌, ◌-◌, ◌≤◌}
use Prim.Native.String.{String, [], ◌∷◌, ◌++◌, len, slice}
use Prim.Native.String.append
use text.Mathlib.Text.{find?}
use mathlib.Core.Path.{◌≡◌, ap, sym, ◌∙◌}
use mathlib.Core.Option.{Option, none, some}
use text.Mathlib.TextLemmas.{append-nil}
use native.Mathlib.Omega.{arith}
use cloud_agent_platform_dem.Prelude.Int.{ℤ, pos, negsuc}

-- `len(text)`
unfoldable pub count : String → ℕ
count [] = 0
count (c ∷ s) = suc (count s)

unfoldable pub take : ℕ → String → String
take zero s = []
take (suc n) [] = []
take (suc n) (c ∷ s) = c ∷ take n s

unfoldable pub prefix : String → ℤ → String
unfolding take count
prefix s (pos n) = take n s
prefix s (negsuc n) = take (count s - suc n) s

count-take-le : (n : ℕ) (s : String) → count (take n s) ≤ n
unfolding take count
count-take-le zero s = omega arith
count-take-le (suc n) [] = omega arith
count-take-le (suc n) (c ∷ s) = let h = count-take-le n s in omega arith

take-append : (n : ℕ) (s : String) → (rest : String) × (s ≡ take n s ++ rest)
unfolding take
take-append zero s = (s, sym (append.nil s))
take-append (suc n) [] = ([], sym (append.nil []))
take-append (suc n) (c ∷ s) =
    let (rest, e) = take-append n s in
    (rest, ap (λ t. c ∷ t) e ∙ sym (append.cons c (take n s) rest))

-- A beginning of a text that has at most so many characters.
abbrev pub IsBeginning : ℕ → String → String → Type 0
IsBeginning n part text = (count part ≤ n) × ((rest : String) × (text ≡ part ++ rest))

pub prefix-IsBeginning : (n : ℕ) (s : String) → IsBeginning n (prefix s (pos n)) s
unfolding prefix
prefix-IsBeginning n s = (count-take-le n s, take-append n s)

pub whole-IsBeginning : (n : ℕ) (s : String) → count s ≤ n → IsBeginning n s s
whole-IsBeginning n s h = (h, ([], sym (append-nil s)))

abbrev replaced_at : String → String → String → Option ℕ → String
replaced_at s old new none = s
replaced_at s old new (some i) = slice s 0 i ++ (new ++ slice s (i + len old) (len s))

unfoldable pub replace_first : String → String → String → String
replace_first s old new = replaced_at s old new (find? s old)
