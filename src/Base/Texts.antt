-- ===== src/Base/Texts.antt =====
-- `std::string` as the list of its bytes, with the members the source uses. A position that the
-- source compares with `npos` is `none` here.
use Prim.Native.Char.{code}
use Prim.Native.String.{String}
use Prim.Native.Nat.{ℕ, zero, suc, ◌≤◌, ◌<◌}
use mathlib.Core.Path.{◌≡◌, refl}
use mathlib.Core.Logic.{◌↔◌, inl, inr}
use mathlib.Core.Bool.{Bool, true, false, ◌&&◌}
use mathlib.Core.Option
use mathlib.Core.Option.{Option, none, some}
use mathlib.Core.List.{List, [], ◌∷◌, ◌++◌}
use native.Mathlib.Omega.{arith}
use uc_catalog.Base.Tests.{◌==◌, if◌then◌else◌, Option-cases}
use uc_catalog.Base.Lists.{length, drop}

abbrev pub Bytes : Type 0
Bytes = List ℕ

-- The bytes of an ASCII literal.
abbrev pub codes : String → Bytes
codes String.[] = []
codes (String.◌∷◌ c s) = code c ∷ codes s

-- `a == b`
abbrev pub equal : Bytes → Bytes → Bool
equal (c ∷ left) (d ∷ right) = if c == d then equal left right else false
equal [] [] = true
equal [] (d ∷ right) = false
equal (c ∷ left) [] = false

-- `s.empty()`
abbrev pub is_empty : Bytes → Bool
is_empty [] = true
is_empty (c ∷ cs) = false

abbrev pub starts_with : Bytes → Bytes → Bool
starts_with [] text = true
starts_with (p ∷ ps) [] = false
starts_with (p ∷ ps) (c ∷ cs) = p == c && starts_with ps cs

-- `text.find(pattern)`
abbrev pub find : Bytes → Bytes → Option ℕ
find pattern [] = if starts_with pattern [] then some 0 else none
find pattern (c ∷ cs) =
    if starts_with pattern (c ∷ cs) then some 0 else Option.map suc (find pattern cs)

-- `text.find(pattern) == 0`
abbrev pub found_at_start : Option ℕ → Bool
found_at_start (some zero) = true
found_at_start _ = false

-- `text.find(c)`
abbrev pub find_byte : ℕ → Bytes → Option ℕ
find_byte b [] = none
find_byte b (c ∷ cs) = if c == b then some 0 else Option.map suc (find_byte b cs)

-- `text.rfind(c)`
abbrev pub rfind_byte : ℕ → Bytes → Option ℕ
rfind_byte b [] = none
rfind_byte b (c ∷ cs) = elim (rfind_byte b cs) [
  | some i ↦ some (suc i)
  | none ↦ if c == b then some 0 else none
]

-- `text[i]`: the terminating NUL at `i == size()`, undefined behind it.
abbrev pub byte_at : Bytes → ℕ → Option ℕ
byte_at [] zero = some 0
byte_at [] (suc i) = none
byte_at (c ∷ cs) zero = some c
byte_at (c ∷ cs) (suc i) = byte_at cs i

-- The test decides equality.
pub equal_iff : (left right : Bytes) → (equal left right ≡ true) ↔ (left ≡ right)
equal_iff [] [] = ground arith
equal_iff [] (d ∷ right) = ground arith
equal_iff (c ∷ left) [] = ground arith
equal_iff (c ∷ left) (d ∷ right) = ground (arith, equal_iff left right)

-- A search that is only compared with 0 asks for a prefix.
pub found_at_start-find :
    (pattern text : Bytes) → found_at_start (find pattern text) ≡ starts_with pattern text
found_at_start-find pattern [] = ground arith
found_at_start-find pattern (c ∷ cs) = ground arith

pub starts_with-length :
    (pattern text : Bytes) → starts_with pattern text ≡ true → length pattern ≤ length text
starts_with-length [] text h = omega arith
starts_with-length (p ∷ ps) [] h = cc
starts_with-length (p ∷ ps) (c ∷ cs) h = ground (arith, starts_with-length ps cs)

-- The first `b` stands behind a part with none.
abbrev pub Lacks : ℕ → Bytes → Type 0
Lacks b [] = Unit {0}
Lacks b (c ∷ cs) = ((c == b) ≡ false) × Lacks b cs

pub find_byte-append :
    (b : ℕ) (u rest : Bytes) → Lacks b u → find_byte b (u ++ b ∷ rest) ≡ some (length u)
find_byte-append b [] rest h = ground arith
find_byte-append b (c ∷ cs) rest h = ground (arith, find_byte-append b cs rest h.1)

-- The last `b` is the end of a text that ends with it.
pub rfind_byte-concat : (b : ℕ) (u : Bytes) → rfind_byte b (u ++ b ∷ []) ≡ some (length u)
rfind_byte-concat b [] = ground arith
rfind_byte-concat b (c ∷ cs) = rw (rfind_byte-concat b cs)

rfind_byte-Lacks : (b : ℕ) (u : Bytes) → Lacks b u → rfind_byte b u ≡ none
rfind_byte-Lacks b [] h = refl
rfind_byte-Lacks b (c ∷ cs) h = rw (rfind_byte-Lacks b cs h.1, h.0)

-- What stands behind the last `b` does not matter.
pub rfind_byte-append :
    (b : ℕ) (u rest : Bytes) → Lacks b rest → rfind_byte b (u ++ b ∷ rest) ≡ some (length u)
rfind_byte-append b [] rest h = rw (rfind_byte-Lacks b rest h) (ground arith)
rfind_byte-append b (c ∷ cs) rest h = rw (rfind_byte-append b cs rest h)

rfind_byte-lt : (b : ℕ) (u : Bytes) {i : ℕ} → rfind_byte b u ≡ some i → i < length u
rfind_byte-lt b [] e = cc
rfind_byte-lt b (c ∷ cs) {i} e = elim (Option-cases (rfind_byte b cs)) [
  | inl missing ↦ ground arith
  | inr (j, found) ↦ ground (arith, rfind_byte-lt b cs {i = j} found)
]

pub byte_at_le : (u : Bytes) (i : ℕ) {c : ℕ} → byte_at u i ≡ some c → i ≤ length u
byte_at_le [] zero e = omega arith
byte_at_le [] (suc i) e = cc
byte_at_le (x ∷ xs) zero e = omega arith
byte_at_le (x ∷ xs) (suc i) e = omega (arith, byte_at_le xs i e)

pub byte_at-drop :
    (u : Bytes) (i : ℕ) {c : ℕ} {cs : Bytes} → drop i u ≡ c ∷ cs → byte_at u i ≡ some c
byte_at-drop [] zero e = cc
byte_at-drop [] (suc i) e = cc
byte_at-drop (x ∷ xs) zero e = ground arith
byte_at-drop (x ∷ xs) (suc i) e = byte_at-drop xs i e

-- Behind its bytes a text reads NUL once; what follows is undefined.
pub byte_at_end : (u : Bytes) (i : ℕ) → i ≡ length u → byte_at u i ≡ some 0
byte_at_end [] zero e = refl
byte_at_end [] (suc i) e = absurd (omega arith)
byte_at_end (x ∷ xs) zero e = absurd (omega arith)
byte_at_end (x ∷ xs) (suc i) e = byte_at_end xs i (omega arith)

pub byte_at_past : (u : Bytes) (i : ℕ) → length u < i → byte_at u i ≡ none
byte_at_past [] zero h = elim h [ ]
byte_at_past [] (suc i) h = refl
byte_at_past (x ∷ xs) zero h = elim h [ ]
byte_at_past (x ∷ xs) (suc i) h = byte_at_past xs i (omega arith)

pub equal_comm : (left right : Bytes) → equal left right ≡ equal right left
equal_comm [] [] = refl
equal_comm [] (d ∷ right) = refl
equal_comm (c ∷ left) [] = refl
equal_comm (c ∷ left) (d ∷ right) = ground (arith, equal_comm left right)
