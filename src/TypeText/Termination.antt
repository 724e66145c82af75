-- ===== src/TypeText/Termination.antt =====
-- The fuel of the loops and of the recursion of `TypeToLogicalType` suffices.
use Prim.Native.String.{String}
use uc_catalog.Base.{
  ℕ, zero, suc, ◌+◌, ◌-◌, ◌≤◌, ◌<◌, ◌≡◌, ◌≢◌, ◌⊎◌, inl, inr, true, List, [], ◌∷◌, Bytes, ◌==◌,
  length, drop, length-take-le, length-drop, byte_at, byte_at_le, find_byte, rfind_byte, Bool-cases,
  Option-cases, arith, starts_with-length, found_at_start-find, sym, ◌∙◌, codes, ltb,
}
use uc_catalog.Outcome.{
  Outcome, ok, out_of_fuel, >>=-ne-out_of_fuel, if-ne-out_of_fuel, option-ne-out_of_fuel,
}
use uc_catalog.TypeText.Types.{LogicalType, decimal_of}
use uc_catalog.TypeText.Scan.{ℤ, pos, count_nesting, next_separator}
use uc_catalog.TypeText.{
  substr, primitive, decimal_type, children, map_of, struct_child, compound, logical_type,
  type_to_logical_type, begins, npos, or_npos, sub_size, add_size,
}

-- The scan stops at or behind its start, and at `type_end` or on a byte of the text.
next_separator_bounds :
    (f : ℕ) (text : Bytes) (e i : ℕ) (d : ℤ) {j : ℕ} {d' : ℤ}
    → next_separator f text e i d ≡ ok (j, d')
    → (i ≤ j) × ((j ≡ e) ⊎ (j ≤ length text))
unfolding next_separator
next_separator_bounds zero text e i d h = cc
next_separator_bounds (suc f) text e i d {j} {d'} h = elim (Option-cases (byte_at text i)) [
  | inl past ↦ cc (rw (past, next_separator) at h)
  | inr (c, here) ↦ ground (
    arith,
    rw (here, next_separator) at h,
    byte_at_le text i here,
    next_separator_bounds f text e (i + 1) (count_nesting c d) {j = j} {d' = d'},
  )
]

next_separator_total :
    (f : ℕ) (text : Bytes) (e i : ℕ) (d : ℤ)
    → length text + 2 ≤ i + f
    → i ≤ length text + 1
    → next_separator f text e i d ≢ out_of_fuel
unfolding next_separator
next_separator_total zero text e i d enough inside = absurd (omega arith)
next_separator_total (suc f) text e i d enough inside = elim (Option-cases (byte_at text i)) [
  | inl past ↦ rw (past, next_separator) (λ p. cc)
  | inr (c, here) ↦
      rw (here, next_separator)
        (ground (
          arith,
          byte_at_le text i here,
          next_separator_total f text e (i + 1) (count_nesting c d),
        ))
]

-- A substring that starts behind the first byte is shorter.
substr-lt :
    (text : Bytes) (start count : ℕ) {s : Bytes}
    → substr text start count ≡ ok s
    → (start ≤ length text) × (length s ≤ length text - start)
unfolding substr
substr-lt text start count {s} h =
    ground (arith, length-take-le count (drop start text), length-drop start text)

substr-ne-out_of_fuel : (text : Bytes) (start count : ℕ) → substr text start count ≢ out_of_fuel
unfolding substr
substr-ne-out_of_fuel text start count = ground arith

module _ {A : Type 0} (item : Bytes → Outcome A) (text : Bytes) (e : ℕ) where
  children_total :
      ((s : Bytes) → length s < length text → item s ≢ out_of_fuel)
      → (f i : ℕ) (d : ℤ) → 0 < i
      → length text + 2 ≤ i + f
      → i ≤ length text + 1
      → children item f text e i d ≢ out_of_fuel
  unfolding children
  children_total total zero i d later enough inside = absurd (omega arith)
  children_total total (suc f) i d later enough inside =
      >>=-ne-out_of_fuel (next_separator (length text + 2) text e i d) _
        (next_separator_total (length text + 2) text e i d (omega arith) inside)
        λ (j, d') scanned.
          >>=-ne-out_of_fuel (substr text i (j - i)) _ (substr-ne-out_of_fuel text i (j - i))
            λ s cut.
              let shorter = substr-lt text i (j - i) cut in
              let bounds = next_separator_bounds (length text + 2) text e i d scanned in
              >>=-ne-out_of_fuel (item s) _ (total s (omega arith)) λ a done.
                elim (Bool-cases (j == e)) [
                  | inl last ↦ rw last (λ p. cc)
                  | inr more ↦ rw more (
                      >>=-ne-out_of_fuel (children item f text e (j + 1) d') _
                        (children_total total f (j + 1) d' (omega arith) (omega arith)
                          (ground (arith, bounds)))
                        (λ rest _ p. cc))
                ]

-- What the branches do keeps within the fuel if the recursive call does on shorter texts.
abbrev TotalBelow {ℓ} : {A : Type ℓ} → ℕ → (Bytes → Outcome A) → Type ℓ
TotalBelow n f = (s : Bytes) → length s < n → f s ≢ out_of_fuel

decimal_type_total :
    (cast : Bytes → Outcome ℕ) (text : Bytes)
    → ((s : Bytes) → cast s ≢ out_of_fuel)
    → decimal_type cast text ≢ out_of_fuel
unfolding decimal_type decimal_of
decimal_type_total cast text total =
    option-ne-out_of_fuel (find_byte b')' text) (λ p. cc)
      λ spec_end _.
        let sep = or_npos (find_byte b',' text) in
        >>=-ne-out_of_fuel _ _ (substr-ne-out_of_fuel text 8 (sub_size sep 8)) λ prec_str _.
          >>=-ne-out_of_fuel _ _
            (substr-ne-out_of_fuel text (add_size sep 1) (sub_size (sub_size spec_end sep) 1))
            λ scale_str _. >>=-ne-out_of_fuel _ _ (total prec_str) λ prec _.
              >>=-ne-out_of_fuel _ _ (total scale_str)
                λ scale _. if-ne-out_of_fuel (ltb 38 prec) (λ _ p. cc) (λ p. cc)

struct_child_total :
    (type_of : Bytes → Outcome LogicalType) (n : ℕ)
    → TotalBelow n type_of
    → TotalBelow n (struct_child type_of)
unfolding struct_child
struct_child_total type_of n total s short =
    option-ne-out_of_fuel (find_byte b':' s) (λ p. cc)
      λ type_sep _. >>=-ne-out_of_fuel _ _ (substr-ne-out_of_fuel s 0 type_sep) λ _ _.
        >>=-ne-out_of_fuel _ _ (substr-ne-out_of_fuel s (type_sep + 1) npos) λ type_text cut.
          let shorter = substr-lt s (type_sep + 1) npos cut in
          >>=-ne-out_of_fuel _ _ (total type_text (omega arith)) λ _ _ p. cc

map_of_total : (ts : List LogicalType) → map_of ts ≢ out_of_fuel
map_of_total [] = λ p. cc
map_of_total (a ∷ []) = λ p. cc
map_of_total (a ∷ b ∷ []) = λ p. cc
map_of_total (a ∷ b ∷ c ∷ rest) = λ p. cc

begins-length :
    (prefix : String) (text : Bytes)
    → begins prefix text ≡ true
    → length (codes prefix) ≤ length text
begins-length prefix text h =
    starts_with-length (codes prefix) text (sym (found_at_start-find (codes prefix) text) ∙ h)

compound_total :
    (cast : Bytes → Outcome ℕ) (type_of : Bytes → Outcome LogicalType) (text : Bytes)
    → ((s : Bytes) → cast s ≢ out_of_fuel)
    → TotalBelow (length text) type_of
    → compound cast type_of text ≢ out_of_fuel
unfolding compound
compound_total cast type_of text casts total =
    if-ne-out_of_fuel (begins "decimal(" text) (λ _. decimal_type_total cast text casts)
      (if-ne-out_of_fuel (begins "array<" text)
        (λ _.
          option-ne-out_of_fuel (rfind_byte b'>' text) (λ p. cc)
            λ e _. >>=-ne-out_of_fuel _ _ (substr-ne-out_of_fuel text 6 (e - 6)) λ s cut.
              let shorter = substr-lt text 6 (e - 6) cut in
              >>=-ne-out_of_fuel _ _ (total s (omega arith)) λ _ _ p. cc)
        (if-ne-out_of_fuel (begins "map<" text)
          (λ m.
            option-ne-out_of_fuel (rfind_byte b'>' text) (λ p. cc)
              λ e _.
                >>=-ne-out_of_fuel _ _
                  (children_total type_of text e total (length text + 2) 4 (pos 0) (omega arith)
                    (omega arith) (omega (arith, begins-length "map<" text m)))
                  λ ts _. map_of_total ts)
          (if-ne-out_of_fuel (begins "struct<" text)
            (λ m.
              option-ne-out_of_fuel (rfind_byte b'>' text) (λ p. cc)
                λ e _.
                  >>=-ne-out_of_fuel _ _
                    (children_total (struct_child type_of) text e
                      (struct_child_total type_of (length text) total) (length text + 2) 7 (pos 0)
                      (omega arith) (omega arith) (omega (arith, begins-length "struct<" text m)))
                    λ _ _ p. cc)
            (λ p. cc))))

-- With more fuel than bytes the recursion ends.
logical_type_total :
    (cast : Bytes → Outcome ℕ) (fuel : ℕ) (text : Bytes)
    → ((s : Bytes) → cast s ≢ out_of_fuel)
    → length text < fuel
    → logical_type cast fuel text ≢ out_of_fuel
unfolding logical_type
logical_type_total cast zero text casts enough = elim enough [ ]
logical_type_total cast (suc f) text casts enough = elim (Option-cases (primitive text)) [
  | inl deeper ↦
      rw (deeper, logical_type)
        (compound_total cast (logical_type cast f) text casts
          (λ s short. logical_type_total cast f s casts (omega arith)))
  | inr (t, named) ↦ rw (named, logical_type) (λ p. cc)
]

-- `TypeToLogicalType` comes to an end on every text, if the cast does: it returns, throws, or
-- reads out of bounds.
pub type_to_logical_type_total :
    (cast : Bytes → Outcome ℕ) (text : Bytes)
    → ((s : Bytes) → cast s ≢ out_of_fuel)
    → type_to_logical_type cast text ≢ out_of_fuel
unfolding type_to_logical_type
type_to_logical_type_total cast text casts =
    logical_type_total cast (suc (length text)) text casts (omega arith)
