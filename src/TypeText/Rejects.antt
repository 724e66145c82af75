-- ===== src/TypeText/Rejects.antt =====
-- Texts that `TypeToLogicalType` does not read: a decimal type directly in a map or a struct, and
-- a list of children that ends with a comma.
use uc_catalog.Base.{
  ℕ, suc, ◌+◌, ◌-◌, ◌≤◌, ◌<◌, ◌≡◌, ◌≢◌, refl, ap, ◌∙◌, inr, true, false, none, some, List, [], ◌∷◌,
  ◌++◌, append_assoc, Bytes, codes, ◌==◌, length, length-append, length-drop, drop,
  drop-append_self, Lacks, find_byte, rfind_byte, byte_at-drop, byte_at_end, byte_at_past,
  starts_with, arith,
}
use uc_catalog.Outcome.{Outcome, ok, throws, undefined, ◌>>=◌, Exception, not_implemented}
use uc_catalog.TypeText.Types.{LogicalType}
use uc_catalog.TypeText.Scan.{pos, next_separator, is_positive}
use uc_catalog.TypeText.Split.{
  nesting, IsOnePiece, IsOnePiece-append, EndsPiece, next_separator_piece, substr_piece,
}
use uc_catalog.TypeText.Pieces.{
  nesting-type_text, IsOnePiece-child, nesting-IsPlain, IsOnePiece-IsPlain, digits-IsPlain,
}
use uc_catalog.TypeText.Branches.{begins-starts_with, children_more}
use uc_catalog.TypeText.RoundTrip.{bracket_end, type_text-ne-nil, read_type}
use uc_catalog.TypeText.Decimals.{digits-Lacks}
use uc_catalog.TypeText.Print.{
  UcType, decimal, map, digits, type_text, decimal_text, IsReadable, is_decimal,
}
use uc_catalog.TypeText.{
  decimal_type, children, map_of, compound, logical_type, type_to_logical_type, npos,
}

find_byte_none : (b : ℕ) (u : Bytes) → Lacks b u → find_byte b u ≡ none
find_byte_none b [] h = refl
find_byte_none b (c ∷ cs) h = rw (h.0, find_byte_none b cs h.1)

-- The text of a decimal type, cut at its comma.
abbrev cut_decimal : ℕ → Bytes
cut_decimal p = codes "decimal(" ++ digits p

decimal_type_none :
    (cast : Bytes → Outcome ℕ) (text : Bytes)
    → find_byte b')' text ≡ none
    → decimal_type cast text ≡ throws not_implemented
unfolding decimal_type
decimal_type_none cast text e = rw (e, decimal_type)

cut_decimal_lem :
    (cast : Bytes → Outcome ℕ) (p f : ℕ)
    → p < 256
    → logical_type cast (suc f) (cut_decimal p) ≡ throws not_implemented
unfolding logical_type
cut_decimal_lem cast p f h =
    decimal_type_none cast (cut_decimal p) (find_byte_none b')' (cut_decimal p) lacking)
  where
    inner : Lacks b')' (digits p)
    inner = digits-Lacks b')' p (omega arith) (omega arith)

    lacking : Lacks b')' (cut_decimal p)
    lacking = (refl, (refl, (refl, (refl, (refl, (refl, (refl, (refl, inner))))))))

-- The loop ends with the exception that a child throws.
children_throws :
    {A : Type 0} (item : Bytes → Outcome A) (u rest text : Bytes) (e i f : ℕ) {x : Exception}
    → u ≢ []
    → drop i text ≡ u ++ rest
    → IsOnePiece (pos 0) u
    → EndsPiece e (i + length u) (nesting (pos 0) u) rest
    → item u ≡ throws x
    → children item (suc f) text e i (pos 0) ≡ throws x
unfolding children
children_throws item u rest text e i f ne here piece ends thrown =
    rw (next_separator_piece u (length text + 2) text e i (pos 0) ne fits here piece ends)
      (rw (substr_piece u text i (i + length u - i) rest ne here (omega arith)) (rw thrown))
  where
    fits : length u < length text + 2
    fits = omega (arith, ap length here, length-append u rest, length-drop i text)

-- A child that would begin at `type_end`, on the last '>' of the text: the scan steps over that
-- byte and the terminating NUL, and reads on.
next_separator_past :
    (text : Bytes) (e f : ℕ)
    → drop e text ≡ b'>' ∷ []
    → next_separator (suc (suc (suc f))) text e e (pos 0) ≡ undefined
unfolding next_separator
next_separator_past text e f here =
    rw (byte_at-drop text e here, next_separator)
      (rw apart (
        rw (byte_at_end text (e + 1) size, next_separator)
          (rw apart' (rw (byte_at_past text (e + 1 + 1) (omega (arith, size)), next_separator)))))
  where
    size : e + 1 ≡ length text
    size = omega (arith, ap length here, length-drop e text)

    apart : ((e + 1) == e) ≡ false
    apart = ground arith

    apart' : ((e + 1 + 1) == e) ≡ false
    apart' = ground arith

children_past :
    {A : Type 0} (item : Bytes → Outcome A) (text : Bytes) (e f : ℕ)
    → drop e text ≡ b'>' ∷ []
    → children item (suc f) text e e (pos 0) ≡ undefined
unfolding children
children_past item text e f here = rw scanned
  where
    rounds : length text + 2 ≡ suc (suc (suc e))
    rounds = omega (arith, ap length here, length-drop e text)

    scanned : next_separator (length text + 2) text e e (pos 0) ≡ undefined
    scanned = rw rounds (next_separator_past text e e here)

-- The map branch, from what its loop ends with.
compound_map_fails :
    (cast : Bytes → Outcome ℕ) (type_of : Bytes → Outcome LogicalType) (text : Bytes) {e : ℕ}
    (r : Outcome (List LogicalType))
    → rfind_byte b'>' text ≡ some e
    → starts_with (codes "decimal(") text ≡ false
    → starts_with (codes "array<") text ≡ false
    → starts_with (codes "map<") text ≡ true
    → children type_of (length text + 2) text e 4 (pos 0) ≡ r
    → compound cast type_of text ≡ (r >>= map_of)
unfolding compound
compound_map_fails cast type_of text r ends not_decimal not_array head read =
    rw (begins-starts_with "decimal(" text ∙ not_decimal) (
      rw (begins-starts_with "array<" text ∙ not_array)
        (rw (begins-starts_with "map<" text ∙ head) (rw (ends, read))))

-- A map whose key is a decimal type with a precision below 256 is refused, whatever its scale and
-- its value: the comma of the decimal type is taken for the one behind the key.
pub map_decimal_rejected :
    (cast : Bytes → Outcome ℕ) (p s : ℕ) (v : UcType)
    → p < 256
    → type_to_logical_type cast (type_text (map (decimal p s) v)) ≡ throws not_implemented
unfolding type_to_logical_type type_text
map_decimal_rejected cast p s v hp =
    compound_map_fails cast (logical_type cast (length text)) text (throws not_implemented)
      (bracket_end (codes "map<") (decimal_text p s ++ (b',' ∷ type_text v))) refl refl refl
      (rw rounds (
        children_throws (logical_type cast (length text)) (cut_decimal p) rest text e 4
          (suc (length text)) (λ q. cc) here piece (inr (_, refl, inside, level))
          (cut_decimal_lem cast p fuel hp)))
  where
    text : Bytes
    text = codes "map<" ++ ((decimal_text p s ++ (b',' ∷ type_text v)) ++ (b'>' ∷ []))

    rounds : length text + 2 ≡ suc (suc (length text))
    rounds = omega arith

    -- One less than the length of `text`.
    fuel : ℕ
    fuel = length (codes "ap<" ++ ((decimal_text p s ++ (b',' ∷ type_text v)) ++ (b'>' ∷ [])))

    rest : Bytes
    rest = b',' ∷ ((digits s ++ (b')' ∷ (b',' ∷ type_text v))) ++ (b'>' ∷ []))

    e : ℕ
    e = length (codes "map<" ++ (decimal_text p s ++ (b',' ∷ type_text v)))

    here : drop 4 text ≡ cut_decimal p ++ rest
    here = simp append_assoc

    piece : IsOnePiece (pos 0) (cut_decimal p)
    piece =
        IsOnePiece-append (pos 0) (codes "decimal(") (digits p)
          (refl, (refl, (refl, (refl, (refl, (refl, (refl, (refl, tt))))))))
          (IsOnePiece-IsPlain (pos 0) (digits p) (digits-IsPlain p (omega arith)))

    level : is_positive (nesting (pos 0) (cut_decimal p)) ≡ false
    level = rw (nesting-IsPlain (pos 0) (digits p) (digits-IsPlain p (omega arith)))

    inside : 4 + length (cut_decimal p) < e
    inside = omega (
      arith,
      ap length here,
      length-append (cut_decimal p) rest,
      length-drop 4 text,
      length-append (codes "map<" ++ (decimal_text p s ++ (b',' ∷ type_text v))) (b'>' ∷ []),
      length-append (digits s ++ (b')' ∷ (b',' ∷ type_text v))) (b'>' ∷ []),
    )

-- A map text with a comma but no value is read out of bounds, if its key is readable, no decimal
-- type and no longer than a `std::string` can be, and the cast reads the numerals below 256.
pub map_no_value_undefined :
    (cast : Bytes → Outcome ℕ) (k : UcType)
    → ((n : ℕ) → n < 256 → cast (digits n) ≡ ok n)
    → IsReadable k
    → is_decimal k ≡ false
    → length (type_text k) ≤ npos
    → type_to_logical_type cast (codes "map<" ++ ((type_text k ++ (b',' ∷ [])) ++ (b'>' ∷ [])))
      ≡ undefined
unfolding type_to_logical_type
map_no_value_undefined cast k casts h d short =
    compound_map_fails cast (logical_type cast (length text)) text undefined
      (bracket_end (codes "map<") (u ++ (b',' ∷ []))) refl refl refl
      (rw rounds (
        children_more (logical_type cast (length text)) u text e 4 (pos 0) _ (type_text-ne-nil k)
          (append_assoc u (b',' ∷ []) (b'>' ∷ [])) (IsOnePiece-child k h d)
          (read_type cast casts k h (length text) (omega (arith, size)) short) (suc (length text))
          (b'>' ∷ []) refl (omega (arith, size)) (rw balanced)
        ∙ rw balanced (rw past)))
  where
    u : Bytes
    u = type_text k

    text : Bytes
    text = codes "map<" ++ ((u ++ (b',' ∷ [])) ++ (b'>' ∷ []))

    e : ℕ
    e = length (codes "map<" ++ (u ++ (b',' ∷ [])))

    rounds : length text + 2 ≡ suc (suc (length text))
    rounds = omega arith

    size : (length text ≡ e + 1) × (e ≡ 4 + length u + 1)
    size = (
      omega (arith, length-append (codes "map<" ++ (u ++ (b',' ∷ []))) (b'>' ∷ [])),
      omega (arith, length-append u (b',' ∷ [])),
    )

    balanced : nesting (pos 0) u ≡ pos 0
    balanced = nesting-type_text k 0 h

    past :
        children
          (logical_type cast (length text))
          (suc (length text))
          text
          e
          (4 + length u + 1)
          (pos 0)
        ≡ undefined
    past = rw (← size.1) (
        children_past (logical_type cast (length text)) text e (length text)
          (drop-append_self (codes "map<" ++ (u ++ (b',' ∷ []))) (b'>' ∷ [])))
