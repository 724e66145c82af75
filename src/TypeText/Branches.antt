-- ===== src/TypeText/Branches.antt =====
-- Each branch of `TypeToLogicalType` on a text of the form that it is for.
use Prim.Native.String.{String}
use uc_catalog.Base.{
  drop_past, refl, ℕ, suc, ◌+◌, ◌-◌, ◌≤◌, ◌<◌, ◌≡◌, ◌≢◌, ap, ◌∙◌, inl, inr, true, false, some, List,
  [], ◌∷◌, ◌++◌, Bytes, codes, ◌==◌, ==_iff, length, drop, length-append, length-drop, starts_with,
  found_at_start-find, find_byte-append, rfind_byte, Lacks, arith,
}
use uc_catalog.Outcome.{Outcome, ok, ◌>>=◌}
use uc_catalog.TypeText.Types.{LogicalType, to_children}
use uc_catalog.TypeText.Scan.{ℤ, pos, is_positive}
use uc_catalog.TypeText.Split.{
  nesting, IsOnePiece, next_separator_piece, substr_piece, substr_front, substr_back,
}
use uc_catalog.TypeText.{substr, children, struct_child, compound, begins, npos}

pub begins-starts_with :
    (prefix : String) (text : Bytes) → begins prefix text ≡ starts_with (codes prefix) text
begins-starts_with prefix text = found_at_start-find (codes prefix) text

module _ {A : Type 0} (item : Bytes → Outcome A) (u text : Bytes) (e i : ℕ) (d : ℤ) (rest : Bytes)
    (ne : u ≢ []) (here : drop i text ≡ u ++ rest) (piece : IsOnePiece d u) {a : A}
    (child : item u ≡ ok a) where
  -- The loop at its last child.
  pub children_last : (f : ℕ) → i + length u ≡ e → children item (suc f) text e i d ≡ ok (a ∷ [])
  unfolding children
  children_last f end =
      rw (next_separator_piece u (length text + 2) text e i d ne fits here piece (inl end)) (
        rw (substr_piece u text i (i + length u - i) rest ne here (omega arith))
          (rw child (rw ((==_iff (i + length u) e).1 end))))
    where
      fits : length u < length text + 2
      fits = omega (arith, ap length here, length-append u rest, length-drop i text)

  -- The loop at a child with more behind it.
  pub children_more :
      (f : ℕ) (tail : Bytes)
      → rest ≡ b',' ∷ tail
      → i + length u < e
      → is_positive (nesting d u) ≡ false
      → children item (suc f) text e i d
        ≡ (children item f text e (i + length u + 1) (nesting d u) >>= λ more. ok (a ∷ more))
  unfolding children
  children_more f tail comma inside level =
      rw
        (next_separator_piece u (length text + 2) text e i d ne fits here piece
          (inr (tail, comma, inside, level)))
        (rw (substr_piece u text i (i + length u - i) rest ne here (omega arith))
          (rw child (rw more)))
    where
      fits : length u < length text + 2
      fits = omega (arith, ap length here, length-append u rest, length-drop i text)

      more : ((i + length u) == e) ≡ false
      more = ground arith

-- The loop at a child behind which another part of the list stands, both at bracket level 0.
pub children_cons :
    {A : Type 0} (item : Bytes → Outcome A) (u tail text : Bytes) (e i f : ℕ) {a : A} {as' : List A}
    → u ≢ []
    → drop i text ≡ u ++ (b',' ∷ tail)
    → IsOnePiece (pos 0) u
    → nesting (pos 0) u ≡ pos 0
    → i + length u < e
    → item u ≡ ok a
    → (drop (i + length u + 1) text ≡ tail
        → children item f text e (i + length u + 1) (pos 0) ≡ ok as')
    → children item (suc f) text e i (pos 0) ≡ ok (a ∷ as')
children_cons item u tail text e i f ne here piece level inside child more =
    children_more item u text e i (pos 0) (b',' ∷ tail) ne here piece child f tail refl inside
      (rw level)
    ∙ rw level (rw (more behind))
  where
    behind : drop (i + length u + 1) text ≡ tail
    behind = drop_past (i + length u) text (b',' ∷ []) (drop_past i text u here)

-- A struct's child with a plain name.
pub struct_child_lem :
    (type_of : Bytes → Outcome LogicalType) (m u : Bytes) {t : LogicalType}
    → Lacks b':' m
    → length u ≤ npos
    → type_of u ≡ ok t
    → struct_child type_of (m ++ (b':' ∷ u)) ≡ ok (m, t)
unfolding struct_child
struct_child_lem type_of m u lacks short read =
    rw (find_byte-append b':' m u lacks, struct_child)
      (rw (substr_front m (b':' ∷ u)) (rw (substr_back m u b':' npos short) (rw read)))

module _ (cast : Bytes → Outcome ℕ) (type_of : Bytes → Outcome LogicalType) (text : Bytes) {e : ℕ}
    (ends : rfind_byte b'>' text ≡ some e) where
  pub compound-array :
      starts_with (codes "array<") text ≡ true
      → {u : Bytes} {t : LogicalType} → starts_with (codes "decimal(") text ≡ false
      → substr text 6 (e - 6) ≡ ok u
      → type_of u ≡ ok t
      → compound cast type_of text ≡ ok (LogicalType.list t)
  unfolding compound
  compound-array head not_decimal cut read =
      rw (begins-starts_with "decimal(" text ∙ not_decimal)
        (rw (begins-starts_with "array<" text ∙ head) (rw (ends, cut, read)))

  pub compound-map :
      {u v : LogicalType}
      → starts_with (codes "decimal(") text ≡ false
      → starts_with (codes "array<") text ≡ false
      → starts_with (codes "map<") text ≡ true
      → children type_of (length text + 2) text e 4 (pos 0) ≡ ok (u ∷ v ∷ [])
      → compound cast type_of text ≡ ok (LogicalType.map u v)
  unfolding compound
  compound-map not_decimal not_array head read =
      rw (begins-starts_with "decimal(" text ∙ not_decimal) (
        rw (begins-starts_with "array<" text ∙ not_array)
          (rw (begins-starts_with "map<" text ∙ head) (rw (ends, read))))

  pub compound-struct :
      {fields : List (Bytes × LogicalType)}
      → starts_with (codes "decimal(") text ≡ false
      → starts_with (codes "array<") text ≡ false
      → starts_with (codes "map<") text ≡ false
      → starts_with (codes "struct<") text ≡ true
      → children (struct_child type_of) (length text + 2) text e 7 (pos 0) ≡ ok fields
      → compound cast type_of text ≡ ok (LogicalType.struct (to_children fields))
  unfolding compound
  compound-struct not_decimal not_array not_map head read =
      rw (begins-starts_with "decimal(" text ∙ not_decimal) (
        rw (begins-starts_with "array<" text ∙ not_array) (
          rw (begins-starts_with "map<" text ∙ not_map)
            (rw (begins-starts_with "struct<" text ∙ head) (rw (ends, read)))))
