-- ===== src/TypeText/RoundTrip.antt =====
-- `TypeToLogicalType` reads the text of every readable type back as its meaning.
use uc_catalog.Base.{
  ℕ, zero, suc, ◌+◌, ◌-◌, ◌≤◌, ◌<◌, ◌≡◌, ◌≢◌, refl, ap, ◌∙◌, false, some, List, [], ◌∷◌, ◌++◌,
  append_assoc, Bytes, codes, length, length-append, drop, Lacks, rfind_byte, rfind_byte-concat,
  arith, ◌^◌,
}
use uc_catalog.Outcome.{Outcome, ok}
use uc_catalog.TypeText.Types.{LogicalType, Children, to_children}
use uc_catalog.TypeText.Scan.{pos}
use uc_catalog.TypeText.Split.{substr_piece}
use uc_catalog.TypeText.Pieces.{
  nesting-type_text, IsOnePiece-child, IsOnePiece-field, nesting-field,
}
use uc_catalog.TypeText.Branches.{
  children_cons, children_last, struct_child_lem, compound-array, compound-map, compound-struct,
}
use uc_catalog.TypeText.Decimals.{decimal_type_lem}
use uc_catalog.TypeText.Print.{
  Name, tinyint, UcType, named, decimal, array, map, struct, Fields, last, field, name_text,
  name_meaning, digits, type_text, fields_text, meaning, fields_meaning, IsPlain, IsReadable,
  is_decimal, AreReadable,
}
use uc_catalog.TypeText.{
  substr, primitive, children, struct_child, logical_type, type_to_logical_type, npos,
}

primitive-name_text : (n : Name) → primitive (name_text n) ≡ some (name_meaning n)
unfolding primitive name_text name_meaning
primitive-name_text tinyint = refl
primitive-name_text n = refl

pub type_text-ne-nil : (t : UcType) → type_text t ≢ []
unfolding type_text
type_text-ne-nil (named tinyint) = λ p. cc
type_text-ne-nil (named n) = λ p. cc
type_text-ne-nil (decimal p s) = λ p. cc
type_text-ne-nil (array t) = λ p. cc
type_text-ne-nil (map k v) = λ p. cc
type_text-ne-nil (struct fs) = λ p. cc

-- `std::vector` of the children of a struct.
abbrev pub field_list : Fields → List (Bytes × LogicalType)
field_list (last m t) = (m, meaning t) ∷ []
field_list (field m t fs) = (m, meaning t) ∷ field_list fs

to_children-field_list : (fs : Fields) → to_children (field_list fs) ≡ fields_meaning fs
unfolding meaning
to_children-field_list (last m t) = refl
to_children-field_list (field m t fs) =
    ap (Children.child m (meaning t)) (to_children-field_list fs)

IsPlain-Lacks : (m : Bytes) → IsPlain m → Lacks b':' m
IsPlain-Lacks [] h = tt
IsPlain-Lacks (c ∷ cs) h = (h.3, IsPlain-Lacks cs h.4)

-- The ends of a bracketed text: the last byte is its only '>' outside of the inner text.
pub bracket_end :
    (head u : Bytes) → rfind_byte b'>' ((head ++ u) ++ (b'>' ∷ [])) ≡ some (length (head ++ u))
bracket_end head u = rfind_byte-concat b'>' (head ++ u)

module _ (cast : Bytes → Outcome ℕ) where
  -- With enough fuel the text of `t` is read as its meaning.
  abbrev pub ReadsType : UcType → Type 0
  ReadsType t =
      (f : ℕ)
      → length (type_text t) < f
      → length (type_text t) ≤ npos
      → logical_type cast f (type_text t) ≡ ok (meaning t)

  -- So are fields that stand from `i` up to `e`.
  abbrev pub ReadsFields : Fields → Type 0
  ReadsFields fs =
      (f g : ℕ) (text : Bytes) (e i : ℕ) (rest : Bytes)
      → length (fields_text fs) ≤ f
      → length (fields_text fs) ≤ npos
      → length (fields_text fs) ≤ g
      → drop i text ≡ fields_text fs ++ rest
      → i + length (fields_text fs) ≡ e
      → children (struct_child (logical_type cast f)) g text e i (pos 0) ≡ ok (field_list fs)

  read_named : (n : Name) → ReadsType (named n)
  unfolding type_text meaning logical_type
  read_named n zero enough short = elim enough [ ]
  read_named n (suc f) enough short = rw (primitive-name_text n, logical_type)

  read_decimal :
      (p s : ℕ)
      → p ≤ 38
      → s ≤ p
      → cast (digits p) ≡ ok p
      → cast (digits s) ≡ ok s
      → ReadsType (decimal p s)
  unfolding type_text meaning logical_type
  read_decimal p s hp hs cast_p cast_s zero enough short = elim enough [ ]
  read_decimal p s hp hs cast_p cast_s (suc f) enough short =
      decimal_type_lem cast p s hp hs cast_p cast_s

  read_array : (t : UcType) → ReadsType t → ReadsType (array t)
  unfolding type_text meaning logical_type
  read_array t ih zero enough short = elim enough [ ]
  read_array t ih (suc f) enough short =
      compound-array cast (logical_type cast f) text (bracket_end (codes "array<") u) refl refl cut
        (ih f (omega (arith, size)) (omega (arith, size)))
    where
      u : Bytes
      u = type_text t

      text : Bytes
      text = codes "array<" ++ (u ++ (b'>' ∷ []))

      size : length text ≡ length u + 7
      size = omega (arith, length-append u (b'>' ∷ []))

      cut : substr text 6 (length (codes "array<" ++ u) - 6) ≡ ok u
      cut = substr_piece u text 6 _ (b'>' ∷ []) (type_text-ne-nil t) refl (omega arith)

  read_map :
      (k v : UcType)
      → IsReadable k
      → is_decimal k ≡ false
      → IsReadable v
      → is_decimal v ≡ false
      → ReadsType k
      → ReadsType v
      → ReadsType (map k v)
  unfolding type_text meaning logical_type
  read_map k v hk dk hv dv ihk ihv zero enough short = elim enough [ ]
  read_map k v hk dk hv dv ihk ihv (suc f) enough short =
      compound-map cast (logical_type cast f) text (bracket_end (codes "map<") (a ++ (b',' ∷ b)))
        refl refl refl (rw rounds pair)
    where
      a : Bytes
      a = type_text k

      b : Bytes
      b = type_text v

      text : Bytes
      text = codes "map<" ++ ((a ++ (b',' ∷ b)) ++ (b'>' ∷ []))

      rounds : length text + 2 ≡ suc (suc (length text))
      rounds = omega arith

      e : ℕ
      e = length (codes "map<" ++ (a ++ (b',' ∷ b)))

      size : (e ≡ 4 + length a + 1 + length b) × (length text ≡ suc e)
      size = (
        omega (arith, length-append a (b',' ∷ b)),
        omega (arith, length-append (a ++ (b',' ∷ b)) (b'>' ∷ [])),
      )

      pair :
          children (logical_type cast f) (suc (suc (length text))) text e 4 (pos 0)
          ≡ ok (meaning k ∷ meaning v ∷ [])
      pair =
          children_cons (logical_type cast f) a (b ++ (b'>' ∷ [])) text e 4 (suc (length text))
            (type_text-ne-nil k) (append_assoc a (b',' ∷ b) (b'>' ∷ [])) (IsOnePiece-child k hk dk)
            (nesting-type_text k 0 hk) (omega (arith, size))
            (ihk f (omega (arith, size)) (omega (arith, size)))
            λ here.
              children_last (logical_type cast f) b text e _ (pos 0) (b'>' ∷ [])
                (type_text-ne-nil v) here (IsOnePiece-child v hv dv)
                (ihv f (omega (arith, size)) (omega (arith, size))) (length text)
                (omega (arith, size))

  read_struct : (fs : Fields) → ReadsFields fs → ReadsType (struct fs)
  unfolding type_text meaning logical_type
  read_struct fs ih zero enough short = elim enough [ ]
  read_struct fs ih (suc f) enough short = rw (← to_children-field_list fs) (
      compound-struct cast (logical_type cast f) text (bracket_end (codes "struct<") u) refl refl
        refl refl
        (ih f (length text + 2) text (length (codes "struct<" ++ u)) 7 (b'>' ∷ [])
          (omega (arith, size)) (omega (arith, size)) (omega (arith, size)) refl (omega arith)))
    where
      u : Bytes
      u = fields_text fs

      text : Bytes
      text = codes "struct<" ++ (u ++ (b'>' ∷ []))

      size : length text ≡ length u + 8
      size = omega (arith, length-append u (b'>' ∷ []))

  field-ne-nil : (m u : Bytes) → m ++ (b':' ∷ u) ≢ []
  field-ne-nil [] u = λ p. cc
  field-ne-nil (c ∷ m) u = λ p. cc

  read_child :
      (m : Bytes) (t : UcType) (f : ℕ)
      → IsPlain m
      → ReadsType t
      → length (m ++ (b':' ∷ type_text t)) ≤ f
      → length (m ++ (b':' ∷ type_text t)) ≤ npos
      → struct_child (logical_type cast f) (m ++ (b':' ∷ type_text t)) ≡ ok (m, meaning t)
  read_child m t f plain ih enough short =
      let size = length-append m (b':' ∷ type_text t) in
      struct_child_lem (logical_type cast f) m (type_text t) (IsPlain-Lacks m plain)
        (omega (arith, size)) (ih f (omega (arith, size)) (omega (arith, size)))

  module _ (m : Bytes) (t : UcType) (plain : IsPlain m) (h : IsReadable t)
      (d : is_decimal t ≡ false) (ih : ReadsType t) where
    read_last : ReadsFields (last m t)
    unfolding type_text
    read_last f zero text e i rest enough short rounds here ends =
        absurd (omega (arith, length-append m (b':' ∷ type_text t)))
    read_last f (suc g) text e i rest enough short rounds here ends =
        children_last (struct_child (logical_type cast f)) (m ++ (b':' ∷ type_text t)) text e i
          (pos 0) rest (field-ne-nil m (type_text t)) here (IsOnePiece-field m t plain h d)
          (read_child m t f plain ih enough short) g ends

    read_field : (fs : Fields) → ReadsFields fs → ReadsFields (field m t fs)
    unfolding type_text
    read_field fs ihs f zero text e i rest enough short rounds here ends =
        absurd (omega (arith, length-append (m ++ (b':' ∷ type_text t)) (b',' ∷ fields_text fs)))
    read_field fs ihs f (suc g) text e i rest enough short rounds here ends =
        children_cons (struct_child (logical_type cast f)) u (fields_text fs ++ rest) text e i g
          (field-ne-nil m (type_text t)) (here ∙ append_assoc u (b',' ∷ fields_text fs) rest)
          (IsOnePiece-field m t plain h d) (nesting-field m t plain h) (omega (arith, size))
          (read_child m t f plain ih (omega (arith, size)) (omega (arith, size)))
          λ behind.
            ihs f g text e _ rest (omega (arith, size)) (omega (arith, size)) (omega (arith, size))
              behind (omega (arith, size))
      where
        u : Bytes
        u = m ++ (b':' ∷ type_text t)

        size : length (u ++ (b',' ∷ fields_text fs)) ≡ length u + 1 + length (fields_text fs)
        size = omega (arith, length-append u (b',' ∷ fields_text fs))

module _ (cast : Bytes → Outcome ℕ) (casts : (n : ℕ) → n < 256 → cast (digits n) ≡ ok n) where
  mutual
    pub read_type : (t : UcType) → IsReadable t → ReadsType cast t
    read_type (named n) h = read_named cast n
    read_type (decimal p s) h =
        read_decimal cast p s h.0 h.1 (casts p (omega (arith, h))) (casts s (omega (arith, h)))
    read_type (array t) h = read_array cast t (read_type t h)
    read_type (map k v) h = read_map cast k v h.0 h.1 h.2 h.3 (read_type k h.0) (read_type v h.2)
    read_type (struct fs) h = read_struct cast fs (read_fields fs h)

    pub read_fields : (fs : Fields) → AreReadable fs → ReadsFields cast fs
    read_fields (last m t) h = read_last cast m t h.0 h.1 h.2 (read_type t h.1)
    read_fields (field m t fs) h =
        read_field cast m t h.0 h.1 h.2 (read_type t h.1) fs (read_fields fs h.3)

  -- The reader returns the meaning of every readable type from its text, if the text is shorter than
  -- 2^31 bytes, which keeps `nested_opens` within an `int`, and the cast reads the numerals below
  -- 256.
  pub type_to_logical_type-type_text :
      (t : UcType)
      → IsReadable t
      → length (type_text t) < 2 ^ 31
      → type_to_logical_type cast (type_text t) ≡ ok (meaning t)
  unfolding type_to_logical_type
  type_to_logical_type-type_text t h short =
      read_type t h (suc (length (type_text t))) (omega arith) (omega arith)
