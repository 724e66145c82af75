-- ===== src/SchemaEntry/Unqualified.antt =====
-- What is left of an expression whose columns were unqualified.
use uc_catalog.Base.{
  ◌≡◌, refl, ap, inl, inr, ◌⊎◌, Bool, true, false, ◌&&◌, List, [], ◌∷◌, ◌++◌, Bytes,
}
use uc_catalog.Outcome.{ok, throws, internal}
use uc_catalog.SchemaEntry.Columns.{
  ParsedExpression, Operands, column_ref, other, end, operand, back, unqualify_column_ref,
  unqualify_operands,
}

-- The names of the columns in an expression, from left to right.
mutual
  pub columns : ParsedExpression → List (List Bytes)
  columns (column_ref column_names) = column_names ∷ []
  columns (other kind operands) = columns_of operands

  pub columns_of : Operands → List (List Bytes)
  columns_of end = []
  columns_of (operand e es) = columns e ++ columns_of es

abbrev pub all_named : List (List Bytes) → Bool
all_named [] = true
all_named ([] ∷ rest) = false
all_named ((name ∷ names) ∷ rest) = all_named rest

abbrev last_part : Bytes → List Bytes → Bytes
last_part name [] = name
last_part name (next ∷ names) = last_part next names

-- Each name cut down to its last part.
abbrev pub last_parts : List (List Bytes) → List (List Bytes)
last_parts [] = []
last_parts ([] ∷ rest) = [] ∷ last_parts rest
last_parts ((name ∷ names) ∷ rest) = (last_part name names ∷ []) ∷ last_parts rest

back-last_part :
    (name : Bytes) (names : List Bytes) → back (name ∷ names) ≡ ok (last_part name names)
unfolding back
back-last_part name [] = refl
back-last_part name (next ∷ names) = back-last_part next names

last_parts-append :
    (xs ys : List (List Bytes)) → last_parts (xs ++ ys) ≡ last_parts xs ++ last_parts ys
last_parts-append [] ys = refl
last_parts-append ([] ∷ xs) ys = ap (λ zs. [] ∷ zs) (last_parts-append xs ys)
last_parts-append ((n ∷ ns) ∷ xs) ys =
    ap (λ zs. (last_part n ns ∷ []) ∷ zs) (last_parts-append xs ys)

all_named-append :
    (xs ys : List (List Bytes)) → all_named (xs ++ ys) ≡ (all_named xs && all_named ys)
all_named-append [] ys = refl
all_named-append ([] ∷ xs) ys = refl
all_named-append ((n ∷ ns) ∷ xs) ys = all_named-append xs ys

-- What holds of the run on an expression, and of the run on operands.
abbrev IsUnqualified : ParsedExpression → Type 0
IsUnqualified e =
    ((all_named (columns e) ≡ true)
      × ((e' : ParsedExpression) × (unqualify_column_ref e ≡ ok e')
          × (unqualify_column_ref e' ≡ ok e')
          × (columns e' ≡ last_parts (columns e))))
    ⊎ ((all_named (columns e) ≡ false) × (unqualify_column_ref e ≡ throws internal))

abbrev AreUnqualified : Operands → Type 0
AreUnqualified es =
    ((all_named (columns_of es) ≡ true)
      × ((es' : Operands) × (unqualify_operands es ≡ ok es')
          × (unqualify_operands es' ≡ ok es')
          × (columns_of es' ≡ last_parts (columns_of es))))
    ⊎ ((all_named (columns_of es) ≡ false) × (unqualify_operands es ≡ throws internal))

operand_step :
    (e : ParsedExpression) (es : Operands)
    → IsUnqualified e
    → AreUnqualified es
    → AreUnqualified (operand e es)
unfolding unqualify_operands columns_of
operand_step e es (inr (unnamed, bad)) rest =
    inr (rw (all_named-append (columns e) (columns_of es), unnamed) refl, rw bad refl)
operand_step e es (inl (named, (e', run, again, kept))) (inr (unnamed, bad)) =
    inr (rw (all_named-append (columns e) (columns_of es), named, unnamed) refl, rw (run, bad) refl)
operand_step e es (inl (named, (e', run, again, kept))) (inl (all, (es', runs, agains, keeps))) =
    inl (
      rw (all_named-append (columns e) (columns_of es), named, all) refl,
      (
        operand e' es',
        rw (run, runs) refl,
        rw (again, agains) refl,
        rw (kept, keeps, last_parts-append (columns e) (columns_of es)) refl,
      ),
    )

mutual
  unfolding unqualify_column_ref unqualify_operands columns columns_of

  expression_case : (e : ParsedExpression) → IsUnqualified e
  expression_case (column_ref []) = inr (refl, refl)
  expression_case (column_ref (name ∷ names)) = inl (
    refl,
    (column_ref (last_part name names ∷ []), rw (back-last_part name names) refl, refl, refl),
  )
  expression_case (other kind es) = elim (operands_case es) [
    | inl (named, (es', run, again, kept)) ↦
        inl (named, (other kind es', rw run refl, rw again refl, kept))
    | inr (unnamed, bad) ↦ inr (unnamed, rw bad refl)
  ]

  operands_case : (es : Operands) → AreUnqualified es
  operands_case end = inl (refl, (end, refl, refl, refl))
  operands_case (operand e es) = operand_step e es (expression_case e) (operands_case es)

-- If each column in an expression has a name, `UCUnqualifyColumnRef` leaves the same columns with the
-- last part of their names, from left to right, and running it again changes nothing. If there is a
-- column without a name, it throws an `InternalException`.
pub unqualify_column_ref-columns :
    (e : ParsedExpression)
    → ((all_named (columns e) ≡ true)
        × ((e' : ParsedExpression) × (unqualify_column_ref e ≡ ok e')
            × (unqualify_column_ref e' ≡ ok e')
            × (columns e' ≡ last_parts (columns e))))
      ⊎ ((all_named (columns e) ≡ false) × (unqualify_column_ref e ≡ throws internal))
unqualify_column_ref-columns e = expression_case e
