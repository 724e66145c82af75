-- ===== src/TypeText/Pieces.antt =====
-- In the text of a type the brackets match, so the scan for a separator passes over it.
use uc_catalog.Base.{
  ℕ, suc, ◌<◌, ◌≡◌, refl, Bool, true, false, not, ◌&&◌, [], ◌∷◌, ◌++◌, Bytes, codes, ◌==◌, arith,
  ◌≤◌,
}
use uc_catalog.TypeText.Scan.{ℤ, pos, count_nesting}
use uc_catalog.TypeText.Split.{nesting, separates, IsOnePiece, nesting-append, IsOnePiece-append}
use uc_catalog.TypeText.Print.{
  Name, tinyint, UcType, named, decimal, array, map, struct, Fields, last, field, name_text, digits,
  decimal_text, type_text, fields_text, IsPlain, is_decimal, IsReadable, AreReadable,
}

pub nesting-IsPlain : (d : ℤ) (u : Bytes) → IsPlain u → nesting d u ≡ d
nesting-IsPlain d [] h = refl
nesting-IsPlain d (c ∷ cs) h = rw (h.1, h.2) (nesting-IsPlain d cs h.4)

pub IsOnePiece-IsPlain : (d : ℤ) (u : Bytes) → IsPlain u → IsOnePiece d u
IsOnePiece-IsPlain d [] h = tt
IsOnePiece-IsPlain d (c ∷ cs) h = rw (h.0, h.1, h.2) (refl, IsOnePiece-IsPlain d cs h.4)

pub digits-IsPlain : (n : ℕ) → n < 1000 → IsPlain (digits n)
unfolding digits
digits-IsPlain n h = ground arith

is_plain : Bytes → Bool
is_plain [] = true
is_plain (c ∷ cs) =
    not (c == b',') && not (c == b'<') && not (c == b'>') && not (c == b':') && is_plain cs

IsPlain-by_test : (u : Bytes) → is_plain u ≡ true → IsPlain u
unfolding is_plain
IsPlain-by_test [] h = tt
IsPlain-by_test (c ∷ cs) h = ground (arith, IsPlain-by_test cs)

name_text-IsPlain : (n : Name) → IsPlain (name_text n)
unfolding name_text is_plain
name_text-IsPlain tinyint = IsPlain-by_test (codes "tinyint") refl
name_text-IsPlain n = IsPlain-by_test (name_text n) refl

no_comma : Bytes → Bool
no_comma [] = true
no_comma (c ∷ cs) = not (c == b',') && no_comma cs

IsOnePiece-by_test : (d : ℤ) (u : Bytes) → no_comma u ≡ true → IsOnePiece d u
unfolding no_comma
IsOnePiece-by_test d [] h = tt
IsOnePiece-by_test d (c ∷ cs) h = ground (arith, IsOnePiece-by_test (count_nesting c d) cs)

-- Inside of brackets nothing separates.
separates_inside : (c n : ℕ) → separates c (pos (suc n)) ≡ false
separates_inside c n = ground arith

-- A numeral on either side of the comma, and a plain rest: the count is as before.
nesting-decimal_text : (p s n : ℕ) → p ≤ 38 → s ≤ p → nesting (pos n) (decimal_text p s) ≡ pos n
unfolding decimal_text
nesting-decimal_text p s n hp hs = rw (
  nesting-append (pos n) (digits p),
  nesting-IsPlain (pos n) (digits p) (digits-IsPlain p (omega arith)),
  nesting-append (pos n) (digits s),
  nesting-IsPlain (pos n) (digits s) (digits-IsPlain s (omega arith)),
)

IsOnePiece-decimal_text : (p s n : ℕ) → p ≤ 38 → s ≤ p → IsOnePiece (pos (suc n)) (decimal_text p s)
unfolding decimal_text no_comma
IsOnePiece-decimal_text p s n hp hs =
    let d = pos (suc n) in
    let p_plain = digits-IsPlain p (omega arith) in
    let s_plain = digits-IsPlain s (omega arith) in
    let close : IsOnePiece d (digits s ++ (b')' ∷ [])) =
      IsOnePiece-append d (digits s) (b')' ∷ []) (IsOnePiece-IsPlain d (digits s) s_plain)
        (refl, tt) in
    IsOnePiece-append d (codes "decimal(") _ (IsOnePiece-by_test d (codes "decimal(") refl) (
      IsOnePiece-append d (digits p) _ (IsOnePiece-IsPlain d (digits p) p_plain)
        (rw (nesting-IsPlain d (digits p) p_plain) (refl, close)))

-- A piece one level further in, between brackets.
nesting_bracket :
    (n : ℕ) (u : Bytes)
    → nesting (pos (suc n)) u ≡ pos (suc n)
    → nesting (pos (suc n)) (u ++ (b'>' ∷ [])) ≡ pos n
nesting_bracket n u h = rw (nesting-append (pos (suc n)) u, h)

nesting_join :
    (n c : ℕ) (u v : Bytes)
    → count_nesting c (pos n) ≡ pos n
    → nesting (pos n) u ≡ pos n
    → nesting (pos n) v ≡ pos n
    → nesting (pos n) (u ++ (c ∷ v)) ≡ pos n
nesting_join n c u v hc hu hv = rw (nesting-append (pos n) u, hu, hc) hv

mutual
  unfolding type_text

  pub nesting-type_text :
      (t : UcType) (n : ℕ) → IsReadable t → nesting (pos n) (type_text t) ≡ pos n
  nesting-type_text (named m) n h = nesting-IsPlain (pos n) (name_text m) (name_text-IsPlain m)
  nesting-type_text (decimal p s) n h = nesting-decimal_text p s n h.0 h.1
  nesting-type_text (array t) n h = nesting_bracket n (type_text t) (nesting-type_text t (suc n) h)
  nesting-type_text (map k v) n h = nesting_bracket n (type_text k ++ (b',' ∷ type_text v)) (
      nesting_join (suc n) b',' (type_text k) (type_text v) refl (nesting-type_text k (suc n) h.0)
        (nesting-type_text v (suc n) h.2))
  nesting-type_text (struct fs) n h =
      nesting_bracket n (fields_text fs) (nesting-fields_text fs (suc n) h)

  nesting-fields_text :
      (fs : Fields) (n : ℕ) → AreReadable fs → nesting (pos n) (fields_text fs) ≡ pos n
  nesting-fields_text (last m t) n h =
      nesting_join n b':' m (type_text t) refl (nesting-IsPlain (pos n) m h.0)
        (nesting-type_text t n h.1)
  nesting-fields_text (field m t fs) n h =
      nesting_join n b',' (m ++ (b':' ∷ type_text t)) (fields_text fs) refl
        (nesting_join n b':' m (type_text t) refl (nesting-IsPlain (pos n) m h.0)
          (nesting-type_text t n h.1))
        (nesting-fields_text fs n h.3)

-- A piece behind an opening bracket, up to the closing one.
bracket_piece :
    (head u : Bytes) (n : ℕ)
    → no_comma head ≡ true
    → nesting (pos n) head ≡ pos (suc n)
    → IsOnePiece (pos (suc n)) u
    → IsOnePiece (pos n) (head ++ (u ++ (b'>' ∷ [])))
bracket_piece head u n plain opens h =
    IsOnePiece-append (pos n) head _ (IsOnePiece-by_test (pos n) head plain)
      (rw opens (IsOnePiece-append (pos (suc n)) u _ h (refl, tt)))

-- Two pieces inside of brackets, with one byte between them.
join_piece :
    (n c : ℕ) (u v : Bytes)
    → count_nesting c (pos (suc n)) ≡ pos (suc n)
    → nesting (pos (suc n)) u ≡ pos (suc n)
    → IsOnePiece (pos (suc n)) u
    → IsOnePiece (pos (suc n)) v
    → IsOnePiece (pos (suc n)) (u ++ (c ∷ v))
join_piece n c u v hc balanced hu hv =
    IsOnePiece-append (pos (suc n)) u (c ∷ v) hu (rw balanced (separates_inside c n, rw hc hv))

mutual
  unfolding type_text no_comma

  IsOnePiece-type_text :
      (t : UcType) (n : ℕ) → IsReadable t → IsOnePiece (pos (suc n)) (type_text t)
  IsOnePiece-type_text (named m) n h =
      IsOnePiece-IsPlain (pos (suc n)) (name_text m) (name_text-IsPlain m)
  IsOnePiece-type_text (decimal p s) n h = IsOnePiece-decimal_text p s n h.0 h.1
  IsOnePiece-type_text (array t) n h =
      bracket_piece (codes "array<") (type_text t) (suc n) refl refl
        (IsOnePiece-type_text t (suc n) h)
  IsOnePiece-type_text (map k v) n h =
      bracket_piece (codes "map<") (type_text k ++ (b',' ∷ type_text v)) (suc n) refl refl (
        join_piece (suc n) b',' (type_text k) (type_text v) refl
          (nesting-type_text k (suc (suc n)) h.0) (IsOnePiece-type_text k (suc n) h.0)
          (IsOnePiece-type_text v (suc n) h.2))
  IsOnePiece-type_text (struct fs) n h =
      bracket_piece (codes "struct<") (fields_text fs) (suc n) refl refl
        (IsOnePiece-fields_text fs (suc n) h)

  IsOnePiece-fields_text :
      (fs : Fields) (n : ℕ) → AreReadable fs → IsOnePiece (pos (suc n)) (fields_text fs)
  IsOnePiece-fields_text (last m t) n h =
      join_piece n b':' m (type_text t) refl (nesting-IsPlain (pos (suc n)) m h.0)
        (IsOnePiece-IsPlain (pos (suc n)) m h.0) (IsOnePiece-type_text t n h.1)
  IsOnePiece-fields_text (field m t fs) n h =
      join_piece n b',' (m ++ (b':' ∷ type_text t)) (fields_text fs) refl
        (nesting_join (suc n) b':' m (type_text t) refl (nesting-IsPlain (pos (suc n)) m h.0)
          (nesting-type_text t (suc n) h.1))
        (join_piece n b':' m (type_text t) refl (nesting-IsPlain (pos (suc n)) m h.0)
          (IsOnePiece-IsPlain (pos (suc n)) m h.0) (IsOnePiece-type_text t n h.1))
        (IsOnePiece-fields_text fs n h.3)

-- Only the comma of a decimal type separates where no bracket is open.
pub IsOnePiece-child :
    (t : UcType) → IsReadable t → is_decimal t ≡ false → IsOnePiece (pos 0) (type_text t)
unfolding type_text no_comma
IsOnePiece-child (named m) h d = IsOnePiece-IsPlain (pos 0) (name_text m) (name_text-IsPlain m)
IsOnePiece-child (decimal p s) h d = cc
IsOnePiece-child (array t) h d =
    bracket_piece (codes "array<") (type_text t) 0 refl refl (IsOnePiece-type_text t 0 h)
IsOnePiece-child (map k v) h d =
    bracket_piece (codes "map<") (type_text k ++ (b',' ∷ type_text v)) 0 refl refl (
      join_piece 0 b',' (type_text k) (type_text v) refl (nesting-type_text k 1 h.0)
        (IsOnePiece-type_text k 0 h.0) (IsOnePiece-type_text v 0 h.2))
IsOnePiece-child (struct fs) h d =
    bracket_piece (codes "struct<") (fields_text fs) 0 refl refl (IsOnePiece-fields_text fs 0 h)

-- A field, `name:type`, is one piece too.
pub IsOnePiece-field :
    (m : Bytes) (t : UcType)
    → IsPlain m
    → IsReadable t
    → is_decimal t ≡ false
    → IsOnePiece (pos 0) (m ++ (b':' ∷ type_text t))
IsOnePiece-field m t plain h d =
    IsOnePiece-append (pos 0) m _ (IsOnePiece-IsPlain (pos 0) m plain)
      (rw (nesting-IsPlain (pos 0) m plain) (refl, IsOnePiece-child t h d))

pub nesting-field :
    (m : Bytes) (t : UcType)
    → IsPlain m
    → IsReadable t
    → nesting (pos 0) (m ++ (b':' ∷ type_text t)) ≡ pos 0
nesting-field m t plain h =
    nesting_join 0 b':' m (type_text t) refl (nesting-IsPlain (pos 0) m plain)
      (nesting-type_text t 0 h)
