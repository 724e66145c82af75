-- ===== src/TypeText/Decimals.antt =====
-- The decimal branch of `TypeToLogicalType`, on the text of a decimal type.
use uc_catalog.Base.{
  ℕ, ◌+◌, ◌≤◌, ◌<◌, ◌≡◌, ◌≢◌, refl, subst, Bool, true, not, ◌&&◌, some, [], ◌∷◌, ◌++◌, append_assoc,
  Bytes, codes, ◌==◌, length, drop, drop_past, length-append, find_byte, find_byte-append, Lacks,
  arith, ltb, false,
}
use uc_catalog.Outcome.{Outcome, ok}
use uc_catalog.TypeText.Types.{LogicalType, decimal_of}
use uc_catalog.TypeText.Split.{substr_piece}
use uc_catalog.TypeText.Print.{digits, decimal_text}
use uc_catalog.TypeText.{substr, decimal_type, sub_size, add_size}

-- `decimal(p,s)`: the precision stands before the first ',', the scale before the first ')'.
pub digits-Lacks : (b n : ℕ) → n < 1000 → b < 48 → Lacks b (digits n)
unfolding digits
digits-Lacks b n h k = ground arith

length-digits : (n : ℕ) → length (digits n) ≤ 3
unfolding digits
length-digits n = ground arith

abbrev lacks : ℕ → Bytes → Bool
lacks b [] = true
lacks b (c ∷ cs) = not (c == b) && lacks b cs

Lacks-by_test : (b : ℕ) (u : Bytes) → lacks b u ≡ true → Lacks b u
Lacks-by_test b [] h = tt
Lacks-by_test b (c ∷ cs) h = ground (arith, Lacks-by_test b cs)

Lacks-append : (b : ℕ) (u v : Bytes) → Lacks b u → Lacks b v → Lacks b (u ++ v)
Lacks-append b [] v hu hv = hv
Lacks-append b (c ∷ cs) v hu hv = (hu.0, Lacks-append b cs v hu.1 hv)

-- The branch, from where it finds the two bytes and what it cuts out between them.
decimal_type_reads :
    (cast : Bytes → Outcome ℕ) (text : Bytes) (sep spec_end : ℕ) (prec_str scale_str : Bytes)
    {p s : ℕ}
    → find_byte b')' text ≡ some spec_end
    → find_byte b',' text ≡ some sep
    → substr text 8 (sub_size sep 8) ≡ ok prec_str
    → substr text (add_size sep 1) (sub_size (sub_size spec_end sep) 1) ≡ ok scale_str
    → cast prec_str ≡ ok p
    → cast scale_str ≡ ok s
    → ltb 38 p ≡ false
    → decimal_type cast text ≡ ok (LogicalType.decimal p s)
unfolding decimal_type decimal_of
decimal_type_reads cast text sep spec_end prec_str scale_str close comma prec scale cast_p cast_s
      fits =
    rw (close, decimal_type) (rw comma (rw prec (rw scale (rw cast_p (rw cast_s (rw fits))))))

digits-ne-nil : (n : ℕ) → digits n ≢ []
unfolding digits
digits-ne-nil n = ground arith

module _ (cast : Bytes → Outcome ℕ) (p s : ℕ) (hp : p ≤ 38) (hs : s ≤ p) where
  Lacks-decimal :
      (b : ℕ) → lacks b (codes "decimal(") ≡ true → b < 48 → Lacks b (codes "decimal(" ++ digits p)
  Lacks-decimal b h k =
      Lacks-append b (codes "decimal(") (digits p) (Lacks-by_test b (codes "decimal(") h)
        (digits-Lacks b p (omega arith) k)

  find_separator : find_byte b',' (decimal_text p s) ≡ some (length (codes "decimal(" ++ digits p))
  unfolding decimal_text
  find_separator =
      find_byte-append b',' (codes "decimal(" ++ digits p) (digits s ++ (b')' ∷ []))
        (Lacks-decimal b',' refl (omega arith))

  find_close :
      find_byte b')' (decimal_text p s)
      ≡ some (length ((codes "decimal(" ++ digits p) ++ (b',' ∷ digits s)))
  unfolding decimal_text
  find_close =
      subst
        (λ z.
          find_byte b')' (codes "decimal(" ++ z)
          ≡ some (length ((codes "decimal(" ++ digits p) ++ (b',' ∷ digits s))))
        (append_assoc (digits p) (b',' ∷ digits s) (b')' ∷ []))
        (find_byte-append b')' ((codes "decimal(" ++ digits p) ++ (b',' ∷ digits s)) [] (
          Lacks-append b')' (codes "decimal(" ++ digits p) (b',' ∷ digits s)
            (Lacks-decimal b')' refl (omega arith))
            (refl, digits-Lacks b')' s (omega arith) (omega arith))))

  prec_cut :
      substr (decimal_text p s) 8 (sub_size (length (codes "decimal(" ++ digits p)) 8)
      ≡ ok (digits p)
  unfolding decimal_text sub_size
  prec_cut =
      substr_piece (digits p) (decimal_text p s) 8 _ (b',' ∷ (digits s ++ (b')' ∷ [])))
        (digits-ne-nil p) refl
        (omega (arith, length-digits p, length-append (codes "decimal(") (digits p)))

  scale_at : drop (8 + length (digits p) + 1) (decimal_text p s) ≡ digits s ++ (b')' ∷ [])
  unfolding decimal_text
  scale_at =
      drop_past (8 + length (digits p)) (decimal_text p s) (b',' ∷ [])
        (drop_past 8 (decimal_text p s) (digits p) refl)

  scale_cut :
      let sep = length (codes "decimal(" ++ digits p) in
      let spec_end = length ((codes "decimal(" ++ digits p) ++ (b',' ∷ digits s)) in
      substr (decimal_text p s) (add_size sep 1) (sub_size (sub_size spec_end sep) 1)
      ≡ ok (digits s)
  unfolding sub_size add_size
  scale_cut =
      substr_piece (digits s) (decimal_text p s) _ _ (b')' ∷ []) (digits-ne-nil s)
        (rw start scale_at)
        (omega (
          arith,
          length-digits p,
          length-digits s,
          length-append (codes "decimal(" ++ digits p) (b',' ∷ digits s),
        ))
    where
      start : add_size (length (codes "decimal(" ++ digits p)) 1 ≡ 8 + length (digits p) + 1
      start = omega (arith, length-digits p)

  pub decimal_type_lem :
      cast (digits p) ≡ ok p
      → cast (digits s) ≡ ok s
      → decimal_type cast (decimal_text p s) ≡ ok (LogicalType.decimal p s)
  decimal_type_lem cast_p cast_s =
      decimal_type_reads cast (decimal_text p s) _ _ (digits p) (digits s) find_close find_separator
        prec_cut scale_cut cast_p cast_s (ground arith)
