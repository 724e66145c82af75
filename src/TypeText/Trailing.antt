-- ===== src/TypeText/Trailing.antt =====
-- What stands behind the last `>` of a text.
use uc_catalog.Base.{
  ℕ, ◌+◌, ◌-◌, ◌≤◌, ◌<◌, ◌≡◌, refl, ◌∷◌, ◌++◌, Bytes, codes, length, length-append, Lacks,
  rfind_byte-append, arith,
}
use uc_catalog.Outcome.{Outcome, ok}
use uc_catalog.TypeText.Types.{LogicalType}
use uc_catalog.TypeText.Print.{UcType, type_text, meaning, IsReadable, digits}
use uc_catalog.TypeText.Split.{substr_piece}
use uc_catalog.TypeText.Branches.{compound-array}
use uc_catalog.TypeText.RoundTrip.{type_text-ne-nil, read_type}
use uc_catalog.TypeText.{type_to_logical_type, logical_type, substr, npos}

-- Behind the text of an array of a readable type any bytes may follow but for another `>`: they are
-- passed over, and the text is read as the array.
pub type_to_logical_type_trailing :
    (cast : Bytes → Outcome ℕ) (t : UcType) (junk : Bytes)
    → ((n : ℕ) → n < 256 → cast (digits n) ≡ ok n)
    → IsReadable t
    → length (type_text t) ≤ npos
    → Lacks b'>' junk
    → type_to_logical_type cast (codes "array<" ++ (type_text t ++ (b'>' ∷ junk)))
      ≡ ok (LogicalType.list (meaning t))
unfolding type_to_logical_type logical_type
type_to_logical_type_trailing cast t junk casts h short lacks =
    compound-array cast (logical_type cast (length text)) text
      (rfind_byte-append b'>' (codes "array<" ++ u) junk lacks) refl refl cut
      (read_type cast casts t h (length text) (omega (arith, size)) short)
  where
    u : Bytes
    u = type_text t

    text : Bytes
    text = codes "array<" ++ (u ++ (b'>' ∷ junk))

    size : length text ≡ length u + (7 + length junk)
    size = omega (arith, length-append u (b'>' ∷ junk))

    cut : substr text 6 (length (codes "array<" ++ u) - 6) ≡ ok u
    cut = substr_piece u text 6 _ (b'>' ∷ junk) (type_text-ne-nil t) refl (omega arith)
