-- ===== src/TypeText/Split.antt =====
-- What the scan for a separator does on a text in which brackets match.
use uc_catalog.Base.{
  ◌≤◌, ℕ, zero, suc, ◌+◌, ◌<◌, ◌≡◌, ◌≢◌, refl, ap, ◌∙◌, ◌⊎◌, inl, inr, Bool, false, not, ◌&&◌, [],
  ◌∷◌, ◌++◌, Bytes, ◌==◌, ==_iff, length, drop, drop_past, byte_at-drop, arith, length-append,
  length-drop, take-append_self, drop-append_self, take_all, ltb,
}
use uc_catalog.Outcome.{ok}
use uc_catalog.TypeText.Scan.{ℤ, is_positive, count_nesting, next_separator}
use uc_catalog.TypeText.{substr}

-- The count behind `u`, and that `u` has no ',' at a count where one separates.
abbrev pub nesting : ℤ → Bytes → ℤ
nesting d [] = d
nesting d (c ∷ cs) = nesting (count_nesting c d) cs

abbrev pub separates : ℕ → ℤ → Bool
separates c d = c == b',' && not (is_positive d)

abbrev pub IsOnePiece : ℤ → Bytes → Type 0
IsOnePiece d [] = Unit {0}
IsOnePiece d (c ∷ cs) = (separates c d ≡ false) × IsOnePiece (count_nesting c d) cs

pub nesting-append : (d : ℤ) (u v : Bytes) → nesting d (u ++ v) ≡ nesting (nesting d u) v
nesting-append d [] v = refl
nesting-append d (c ∷ cs) v = nesting-append (count_nesting c d) cs v

pub IsOnePiece-append :
    (d : ℤ) (u v : Bytes) → IsOnePiece d u → IsOnePiece (nesting d u) v → IsOnePiece d (u ++ v)
IsOnePiece-append d [] v hu hv = hv
IsOnePiece-append d (c ∷ cs) v hu hv = (hu.0, IsOnePiece-append (count_nesting c d) cs v hu.1 hv)

-- A piece ends at `type_end`, or before it at a separator.
abbrev pub EndsPiece : ℕ → ℕ → ℤ → Bytes → Type 0
EndsPiece e j d rest =
    (j ≡ e) ⊎ ((tail : Bytes) × (rest ≡ b',' ∷ tail) × (j < e) × (is_positive d ≡ false))

next_separator_stop :
    (f : ℕ) (text : Bytes) (e i : ℕ) (d : ℤ) {tail : Bytes}
    → drop i text ≡ b',' ∷ tail
    → is_positive d ≡ false
    → next_separator (suc f) text e i d ≡ ok (i, d)
unfolding next_separator
next_separator_stop f text e i d at_comma level =
    rw (byte_at-drop text i at_comma, next_separator) (ground arith)

next_separator_last :
    (f : ℕ) (text : Bytes) (e i c : ℕ) (d : ℤ) {rest : Bytes}
    → drop i text ≡ c ∷ rest
    → separates c d ≡ false
    → i + 1 ≡ e
    → next_separator (suc f) text e i d ≡ ok (i + 1, count_nesting c d)
unfolding next_separator
next_separator_last f text e i c d here inner last =
    rw (byte_at-drop text i here, next_separator) (rw inner (rw ((==_iff (i + 1) e).1 last)))

next_separator_skip :
    (f : ℕ) (text : Bytes) (e i c : ℕ) (d : ℤ) {rest : Bytes}
    → drop i text ≡ c ∷ rest
    → separates c d ≡ false
    → i + 1 < e
    → next_separator (suc f) text e i d ≡ next_separator f text e (i + 1) (count_nesting c d)
unfolding next_separator
next_separator_skip f text e i c d here inner more =
    let far : ((i + 1) == e) ≡ false = ground arith in
    rw (byte_at-drop text i here, next_separator) (rw inner (rw far))

-- The scan passes over a piece, and stops right behind it.
pub next_separator_piece :
    (u : Bytes) (f : ℕ) (text : Bytes) (e i : ℕ) (d : ℤ) {rest : Bytes}
    → u ≢ []
    → length u < f
    → drop i text ≡ u ++ rest
    → IsOnePiece d u
    → EndsPiece e (i + length u) (nesting d u) rest
    → next_separator f text e i d ≡ ok (i + length u, nesting d u)
next_separator_piece [] f text e i d ne enough here piece ends = absurd (ne refl)
next_separator_piece (c ∷ cs) zero text e i d ne enough here piece ends = elim enough [ ]
next_separator_piece (c ∷ []) (suc f) text e i d ne enough here piece (inl at_end) =
    next_separator_last f text e i c d here piece.0 at_end
next_separator_piece (c ∷ []) (suc zero) text e i d ne enough here piece (inr _) =
    absurd (omega arith)
next_separator_piece (c ∷ []) (suc (suc f)) text e i d ne enough here piece
      (inr (tail, r, lt, level)) =
    next_separator_skip (suc f) text e i c d here piece.0 lt
    ∙ next_separator_stop f text e (i + 1) (count_nesting c d) (drop_past i text (c ∷ []) here ∙ r)
        level
next_separator_piece (c ∷ b ∷ cs) (suc f) text e i d {rest} ne enough here piece ends =
    let far : i + suc (length (b ∷ cs)) ≡ i + 1 + length (b ∷ cs) = omega arith in
    let inside : i + 1 < e = ground arith in
    next_separator_skip f text e i c d here piece.0 inside
    ∙ rw far (
        next_separator_piece (b ∷ cs) f text e (i + 1) (count_nesting c d) {rest = rest} (λ p. cc)
          (omega arith) (drop_past i text (c ∷ []) here) piece.1 (rw far at ends))

-- The substring that holds a piece.
pub substr_piece :
    (u text : Bytes) (i j : ℕ) (rest : Bytes)
    → u ≢ []
    → drop i text ≡ u ++ rest
    → j ≡ length u
    → substr text i j ≡ ok u
unfolding substr
substr_piece [] text i j rest ne here e = absurd (ne refl)
substr_piece (c ∷ cs) text i j rest ne here e =
    let inside : ltb (length text) i ≡ false =
      ground (arith, ap length here, length-drop i text, length-append cs rest) in
    rw (inside, here, e) (ap ok (take-append_self (c ∷ cs) rest))

-- The substrings before and behind one byte.
pub substr_front : (u rest : Bytes) → substr (u ++ rest) 0 (length u) ≡ ok u
unfolding substr
substr_front u rest =
    let inside : ltb (length (u ++ rest)) 0 ≡ false = ground arith in
    rw inside (ap ok (take-append_self u rest))

pub substr_back :
    (m u : Bytes) (c count : ℕ)
    → length u ≤ count
    → substr (m ++ (c ∷ u)) (length m + 1) count ≡ ok u
unfolding substr
substr_back m u c count short =
    let inside : ltb (length (m ++ (c ∷ u))) (length m + 1) ≡ false =
      ground (arith, length-append m (c ∷ u)) in
    rw (inside, drop_past (length m) (m ++ (c ∷ u)) (c ∷ []) (drop-append_self m (c ∷ u)))
      (ap ok (take_all count u short))
