-- ===== src/TypeText/Scan.antt =====
-- The inner loop of the map and the struct branch: the next ',' outside of angle brackets.
use uc_catalog.Base.{
  ℕ, zero, suc, ◌+◌, Bool, true, false, not, ◌&&◌, none, some, Bytes, ◌==◌, if◌then◌else◌, byte_at,
}
use uc_catalog.Outcome.{Outcome, ok, undefined, out_of_fuel}

-- `nested_opens` is an `int`; `negsuc n` is -(n + 1). Its range is not left by a text of less
-- than 2^31 bytes.
pub data ℤ : Type 0 where
  pos : ℕ → ℤ
  negsuc : ℕ → ℤ

abbrev pub inc : ℤ → ℤ
inc (pos n) = pos (suc n)
inc (negsuc zero) = pos 0
inc (negsuc (suc n)) = negsuc n

abbrev pub dec : ℤ → ℤ
dec (pos zero) = negsuc 0
dec (pos (suc n)) = pos n
dec (negsuc n) = negsuc (suc n)

abbrev pub is_positive : ℤ → Bool
is_positive (pos (suc n)) = true
is_positive _ = false

abbrev pub count_nesting : ℕ → ℤ → ℤ
count_nesting c opens = if c == b'<' then inc opens else if c == b'>' then dec opens else opens

-- Where the loop stops, and the count it leaves. Reading behind the terminating NUL is undefined.
unfoldable pub next_separator : ℕ → Bytes → ℕ → ℕ → ℤ → Outcome (ℕ × ℤ)
next_separator zero text type_end next_sep opens = out_of_fuel
next_separator (suc fuel) text type_end next_sep opens = elim (byte_at text next_sep) [
  | none ↦ undefined
  | some c ↦
      let opens' = count_nesting c opens in
      let rest = next_separator fuel text type_end (next_sep + 1) opens' in
      if c == b',' && not (is_positive opens)
      then ok (next_sep, opens)
      else if next_sep + 1 == type_end
      then ok (next_sep + 1, opens')
      else rest
]
