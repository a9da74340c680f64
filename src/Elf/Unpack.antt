-- ===== src/Elf/Unpack.antt =====
-- `struct.unpack_from` on little-endian unsigned fields, which are given by their widths in bytes.
use native.Mathlib.Omega.{pow_step}
use kozo.Base.{
  ◌∙◌, append_assoc, ℕ, zero, suc, ◌+◌, ◌*◌, ◌/◌, ◌%◌, ◌^◌, ◌≤◌, ◌<◌, ◌≡◌, refl, Option, none, some,
  List, [], ◌∷◌, ◌++◌, length, arith, ap, length-append,
}

-- A field of `width` bytes and what follows it; `none` where the bytes end too early.
unfoldable pub read_le : ℕ → List ℕ → Option (ℕ × List ℕ)
read_le zero bytes = some (0, bytes)
read_le (suc width) [] = none
read_le (suc width) (b ∷ bytes) = elim (read_le width bytes) [
  | none ↦ none
  | some (n, rest) ↦ some (b + 256 * n, rest)
]

unfoldable pub unpack : List ℕ → List ℕ → Option (List ℕ)
unpack [] bytes = some []
unpack (width ∷ widths) bytes = elim (read_le width bytes) [
  | none ↦ none
  | some (n, rest) ↦ elim (unpack widths rest) [ none ↦ none | some ns ↦ some (n ∷ ns) ]
]

-- The bytes of a field, and of a sequence of fields: what the reader is held against.
pub write_le : ℕ → ℕ → List ℕ
write_le zero n = []
write_le (suc width) n = (n % 256) ∷ write_le width (n / 256)

unfoldable pub pack : List ℕ → List ℕ → List ℕ
pack [] ns = []
pack (w ∷ widths) [] = []
pack (w ∷ widths) (n ∷ ns) = write_le w n ++ pack widths ns

-- Each value fits its field.
abbrev pub Fits : List ℕ → List ℕ → Type 0
Fits [] [] = Unit
Fits (w ∷ widths) (n ∷ ns) = (n < 256 ^ w) × Fits widths ns
Fits _ _ = ⊥

abbrev pub total : List ℕ → ℕ
total [] = 0
total (w ∷ widths) = w + total widths

pub read_le-write_le :
    (w n : ℕ) (rest : List ℕ) → n < 256 ^ w → read_le w (write_le w n ++ rest) ≡ some (n, rest)
unfolding read_le write_le
read_le-write_le zero n rest h = ap (λ m. some (m, rest)) (omega (arith, h))
read_le-write_le (suc w) n rest h =
    rw (read_le-write_le w (n / 256) rest (omega (arith, h, pow_step 256 w)), read_le)
      (ap (λ m. some (m, rest)) (omega arith))

-- What is packed is unpacked again, whatever bytes follow.
pub unpack-pack :
    (widths ns rest : List ℕ) → Fits widths ns → unpack widths (pack widths ns ++ rest) ≡ some ns
unfolding unpack pack
unpack-pack [] [] rest f = refl
unpack-pack [] (n ∷ ns) rest f = absurd f
unpack-pack (w ∷ widths) [] rest f = absurd f
unpack-pack (w ∷ widths) (n ∷ ns) rest f = rw (append_assoc (write_le w n) (pack widths ns) rest) (
    rw (read_le-write_le w n (pack widths ns ++ rest) f.0, unpack)
      (rw (unpack-pack widths ns rest f.1, unpack) refl))

-- Enough bytes are read, and the rest is what the field leaves.
read_le-total :
    (w : ℕ) (bytes : List ℕ)
    → w ≤ length bytes
    → (n : ℕ) × (rest : List ℕ) × (read_le w bytes ≡ some (n, rest))
      × (length bytes ≡ w + length rest)
unfolding read_le
read_le-total zero bytes h = (0, bytes, refl, omega arith)
read_le-total (suc w) [] h = absurd (omega arith)
read_le-total (suc w) (b ∷ bytes) h =
    let (n, rest, e, l) = read_le-total w bytes (omega arith) in
    (b + 256 * n, rest, rw (e, read_le), omega (arith, l))

-- Enough bytes never make `unpack` fail, and it gives a value for each field.
pub unpack-total :
    (widths bytes : List ℕ)
    → total widths ≤ length bytes
    → (ns : List ℕ) × (unpack widths bytes ≡ some ns) × (length ns ≡ length widths)
unfolding unpack
unpack-total [] bytes h = ([], refl, refl)
unpack-total (w ∷ widths) bytes h =
    let (n, rest, e, l) = read_le-total w bytes (omega arith) in
    let (ns, f, m) = unpack-total widths rest (omega (arith, l)) in
    (n ∷ ns, rw (e, unpack) (rw (f, unpack)), ap suc m)

length-write_le : (w n : ℕ) → length (write_le w n) ≡ w
unfolding write_le
length-write_le zero n = refl
length-write_le (suc w) n = ap suc (length-write_le w (n / 256))

pub length-pack : (widths ns : List ℕ) → Fits widths ns → length (pack widths ns) ≡ total widths
unfolding pack
length-pack [] [] f = refl
length-pack [] (n ∷ ns) f = absurd f
length-pack (w ∷ widths) [] f = absurd f
length-pack (w ∷ widths) (n ∷ ns) f =
    length-append (write_le w n) (pack widths ns)
    ∙ omega (arith, length-write_le w n, length-pack widths ns f.1)
