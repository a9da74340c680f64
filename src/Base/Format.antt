-- ===== src/Base/Format.antt =====
-- Python's formatting of the values that messages carry: `str` of an integer, `hex`, `repr` of a
-- text. `repr` leaves every character above ASCII as it is.
use Prim.Native.Char.{Char, code}
use kozo.Base.Logic.{ltb, if◌then◌else◌, contains, ◌==◌, nat_equality}
use kozo.Base.Int.{ℤ, pos, negsuc}
use Prim.Native.Nat.{ℕ, zero, suc, ◌/◌, ◌%◌}
use Prim.Native.String.{String, ◌++◌ as ◌<>◌}
use mathlib.Core.Bool.{◌&&◌, ◌||◌, not}
use kozo.Base.Text.{codes}

-- One digit in a base of at most 16.
pub digit : ℕ → String
digit n =
    if n == 0
    then "0"
    else if n == 1
    then "1"
    else if n == 2
    then "2"
    else if n == 3
    then "3"
    else if n == 4
    then "4"
    else if n == 5
    then "5"
    else if n == 6
    then "6"
    else if n == 7
    then "7"
    else if n == 8
    then "8"
    else if n == 9
    then "9"
    else if n == 10
    then "a"
    else if n == 11
    then "b"
    else if n == 12
    then "c"
    else if n == 13
    then "d"
    else if n == 14
    then "e"
    else "f"

show_digits : ℕ → ℕ → ℕ → String
show_digits zero base n = ""
show_digits (suc fuel) base n =
    let more = show_digits fuel base (n / base) <> digit (n % base) in
    if ltb n base then digit n else more

-- `str(n)`
unfoldable pub show_nat : ℕ → String
unfolding digit show_digits
show_nat n = show_digits (suc n) 10 n

unfoldable pub show_int : ℤ → String
unfolding show_nat
show_int (pos n) = show_nat n
show_int (negsuc n) = "-" <> show_nat (suc n)

-- `f"0x{n:x}"`
unfoldable pub show_hex : ℕ → String
unfolding digit show_digits
show_hex n = "0x" <> show_digits (suc n) 16 n

-- One character of a `repr`, inside the quote `q`.
escape : ℕ → Char → String
unfolding digit
escape q c =
    let n = code c in
    if n == 92
    then "\\\\"
    else if n == q
    then "\\" <> String.◌∷◌ c ""
    else if n == 9
    then "\\t"
    else if n == 10
    then "\\n"
    else if n == 13
    then "\\r"
    else if ltb n 32 || n == 127
    then "\\x" <> digit (n / 16) <> digit (n % 16)
    else String.◌∷◌ c ""

escape_all : ℕ → String → String
escape_all q String.[] = ""
escape_all q (String.◌∷◌ c s) = escape q c <> escape_all q s

-- `repr(text)`
unfoldable pub repr : String → String
unfolding escape escape_all
repr s =
    if contains (codes s) 39 && not (contains (codes s) 34)
    then "\"" <> escape_all 34 s <> "\""
    else "'" <> escape_all 39 s <> "'"
