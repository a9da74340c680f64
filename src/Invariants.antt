-- ===== src/Invariants.antt =====
-- harness/invariants.py: the predicates on JSON values, with the two patterns written as matchers.
pub mod Reference
pub mod Agreement
pub mod Table
use kozo.Base.{
  ℕ, String, Bool, true, false, ◌&&◌, ◌||◌, not, any, all, null, ◌==◌, nat_equality, List, [], ◌∷◌,
}
use kozo.Base.{if◌then◌else◌, Option, none, some}
use kozo.Base.Text.{Text, codes, is_space}
use kozo.Json
use kozo.Json.{Json, Items, nil, cons}
use Reference.{fullmatch_ref}

-- `re.fullmatch(r".*\S.*", value)`: `.` is any character but a line feed.
unfoldable pub fullmatch_nonempty : Text → Bool
unfolding is_space
fullmatch_nonempty t = all (λ c. not (c == 10)) t && any (λ c. not (is_space c)) t

-- `re.search(r".*\S.*", value)`
unfoldable pub search_nonempty : Text → Bool
unfolding is_space
search_nonempty t = any (λ c. not (is_space c)) t

unfoldable pub is_nonempty_string : Json → Bool
unfolding fullmatch_nonempty
is_nonempty_string (Json.str s) = fullmatch_nonempty (codes s)
is_nonempty_string _ = false

all_nonempty : Items → Bool
unfolding is_nonempty_string
all_nonempty nil = true
all_nonempty (cons x xs) = is_nonempty_string x && all_nonempty xs

unfoldable pub is_string_list : Json → Bool
unfolding all_nonempty
is_string_list (Json.arr xs) = all_nonempty xs
is_string_list _ = false

unfoldable pub is_nonempty_string_list : Json → Bool
unfolding is_string_list
is_nonempty_string_list (Json.arr nil) = false
is_nonempty_string_list v = is_string_list v

unfoldable pub is_verification_ref : Json → Bool
is_verification_ref (Json.str s) = fullmatch_ref (codes s)
is_verification_ref _ = false
