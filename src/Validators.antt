-- ===== src/Validators.antt =====
-- harness/validators.py: the registry of the validator classes, and `_build_validators`, which puts
-- them in canonical order. A class is what the aggregator reads of it.
use kozo.Base.{
  String, Bool, true, false, not, null, filter, contains, ◌==◌, string_equality, eq_iff,
  if◌then◌else◌, List, [], ◌∷◌, map, Option, none, some, ◌≡◌, refl,
}
use kozo.Base.Order.{sorted_set}
use kozo.Registry.{checks, check_names}
use kozo.Result.{Result, ok, raise, ◌>>=◌, ◌>>◌, >>=-eq-ok, ok-injective}
use kozo.Aggregator.Types.{Validator}

-- The `ValueError`s by their arguments.
pub data RegistryError : Type 0 where
  not_in_order : RegistryError
  missing_validators extra_validators : List String → RegistryError
  wrong_name wrong_declared : String → RegistryError

abbrev pub Build : Type 0 → Type 0
Build A = Result RegistryError A

abbrev pub require : Bool → RegistryError → Build (Unit {0})
require true e = ok tt
require false e = raise e

-- `_VALIDATOR_CLASSES_BY_NAME`
abbrev pub Registered : Type 0
Registered = List (String × Validator)

abbrev registered_names : Registered → List String
registered_names = map (λ (name, v). name)

unfoldable pub class_of : String → Registered → Option Validator
class_of name [] = none
class_of name ((k, v) ∷ registered) =
    let rest = class_of name registered in if name == k then some v else rest

unfoldable pub same_names : List String → List String → Bool
same_names [] [] = true
same_names [] (b ∷ bs) = false
same_names (a ∷ as') [] = false
same_names (a ∷ as') (b ∷ bs) = if a == b then same_names as' bs else false

-- the tests of the loop on one class
unfoldable pub check_class : String → String → Option Validator → Build Validator
check_class name subsystem none = raise (wrong_name name)
check_class name subsystem (some v) = do
  require (v.name == name) (wrong_name name)
  require (v.subsystem == subsystem) (wrong_declared name)
  ok v

-- the loop of `_build_validators`
unfoldable pub build_from : Registered → List (String × String) → Build (List Validator)
build_from registered [] = ok []
build_from registered ((name, subsystem) ∷ rest) = do
  v ← check_class name subsystem (class_of name registered)
  vs ← build_from registered rest
  ok (v ∷ vs)

-- the check of the module and `_build_validators`
unfoldable pub build_validators : Registered → Build (List Validator)
build_validators registered =
    let names = registered_names registered in
    let missing = sorted_set (filter (λ n. not (contains names n)) check_names) in
    let extra = sorted_set (filter (λ n. not (contains check_names n)) names) in
    require (same_names names check_names) not_in_order
    >> require (null missing) (missing_validators missing)
    >> require (null extra) (extra_validators extra)
    >> build_from registered checks

abbrev pub declared : Validator → String × String
declared v = (v.name, v.subsystem)

require-ok : (b : Bool) (e : RegistryError) (u : Unit {0}) → require b e ≡ ok u → b ≡ true
require-ok true e u h = refl
require-ok false e u h = cc

declared_same :
    (w : Validator) (name subsystem : String)
    → w.name ≡ name
    → w.subsystem ≡ subsystem
    → declared w ≡ (name, subsystem)
declared_same w name subsystem n s = rw (n, s) refl

cons_same {ℓ} :
    {A : Type ℓ} (a b : A) (as' bs : List A)
    → a ≡ b
    → as' ≡ bs
    → ◌≡◌ {A = List A} (a ∷ as') (b ∷ bs)
cons_same a b as' bs e f = rw (e, f) refl

check_class-declared :
    (name subsystem : String) (o : Option Validator) (v : Validator)
    → check_class name subsystem o ≡ ok v
    → declared v ≡ (name, subsystem)
unfolding check_class
check_class-declared name subsystem none v h = cc
check_class-declared name subsystem (some w) v h =
    let (u, a, h₁) = >>=-eq-ok (require (w.name == name) (wrong_name name)) _ h in
    let (u', b, h₂) = >>=-eq-ok (require (w.subsystem == subsystem) (wrong_declared name)) _ h₁ in
    let same : w ≡ v = ok-injective w v h₂ in
    let n = (eq_iff w.name name).0 (require-ok (w.name == name) (wrong_name name) u a) in
    let s =
      (eq_iff w.subsystem subsystem).0
        (require-ok (w.subsystem == subsystem) (wrong_declared name) u' b) in
    rw (← same) (declared_same w name subsystem n s)

build_from-declared :
    (registered : Registered) (cs : List (String × String)) (vs : List Validator)
    → build_from registered cs ≡ ok vs
    → map declared vs ≡ cs
unfolding build_from
build_from-declared registered [] vs h = rw (← ok-injective [] vs h) refl
build_from-declared registered ((name, subsystem) ∷ cs) vs h =
    let (v, e, h₁) = >>=-eq-ok (check_class name subsystem (class_of name registered)) _ h in
    let (rest, f, h₂) = >>=-eq-ok (build_from registered cs) _ h₁ in
    rw (← ok-injective (v ∷ rest) vs h₂) (
      cons_same (declared v) (name, subsystem) (map declared rest) cs
        (check_class-declared name subsystem (class_of name registered) v e)
        (build_from-declared registered cs rest f))

-- The validators that are built are those of the canonical checks: their names and subsystems are
-- the table of checks, in its order.
pub build_validators-checks :
    (registered : Registered) (vs : List Validator)
    → build_validators registered ≡ ok vs
    → map declared vs ≡ checks
unfolding build_validators
build_validators-checks registered vs h =
    let (u, e, h₁) = >>=-eq-ok _ (λ _. build_from registered checks) h in
    build_from-declared registered checks vs h₁
