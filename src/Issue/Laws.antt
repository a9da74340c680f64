-- ===== src/Issue/Laws.antt =====
-- When checks find nothing, and when they do not raise.
use kozo.Base.{
  String, Bool, true, false, ◌≡◌, refl, ◌↔◌, none, some, or_else, List, [], ◌∷◌, All, Member, arith,
  inl, inr,
}
use kozo.Result.{ok, raise, ◌>>=◌, ok-injective}
use kozo.Issue.{
  first_issue, Find, Check, issue_unless, first_of, then_check, first_check, first_check_of,
}

pub issue_unless-none :
    (b : Bool) (reason key detail : String) → (issue_unless b reason key detail ≡ none) ↔ (b ≡ true)
issue_unless-none true reason key detail = (λ _. refl, λ _. refl)
issue_unless-none false reason key detail = (λ h. cc, λ h. cc)

pub or_else-none : (f g : Find) → (or_else f g ≡ none) ↔ ((f ≡ none) × (g ≡ none))
or_else-none none g = (λ h. (refl, h), λ (_, h). h)
or_else-none (some i) g = (λ h. cc, λ (h, _). cc)

pub first_of-none :
    {A : Type 0} (check : A → Find) (xs : List A)
    → (first_of check xs ≡ none) ↔ All (λ a. check a ≡ none) xs
first_of-none check [] = (λ _. tt, λ _. refl)
first_of-none check (x ∷ xs) =
    ground (arith, or_else-none (check x) (first_of check xs), first_of-none check xs)

-- The check gives a value: it does not raise.
abbrev pub Answers : Check → Type 0
Answers c = (f : Find) × (c ≡ ok f)

pub >>-none :
    (c : Check) (next : Find → Check)
    → ((c >>= next) ≡ ok none) ↔ ((f : Find) × (c ≡ ok f) × (next f ≡ ok none))
>>-none (ok f) next =
    (λ h. (f, refl, h), λ (g, e, h). let same : f ≡ g = ok-injective f g e in rw same h)
>>-none (raise e) next = (λ h. cc, λ (g, q, h). cc)

pub then_check-none :
    (f : Find) (next : Check) → (then_check f next ≡ ok none) ↔ ((f ≡ none) × (next ≡ ok none))
then_check-none none next = (λ h. (refl, h), λ (_, h). h)
then_check-none (some i) next = (λ h. cc, λ (h, _). cc)

-- One step of a run of checks.
abbrev pub step : Check → Check → Check
step c next = c >>= λ found. then_check found next

pub step-none : (c next : Check) → (step c next ≡ ok none) ↔ ((c ≡ ok none) × (next ≡ ok none))
step-none (ok none) next = (λ h. (refl, h), λ (_, h). h)
step-none (ok (some i)) next = (λ h. cc, λ (h, _). cc)
step-none (raise e) next = (λ h. cc, λ (h, _). cc)

-- What comes later is only evaluated where nothing was found before.
pub step-Answers :
    (c next : Check) → Answers c → (c ≡ ok none → Answers next) → Answers (step c next)
step-Answers (ok none) next a h = h refl
step-Answers (ok (some i)) next a h = (some i, refl)
step-Answers (raise e) next (f, q) h = cc

pub first_check_of-none :
    {A : Type 0} (check : A → Check) (xs : List A)
    → (first_check_of check xs ≡ ok none) ↔ All (λ a. check a ≡ ok none) xs
first_check_of-none check [] = (λ _. tt, λ _. refl)
first_check_of-none check (x ∷ xs) =
    let here = step-none (check x) (first_check_of check xs) in
    let rest = first_check_of-none check xs in
    (λ h. ((here.0 h).0, rest.0 (here.0 h).1), λ (a, b). here.1 (a, rest.1 b))

pub first_check_of-Answers :
    {A : Type 0} (check : A → Check) (xs : List A)
    → All (λ a. Answers (check a)) xs
    → Answers (first_check_of check xs)
first_check_of-Answers check [] h = (none, refl)
first_check_of-Answers check (x ∷ xs) h =
    step-Answers (check x) (first_check_of check xs) h.0 (λ _. first_check_of-Answers check xs h.1)

-- Predicates that agree on the elements of a list agree on all of it.
pub All-iff :
    {A : Type 0} (P Q : A → Type 0) (xs : List A)
    → ((a : A) → Member a xs → P a ↔ Q a)
    → All P xs ↔ All Q xs
All-iff P Q [] f = (λ h. h, λ h. h)
All-iff P Q (x ∷ xs) f =
    let (forth, back) = f x (inl refl) in
    let (fs, bs) = All-iff P Q xs (λ a m. f a (inr m)) in
    (λ (h, t). (forth h, fs t), λ (h, t). (back h, bs t))

-- A loop finds nothing where each of its rounds finds nothing, said by what a round looks for.
module _ {A : Type 0} (Q : A → Type 0) (xs : List A) where
  pub first_of_iff :
      (check : A → Find)
      → ((a : A) → Member a xs → (check a ≡ none) ↔ Q a)
      → (first_of check xs ≡ none) ↔ All Q xs
  first_of_iff check f =
      let (forth, back) = first_of-none check xs in
      let (there, here) = All-iff (λ a. check a ≡ none) Q xs f in
      (λ h. there (forth h), λ h. back (here h))

  pub first_check_of_iff :
      (check : A → Check)
      → ((a : A) → Member a xs → (check a ≡ ok none) ↔ Q a)
      → (first_check_of check xs ≡ ok none) ↔ All Q xs
  first_check_of_iff check f =
      let (forth, back) = first_check_of-none check xs in
      let (there, here) = All-iff (λ a. check a ≡ ok none) Q xs f in
      (λ h. there (forth h), λ h. back (here h))

-- A last check of a run.
pub ok_unless-none :
    (b : Bool) (reason key detail : String)
    → ◌≡◌ {A = Check} (ok (issue_unless b reason key detail)) (ok none) ↔ (b ≡ true)
ok_unless-none true reason key detail = (λ _. refl, λ _. refl)
ok_unless-none false reason key detail = (λ h. cc, λ h. cc)

-- Each check answers where the ones before it found nothing.
abbrev pub AllAnswer : List Check → Type 0
AllAnswer [] = Unit
AllAnswer (c ∷ rest) = Answers c × (c ≡ ok none → AllAnswer rest)

pub first_check-Answers : (checks : List Check) → AllAnswer checks → Answers (first_check checks)
first_check-Answers [] h = (none, refl)
first_check-Answers (c ∷ rest) (here, later) =
    step-Answers c (first_check rest) here (λ h. first_check-Answers rest (later h))

pub first_check-none :
    (checks : List Check) → (first_check checks ≡ ok none) ↔ All (λ c. c ≡ ok none) checks
first_check-none [] = (λ _. tt, λ _. refl)
first_check-none (c ∷ rest) =
    let here = step-none c (first_check rest) in
    let (forth, back) = first_check-none rest in
    (λ h. ((here.0 h).0, forth (here.0 h).1), λ (a, b). here.1 (a, back b))

pub first_issue-none : (found : List Find) → (first_issue found ≡ none) ↔ All (λ f. f ≡ none) found
first_issue-none [] = (λ _. tt, λ _. refl)
first_issue-none (f ∷ found) =
    ground (arith, or_else-none f (first_issue found), first_issue-none found)
