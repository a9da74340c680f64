-- ===== src/Base/Int.antt =====
-- Python's integers, with the comparisons that the harness makes.
use Prim.Native.Nat.{ℕ, ◌<◌}
use mathlib.Core.Path.{◌≡◌, refl}
use mathlib.Core.Logic.{◌↔◌}
use mathlib.Core.Bool.{Bool, true, false}
use native.Mathlib.Omega.{arith}
use kozo.Base.Logic.{leb, nat_beq, Equality}

-- `negsuc n` is -(n + 1).
pub data ℤ : Type 0 where
  pos : ℕ → ℤ
  negsuc : ℕ → ℤ

abbrev pub int_beq : ℤ → ℤ → Bool
int_beq (pos a) (pos b) = nat_beq a b
int_beq (pos a) (negsuc b) = false
int_beq (negsuc a) (pos b) = false
int_beq (negsuc a) (negsuc b) = nat_beq a b

-- a <= b
abbrev pub int_leb : ℤ → ℤ → Bool
int_leb (pos a) (pos b) = leb a b
int_leb (pos a) (negsuc b) = false
int_leb (negsuc a) (pos b) = true
int_leb (negsuc a) (negsuc b) = leb b a

abbrev pub ◌<ℤ◌ : ℤ → ℤ → Type 0
◌<ℤ◌ (pos a) (pos b) = a < b
◌<ℤ◌ (pos a) (negsuc b) = ⊥
◌<ℤ◌ (negsuc a) (pos b) = Unit
◌<ℤ◌ (negsuc a) (negsuc b) = b < a

infix 50 ◌<ℤ◌
pub int_beq_iff : (a b : ℤ) → (int_beq a b ≡ true) ↔ (a ≡ b)
int_beq_iff (pos a) (pos b) = ground arith
int_beq_iff (pos a) (negsuc b) = ground arith
int_beq_iff (negsuc a) (pos b) = ground arith
int_beq_iff (negsuc a) (negsuc b) = ground arith

instance abbrev pub int_equality : Equality ℤ
int_equality = record { equals = int_beq; equals_iff = int_beq_iff }

-- a <= b and a != b make a < b, and a < b gives both.
pub lt_of_leb : (a b : ℤ) → int_leb a b ≡ true → int_beq a b ≡ false → a <ℤ b
lt_of_leb (pos a) (pos b) h n = ground arith
lt_of_leb (pos a) (negsuc b) h n = cc
lt_of_leb (negsuc a) (pos b) h n = tt
lt_of_leb (negsuc a) (negsuc b) h n = ground arith

pub leb_of_lt : (a b : ℤ) → a <ℤ b → int_leb a b ≡ true
leb_of_lt (pos a) (pos b) h = ground arith
leb_of_lt (pos a) (negsuc b) h = absurd h
leb_of_lt (negsuc a) (pos b) h = refl
leb_of_lt (negsuc a) (negsuc b) h = ground arith

pub beq_of_lt : (a b : ℤ) → a <ℤ b → int_beq a b ≡ false
beq_of_lt (pos a) (pos b) h = ground arith
beq_of_lt (pos a) (negsuc b) h = refl
beq_of_lt (negsuc a) (pos b) h = refl
beq_of_lt (negsuc a) (negsuc b) h = ground arith

pub lt_trans : (a b c : ℤ) → a <ℤ b → b <ℤ c → a <ℤ c
lt_trans (pos a) (pos b) (pos c) h k = omega arith
lt_trans (pos a) (pos b) (negsuc c) h k = absurd k
lt_trans (pos a) (negsuc b) c h k = absurd h
lt_trans (negsuc a) (pos b) (pos c) h k = tt
lt_trans (negsuc a) (pos b) (negsuc c) h k = absurd k
lt_trans (negsuc a) (negsuc b) (pos c) h k = tt
lt_trans (negsuc a) (negsuc b) (negsuc c) h k = omega arith

pub leb_trans : (a b c : ℤ) → int_leb a b ≡ true → int_leb b c ≡ true → int_leb a c ≡ true
leb_trans (pos a) (pos b) (pos c) h k = ground arith
leb_trans (pos a) (pos b) (negsuc c) h k = cc
leb_trans (pos a) (negsuc b) c h k = cc
leb_trans (negsuc a) (pos b) (pos c) h k = refl
leb_trans (negsuc a) (pos b) (negsuc c) h k = cc
leb_trans (negsuc a) (negsuc b) (pos c) h k = refl
leb_trans (negsuc a) (negsuc b) (negsuc c) h k = ground arith

pub leb_total : (a b : ℤ) → int_leb a b ≡ false → int_leb b a ≡ true
leb_total (pos a) (pos b) h = ground arith
leb_total (pos a) (negsuc b) h = refl
leb_total (negsuc a) (pos b) h = cc
leb_total (negsuc a) (negsuc b) h = ground arith
