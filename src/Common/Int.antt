-- ===== src/Common/Int.antt =====
-- Signed integers. `negsuc n` is -(n + 1).
use Prim.Native.Nat.{ℕ, zero, suc}
use mathlib.Core.Path.{◌≡◌, refl}
use mathlib.Core.Bool.{Bool, true, false, ◌||◌}
use native.Mathlib.Omega.{arith}
use local_ai_coding_agent.Common.Tests.{leb}

pub data ℤ : Type 0 where
  pos : ℕ → ℤ
  negsuc : ℕ → ℤ

abbrev pub leb_ℤ : ℤ → ℤ → Bool
leb_ℤ (pos a) (pos b) = leb a b
leb_ℤ (pos a) (negsuc b) = false
leb_ℤ (negsuc a) (pos b) = true
leb_ℤ (negsuc a) (negsuc b) = leb b a

-- `a > 0`
abbrev pub is_positive : ℤ → Bool
is_positive (pos zero) = false
is_positive (pos (suc n)) = true
is_positive (negsuc n) = false

abbrev pub -ℤ◌ : ℤ → ℤ
-ℤ◌ (pos zero) = pos zero
-ℤ◌ (pos (suc n)) = negsuc n
-ℤ◌ (negsuc n) = pos (suc n)

pub leb_ℤ-neg : (a b : ℤ) → leb_ℤ (-ℤ◌ a) (-ℤ◌ b) ≡ leb_ℤ b a
leb_ℤ-neg (pos zero) (pos zero) = refl
leb_ℤ-neg (pos zero) (pos (suc b)) = ground arith
leb_ℤ-neg (pos (suc a)) (pos zero) = ground arith
leb_ℤ-neg (pos (suc a)) (pos (suc b)) = ground arith
leb_ℤ-neg (pos zero) (negsuc b) = ground arith
leb_ℤ-neg (pos (suc a)) (negsuc b) = ground arith
leb_ℤ-neg (negsuc a) (pos zero) = ground arith
leb_ℤ-neg (negsuc a) (pos (suc b)) = ground arith
leb_ℤ-neg (negsuc a) (negsuc b) = ground arith

pub leb_ℤ_total : (a b : ℤ) → (leb_ℤ a b || leb_ℤ b a) ≡ true
leb_ℤ_total (pos a) (pos b) = ground arith
leb_ℤ_total (pos a) (negsuc b) = refl
leb_ℤ_total (negsuc a) (pos b) = refl
leb_ℤ_total (negsuc a) (negsuc b) = ground arith

pub leb_ℤ_trans : (a b c : ℤ) → leb_ℤ a b ≡ true → leb_ℤ b c ≡ true → leb_ℤ a c ≡ true
leb_ℤ_trans (pos a) (pos b) (pos c) h k = ground arith
leb_ℤ_trans (pos a) (pos b) (negsuc c) h k = cc
leb_ℤ_trans (pos a) (negsuc b) c h k = cc
leb_ℤ_trans (negsuc a) (pos b) (pos c) h k = refl
leb_ℤ_trans (negsuc a) (pos b) (negsuc c) h k = cc
leb_ℤ_trans (negsuc a) (negsuc b) (pos c) h k = refl
leb_ℤ_trans (negsuc a) (negsuc b) (negsuc c) h k = ground arith
