-- ===== src/Base/Int.antt =====
-- C's signed integers over the native numbers, under the library's names.
use iiw_udp_gbn.Base.{
  ℕ, suc, ◌+◌, ◌-◌, ◌%◌, ◌^◌, ◌<◌, ◌≤◌, ◌≡◌, Bool, true, arith, ltb, leb, ◌==◌, if◌then◌else◌, ◌↔◌,
}

-- `negsuc n` is -(n + 1).
pub data ℤ : Type 0 where
  pos : ℕ → ℤ
  negsuc : ℕ → ℤ

abbrev pub pos_part : ℤ → ℕ
pos_part (pos n) = n
pos_part (negsuc n) = 0

abbrev pub neg_part : ℤ → ℕ
neg_part (pos n) = 0
neg_part (negsuc n) = suc n

-- a - b, as an integer.
abbrev pub sub_ℕ : ℕ → ℕ → ℤ
sub_ℕ a b = if leb b a then pos (a - b) else negsuc (b - a - 1)

infixl 65 ◌+ℤ◌ ◌-ℤ◌
unfoldable pub ◌+ℤ◌ : ℤ → ℤ → ℤ
a +ℤ b = sub_ℕ (pos_part a + pos_part b) (neg_part a + neg_part b)

unfoldable pub ◌-ℤ◌ : ℤ → ℤ → ℤ
a -ℤ b = sub_ℕ (pos_part a + neg_part b) (neg_part a + pos_part b)

abbrev pub ltb_ℤ : ℤ → ℤ → Bool
ltb_ℤ a b = ltb (pos_part a + neg_part b) (pos_part b + neg_part a)

abbrev pub eqb_ℤ : ℤ → ℤ → Bool
eqb_ℤ a b = pos_part a + neg_part b == pos_part b + neg_part a

pub eqb_ℤ_iff : (a b : ℤ) → (eqb_ℤ a b ≡ true) ↔ (a ≡ b)
eqb_ℤ_iff a b = ground arith

-- C's `a % b` at a positive b: the remainder has the sign of a.
abbrev pub rem_ℤ : ℤ → ℕ → ℤ
rem_ℤ (pos n) b = pos (n % b)
rem_ℤ (negsuc n) b = sub_ℕ 0 (suc n % b)

abbrev pub abs_ℤ : ℤ → ℕ
abs_ℤ (pos n) = n
abs_ℤ (negsuc n) = suc n

-- The values of a 32-bit `int`.
abbrev pub IsInt : ℤ → Type 0
IsInt (pos n) = n < 2 ^ 31
IsInt (negsuc n) = n < 2 ^ 31

infix 50 ◌≤ℤ◌
abbrev pub ◌≤ℤ◌ : ℤ → ℤ → Type 0
a ≤ℤ b = pos_part a + neg_part b ≤ pos_part b + neg_part a

-- One lemma for each operation lets `omega` work with the operations shut.
pub +ℤ_parts :
    (a b : ℤ)
    → pos_part (a +ℤ b) + neg_part a + neg_part b ≡ neg_part (a +ℤ b) + pos_part a + pos_part b
unfolding ◌+ℤ◌
+ℤ_parts a b = ground arith

pub -ℤ_parts :
    (a b : ℤ)
    → pos_part (a -ℤ b) + neg_part a + pos_part b ≡ neg_part (a -ℤ b) + pos_part a + neg_part b
unfolding ◌-ℤ◌
-ℤ_parts a b = ground arith
