-- ===== src/Wire.antt =====
-- `memcpy` of one scalar between a struct member and a byte buffer, as serializePacket and
-- serializeMessage use it: bool is one byte, int four, in_port_t two, least significant byte
-- first (the byte order of the x86 hosts the program is built for).
-- A load hands on the rest of the buffer; `none` is a read past its end.
use iiw_udp_gbn.Base.{
  ℕ, zero, suc, ◌+◌, ◌-◌, ◌*◌, ◌/◌, ◌%◌, ◌^◌, ◌<◌, ◌≤◌, ◌≡◌, refl, ap, Bool, true, false, List, [],
  ◌∷◌, ◌++◌, Option, none, some, arith, ltb, leb, if◌then◌else◌, length, take, take-append,
  length-append,
}
use mathlib.Core.List.{append-nil}
use iiw_udp_gbn.Base.Int.{ℤ, pos, negsuc, IsInt}

unfoldable pub store_bool : Bool → List ℕ
store_bool true = 1 ∷ []
store_bool false = 0 ∷ []

unfoldable pub load_bool : List ℕ → Option (Bool × List ℕ)
load_bool [] = none
load_bool (zero ∷ rest) = some (false, rest)
load_bool (suc b ∷ rest) = some (true, rest)

-- The two's complement pattern of an int, and the int of a pattern.
abbrev pub word_of : ℤ → ℕ
word_of (pos n) = n % 2 ^ 32
word_of (negsuc n) = 2 ^ 32 - 1 - n % 2 ^ 32

abbrev pub int_of : ℕ → ℤ
int_of w = if ltb w (2 ^ 31) then pos w else negsuc (2 ^ 32 - 1 - w)

unfoldable pub store_int : ℤ → List ℕ
store_int x =
    let w = word_of x in w % 256 ∷ w / 256 % 256 ∷ w / 65536 % 256 ∷ w / 16777216 % 256 ∷ []

unfoldable pub load_int : List ℕ → Option (ℤ × List ℕ)
load_int (a ∷ b ∷ c ∷ d ∷ rest) = some (int_of (a + 256 * b + 65536 * c + 16777216 * d), rest)
load_int _ = none

unfoldable pub store_port : ℕ → List ℕ
store_port p = p % 256 ∷ p / 256 % 256 ∷ []

unfoldable pub load_port : List ℕ → Option (ℕ × List ℕ)
load_port (a ∷ b ∷ rest) = some (a + 256 * b, rest)
load_port _ = none

-- `if (len != 0) memcpy(…, from, len)`: nothing at 0, and a fault where `len` is negative (it is
-- converted to a huge size_t) or exceeds the bytes at hand.
unfoldable pub copy_bytes : ℤ → List ℕ → Option (List ℕ)
copy_bytes (pos n) from = if leb n (length from) then some (take n from) else none
copy_bytes (negsuc n) from = none

pub load_bool-store_bool :
    (x : Bool) (rest : List ℕ) → load_bool (store_bool x ++ rest) ≡ some (x, rest)
unfolding load_bool store_bool
load_bool-store_bool true rest = refl
load_bool-store_bool false rest = refl

int_of-word_of : (x : ℤ) (w : ℕ) → IsInt x → w ≡ word_of x → int_of w ≡ x
int_of-word_of (pos n) w h e = ground arith
int_of-word_of (negsuc n) w h e = ground arith

word_of-lt : (x : ℤ) → word_of x < 2 ^ 32
word_of-lt (pos n) = omega arith
word_of-lt (negsuc n) = omega arith

bytes_of :
    (w : ℕ)
    → w < 2 ^ 32
    → w % 256 + 256 * (w / 256 % 256) + 65536 * (w / 65536 % 256) + 16777216 * (w / 16777216 % 256)
      ≡ w
bytes_of w h = omega arith

pub load_int-store_int :
    (x : ℤ) (rest : List ℕ) → IsInt x → load_int (store_int x ++ rest) ≡ some (x, rest)
unfolding load_int store_int
load_int-store_int x rest h =
    ap (λ y. some (y, rest)) (int_of-word_of x _ h (bytes_of (word_of x) (word_of-lt x)))

pub load_port-store_port :
    (p : ℕ) (rest : List ℕ) → p < 2 ^ 16 → load_port (store_port p ++ rest) ≡ some (p, rest)
unfolding load_port store_port
load_port-store_port p rest h = ground arith

le→leb : (a b : ℕ) → a ≤ b → leb a b ≡ true
le→leb a b h = ground arith

-- `n` bytes that are followed by others.
pub copy_bytes-append :
    (n : ℤ) (xs rest : List ℕ) → n ≡ pos (length xs) → copy_bytes n (xs ++ rest) ≡ some xs
unfolding copy_bytes
copy_bytes-append n xs rest e = rw (
  e,
  le→leb (length xs) (length (xs ++ rest)) (omega (arith, length-append xs rest)),
  take-append xs rest,
)

pub copy_bytes_self : (n : ℤ) (xs : List ℕ) → n ≡ pos (length xs) → copy_bytes n xs ≡ some xs
copy_bytes_self n xs e = rw (append-nil xs) at (copy_bytes-append n xs [] e)

pub length-store_bool : (b : Bool) → length (store_bool b) ≡ 1
unfolding store_bool
length-store_bool true = refl
length-store_bool false = refl
