-- ===== src/Base/Lists.antt =====
-- Lists measured and indexed by native numbers, under the library's names, and arrays as functions.
use Prim.Native.Nat.{ℕ, zero, suc, ◌+◌, ◌-◌, ◌<◌, ◌≤◌, min}
use Prim.Native.Nat.add
use mathlib.Core.Path.{◌≡◌, refl, ap, subst}
use mathlib.Core.Logic.{◌≢◌}
use mathlib.Core.List.{List, [], ◌∷◌, ◌++◌}
use mathlib.Core.Option.{Option, none, some}
use native.Mathlib.Omega.{arith}
use iiw_udp_gbn.Base.Tests.{◌==◌, if◌then◌else◌, some_eq}

module _ {ℓ} {A : Type ℓ} where
  abbrev pub length : List A → ℕ
  length [] = 0
  length (x ∷ xs) = suc (length xs)

  abbrev pub get_elem? : List A → ℕ → Option A
  get_elem? [] i = none
  get_elem? (x ∷ xs) zero = some x
  get_elem? (x ∷ xs) (suc i) = get_elem? xs i

  abbrev pub take : ℕ → List A → List A
  take zero xs = []
  take (suc n) [] = []
  take (suc n) (x ∷ xs) = x ∷ take n xs

  abbrev pub drop : ℕ → List A → List A
  drop zero xs = xs
  drop (suc n) [] = []
  drop (suc n) (x ∷ xs) = drop n xs

  abbrev pub replicate : ℕ → A → List A
  replicate zero a = []
  replicate (suc n) a = a ∷ replicate n a

  abbrev pub All {κ} : (A → Type κ) → List A → Type κ
  All P [] = Unit
  All P (x ∷ xs) = P x × All P xs

  -- An array, or a map with a default, is a function; a store changes it at one index.
  abbrev pub update : (ℕ → A) → ℕ → A → ℕ → A
  update f i a j = if i == j then a else f j

module _ {ℓ} {A : Type ℓ} where
  pub length-append : (xs ys : List A) → length (xs ++ ys) ≡ length xs + length ys
  length-append [] ys = omega arith
  length-append (x ∷ xs) ys = omega (arith, length-append xs ys)

  pub take-append-drop : (n : ℕ) (xs : List A) → take n xs ++ drop n xs ≡ xs
  take-append-drop zero xs = refl
  take-append-drop (suc n) [] = refl
  take-append-drop (suc n) (x ∷ xs) = rw (take-append-drop n xs)

  pub length-take : (n : ℕ) (xs : List A) → length (take n xs) ≡ min n (length xs)
  length-take zero xs = omega arith
  length-take (suc n) [] = omega arith
  length-take (suc n) (x ∷ xs) = omega (arith, length-take n xs)

  pub length-drop : (n : ℕ) (xs : List A) → length (drop n xs) ≡ length xs - n
  length-drop zero xs = omega arith
  length-drop (suc n) [] = omega arith
  length-drop (suc n) (x ∷ xs) = omega (arith, length-drop n xs)

  pub take-append : (xs ys : List A) → take (length xs) (xs ++ ys) ≡ xs
  take-append [] ys = refl
  take-append (x ∷ xs) ys = ap (λ l. x ∷ l) (take-append xs ys)

  pub take_all : (n : ℕ) (xs : List A) → length xs ≤ n → take n xs ≡ xs
  take_all zero [] h = refl
  take_all zero (x ∷ xs) h = absurd (omega arith)
  take_all (suc n) [] h = refl
  take_all (suc n) (x ∷ xs) h = ap (λ l. x ∷ l) (take_all n xs (omega arith))

  drop-nil : (n : ℕ) → drop {A = A} n [] ≡ []
  drop-nil zero = refl
  drop-nil (suc n) = refl

  pub drop-drop : (n m : ℕ) (xs : List A) → drop m (drop n xs) ≡ drop (n + m) xs
  drop-drop zero m xs = rw add.zero
  drop-drop (suc n) m [] = rw (drop-nil, drop-nil)
  drop-drop (suc n) m (x ∷ xs) = rw add.suc (drop-drop n m xs)

  pub drop_all : (n : ℕ) (xs : List A) → length xs ≤ n → drop n xs ≡ []
  drop_all n [] h = drop-nil n
  drop_all zero (x ∷ xs) h = absurd (omega arith)
  drop_all (suc n) (x ∷ xs) h = drop_all n xs (omega arith)

  pub All-append {κ} : (P : A → Type κ) (xs ys : List A) → All P xs → All P ys → All P (xs ++ ys)
  All-append P [] ys hx hy = hy
  All-append P (x ∷ xs) ys hx hy = (hx.0, All-append P xs ys hx.1 hy)

  pub All-at {κ} :
      (P : A → Type κ) (xs : List A) (i : ℕ) (x : A) → All P xs → get_elem? xs i ≡ some x → P x
  All-at P [] i x h e = cc
  All-at P (y ∷ ys) zero x h e = subst P (some_eq e) h.0
  All-at P (y ∷ ys) (suc i) x h e = All-at P ys i x h.1 e

  pub All-mono {κ κ'} :
      (P : A → Type κ) (Q : A → Type κ')
      → ((x : A) → P x → Q x)
      → (xs : List A) → All P xs
      → All Q xs
  All-mono P Q f [] h = tt
  All-mono P Q f (x ∷ xs) h = (f x h.0, All-mono P Q f xs h.1)

  pub All-take {κ} : (P : A → Type κ) (n : ℕ) (xs : List A) → All P xs → All P (take n xs)
  All-take P zero xs h = tt
  All-take P (suc n) [] h = tt
  All-take P (suc n) (x ∷ xs) h = (h.0, All-take P n xs h.1)

  pub get_elem?_below : (xs : List A) (i : ℕ) → i < length xs → (x : A) × (get_elem? xs i ≡ some x)
  get_elem?_below [] i h = absurd (omega arith)
  get_elem?_below (x ∷ xs) zero h = (x, refl)
  get_elem?_below (x ∷ xs) (suc i) h = get_elem?_below xs i (omega arith)

  pub length-replicate : (n : ℕ) (a : A) → length (replicate n a) ≡ n
  length-replicate zero a = refl
  length-replicate (suc n) a = ap suc (length-replicate n a)

  pub update_same : (f : ℕ → A) (j : ℕ) (a : A) → update f j a j ≡ a
  update_same f j a = ground arith

  pub update_other : (f : ℕ → A) (j k : ℕ) (a : A) → j ≢ k → update f j a k ≡ f k
  update_other f j k a h = ground arith
