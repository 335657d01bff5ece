-- ===== src/LinkedList/Laws.antt =====
-- What the list operations compute.
use iiw_udp_gbn.Base.{
  ℕ, ◌+◌, ◌≡◌, refl, ap, false, List, [], ◌∷◌, ◌++◌, some, arith, length, length-append,
}
use iiw_udp_gbn.Base.Int.{pos}
use iiw_udp_gbn.LinkedList.{
  append_ll, len_loop, len_ll, get_ll, pop_ll, travel, unlink, out_of_range,
}

module _ {ℓ} {V : Type ℓ} where
  -- appendLL adds the value behind all others.
  pub append_ll-append : (l : List V) (v : V) → append_ll l v ≡ l ++ v ∷ []
  unfolding append_ll
  append_ll-append [] v = refl
  append_ll-append (x ∷ []) v = refl
  append_ll-append (x ∷ y ∷ r) v = ap (λ s. x ∷ s) (append_ll-append (y ∷ r) v)

  len_loop_lem : (count : ℕ) (l : List V) → len_loop count l ≡ count + length l
  unfolding len_loop
  len_loop_lem count [] = omega arith
  len_loop_lem count (x ∷ r) = omega (arith, len_loop_lem (count + 1) r)

  pub len_ll-length : (l : List V) → len_ll l ≡ length l
  unfolding len_ll
  len_ll-length l = omega (arith, len_loop_lem 0 l)

  travel-append : (a b : List V) → travel (length a) (a ++ b) ≡ some b
  unfolding travel
  travel-append [] b = refl
  travel-append (x ∷ a) b = travel-append a b

  unlink-append :
      (a : List V) (v : V) (b : List V) → unlink (length a) (a ++ v ∷ b) ≡ some (v, a ++ b)
  unfolding unlink
  unlink-append [] v b = refl
  unlink-append (x ∷ a) v b = rw (unlink-append a v b)

  in_range : (a : List V) (v : V) (b : List V) → out_of_range (a ++ v ∷ b) (pos (length a)) ≡ false
  in_range a v b = rw (len_ll-length (a ++ v ∷ b), length-append a (v ∷ b)) (ground arith)

  -- getLL finds the node that stands behind `length a` others.
  pub get_ll-append :
      (a : List V) (v : V) (b : List V) → get_ll (a ++ v ∷ b) (pos (length a)) ≡ some (v ∷ b)
  unfolding get_ll
  get_ll-append a v b = rw (in_range a v b) (travel-append a (v ∷ b))

  -- popLL takes out exactly the value at the index, and keeps the others in their order.
  pub pop_ll-append :
      (a : List V) (v : V) (b : List V) → pop_ll (a ++ v ∷ b) (pos (length a)) ≡ some (v, a ++ b)
  unfolding pop_ll
  pop_ll-append [] v b = rw (in_range [] v b) (unlink-append [] v b)
  pop_ll-append (x ∷ a) v b = rw (in_range (x ∷ a) v b) (unlink-append (x ∷ a) v b)
