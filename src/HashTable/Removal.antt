-- ===== src/HashTable/Removal.antt =====
-- The removal of a pair from one collision list.
use mathlib.Core.Path.{subst}
use iiw_udp_gbn.Base.{
  ℕ, ◌+◌, ◌≤◌, ◌≡◌, refl, ap, sym, ◌∙◌, true, false, List, [], ◌∷◌, ◌++◌, none, some, arith, length,
  if◌then◌else◌, Bool-cases, Option-cases, inl, inr,
}
use iiw_udp_gbn.LinkedList.Laws.{pop_ll-append}
use iiw_udp_gbn.HashTable.{Pair, memcmp_eq, find, position, remove_from_chain}
use iiw_udp_gbn.HashTable.Chain.{count, memcmp_eq-eq, congr_right, bit, IsUniform, find-eq-none}

-- The pair that a removal destroys, between those before and behind it.
record Found {ℓ} {V : Type ℓ} (k : List ℕ) (i : ℕ) (c : List (Pair V)) (j : ℕ) (v : V)
    : Type ℓ where
  before : List (Pair V)
  pair : Pair V
  behind : List (Pair V)
  split : c ≡ before ++ pair ∷ behind
  place : j ≡ i + length before
  same : memcmp_eq pair.key k ≡ true
  value : find k c ≡ some v

module _ {ℓ} {V : Type ℓ} where
  position-none : (k : List ℕ) (i : ℕ) (c : List (Pair V)) → position k i c ≡ none → find k c ≡ none
  unfolding position find
  position-none k i [] h = refl
  position-none k i (p ∷ c) h = ground (arith, position-none k (i + 1) c)

  position-some :
      (k : List ℕ) (i : ℕ) (c : List (Pair V)) (j : ℕ) (v : V)
      → position k i c ≡ some (j, v)
      → Found k i c j v
  unfolding position find
  position-some k i [] j v h = cc
  position-some k i (p ∷ c) j v h = elim (Bool-cases (memcmp_eq p.key k)) [
    | inl e ↦ record {
      before = [];
      pair = p;
      behind = c;
      split = refl;
      place = ground (arith, e);
      same = e;
      value = ground (arith, e);
    }
    | inr e ↦
        let f = position-some k (i + 1) c j v (rw e at h) in
        record {
          before = p ∷ f.before;
          pair = f.pair;
          behind = f.behind;
          split = ap (λ l. p ∷ l) f.split;
          place = omega (arith, f.place);
          same = f.same;
          value = rw e f.value;
        }
  ]

module _ {ℓ} {V : Type ℓ} (n : ℕ) (k q : List ℕ) (lk : length k ≡ n) (lq : length q ≡ n) where
  find_middle :
      (a : List (Pair V)) (p : Pair V) (b : List (Pair V))
      → IsUniform n (a ++ p ∷ b)
      → memcmp_eq p.key k ≡ true
      → count q (a ++ p ∷ b) ≤ 1
      → (find q (a ++ b) ≡ (if memcmp_eq k q then none else find q (a ++ p ∷ b)))
        × (count q (a ++ b) ≤ count q (a ++ p ∷ b))
        × IsUniform n (a ++ b)
        × (bit (memcmp_eq k q) ≤ count q (a ++ p ∷ b))
  unfolding find count
  find_middle [] p b u h once =
      let same = congr_right p.key k q (u.0 ∙ sym lk) h in
      let none_left = find-eq-none q b in
      elim (Bool-cases (memcmp_eq k q)) [
        | inl e ↦ (
          rw e (find-eq-none q b (omega (arith, ap bit (same ∙ e)))),
          omega arith,
          u.1,
          omega (arith, ap bit same),
        )
        | inr e ↦ (rw (e, same ∙ e), omega arith, u.1, omega (arith, ap bit same))
      ]
  find_middle (x ∷ a) p b u h once =
      let (f, c, u', m) = find_middle a p b u.1 h (omega arith) in
      elim (Bool-cases (memcmp_eq x.key q)) [
        | inl e ↦
            let other : memcmp_eq k q ≡ false = ground (arith, m, once, e) in
            (rw (e, other), omega arith, (u.0, u'), omega arith)
        | inr e ↦ (rw e f, omega arith, (u.0, u'), omega arith)
      ]

  remove_from_chain-none :
      (c : List (Pair V)) → position k 0 c ≡ none → remove_from_chain c k ≡ (c, [])
  unfolding remove_from_chain
  remove_from_chain-none c e = rw (e, remove_from_chain)

  remove_from_chain-some :
      (a : List (Pair V)) (p : Pair V) (b : List (Pair V)) (v : V)
      → position k 0 (a ++ p ∷ b) ≡ some (length a, v)
      → remove_from_chain (a ++ p ∷ b) k ≡ (a ++ b, v ∷ [])
  unfolding remove_from_chain
  remove_from_chain-some a p b v e = rw (e, remove_from_chain, pop_ll-append a p b)

  -- The lookup of q after a removal of k, with each key still there at most once, and the value that
  -- is freed.
  abbrev Removed : List (Pair V) → Type ℓ
  Removed c =
      (find q (remove_from_chain c k).0 ≡ (if memcmp_eq k q then none else find q c))
      × (count q (remove_from_chain c k).0 ≤ 1)
      × IsUniform n (remove_from_chain c k).0
      × ((remove_from_chain c k).1 ≡ elim (find k c) [ none ↦ [] | some v ↦ v ∷ [] ])

  Removed-found :
      (a : List (Pair V)) (p : Pair V) (b : List (Pair V)) (v : V)
      → position k 0 (a ++ p ∷ b) ≡ some (length a, v)
      → memcmp_eq p.key k ≡ true
      → find k (a ++ p ∷ b) ≡ some v
      → IsUniform n (a ++ p ∷ b)
      → count q (a ++ p ∷ b) ≤ 1
      → Removed (a ++ p ∷ b)
  Removed-found a p b v e same f u once =
      let m = find_middle a p b u same once in
      rw (remove_from_chain-some a p b v e) (m.0, omega (arith, m.1), m.2, rw f)

  pub find-remove_from_chain : (c : List (Pair V)) → IsUniform n c → count q c ≤ 1 → Removed c
  find-remove_from_chain c u once = elim (Option-cases (position k 0 c)) [
    | inl e ↦
        let gone = position-none k 0 c e in
        rw (remove_from_chain-none c e) (
          elim (Bool-cases (memcmp_eq k q)) [
            | inl h ↦ rw h (rw (memcmp_eq-eq k q (lk ∙ sym lq) h) at gone)
            | inr h ↦ rw h
          ],
          once,
          u,
          rw gone,
        )
    | inr ((j, v), e) ↦
        let f = position-some k 0 c j v e in
        let at_place : position k 0 c ≡ some (length f.before, v) =
          e ∙ ap (λ (i : ℕ). some (i, v)) (omega (arith, f.place)) in
        subst
          (λ d.
            position k 0 d ≡ some (length f.before, v)
            → find k d ≡ some v
            → IsUniform n d
            → count q d ≤ 1
            → Removed d)
          (sym f.split) (λ e' f' u' o'. Removed-found f.before f.pair f.behind v e' f.same f' u' o')
          at_place f.value u once
  ]
