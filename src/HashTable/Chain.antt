-- ===== src/HashTable/Chain.antt =====
-- One collision list: what lookup, insertion and removal do to each other.
use iiw_udp_gbn.Base.{
  ℕ, ◌+◌, ◌≤◌, ◌≡◌, refl, ap, sym, ◌∙◌, Bool, true, List, [], ◌∷◌, ◌++◌, none, some, arith, length,
  if◌then◌else◌, All, All-append, Bool-cases, ◌≢◌, Option-cases, inl, inr,
}
use iiw_udp_gbn.LinkedList.Laws.{append_ll-append}
use iiw_udp_gbn.HashTable.{Pair, memcmp_eq, find, reassign, add_to_chain}

pub memcmp_eq_refl : (a : List ℕ) → memcmp_eq a a ≡ true
unfolding memcmp_eq
memcmp_eq_refl [] = refl
memcmp_eq_refl (x ∷ a) = ground (arith, memcmp_eq_refl a)

-- Between keys of one length memcmp decides equality.
pub memcmp_eq-eq : (a b : List ℕ) → length a ≡ length b → memcmp_eq a b ≡ true → a ≡ b
unfolding memcmp_eq
memcmp_eq-eq [] [] l h = refl
memcmp_eq-eq [] (y ∷ b) l h = absurd (omega arith)
memcmp_eq-eq (x ∷ a) [] l h = absurd (omega arith)
memcmp_eq-eq (x ∷ a) (y ∷ b) l h = ground (arith, memcmp_eq-eq a b)

congr_left :
    (a k q : List ℕ) → length k ≡ length q → memcmp_eq k q ≡ true → memcmp_eq a k ≡ memcmp_eq a q
congr_left a k q l h = ap (memcmp_eq a) (memcmp_eq-eq k q l h)

pub congr_right :
    (a k q : List ℕ) → length a ≡ length k → memcmp_eq a k ≡ true → memcmp_eq a q ≡ memcmp_eq k q
congr_right a k q l h = ap (λ s. memcmp_eq s q) (memcmp_eq-eq a k l h)

abbrev pub bit : Bool → ℕ
bit b = if b then 1 else 0

module _ {ℓ} {V : Type ℓ} where
  -- All keys have length n.
  abbrev pub IsUniform : ℕ → List (Pair V) → Type 0
  IsUniform n c = All (λ p. length p.key ≡ n) c

  unfoldable pub count : List ℕ → List (Pair V) → ℕ
  count q [] = 0
  count q (p ∷ c) = (if memcmp_eq p.key q then 1 else 0) + count q c

  pub find-eq-none : (q : List ℕ) (c : List (Pair V)) → count q c ≡ 0 → find q c ≡ none
  unfolding count find
  find-eq-none q [] h = refl
  find-eq-none q (p ∷ c) h = ground (arith, find-eq-none q c)

  pub count-eq-zero : (q : List ℕ) (c : List (Pair V)) → find q c ≡ none → count q c ≡ 0
  unfolding count find
  count-eq-zero q [] h = refl
  count-eq-zero q (p ∷ c) h = ground (arith, count-eq-zero q c)

  find-append_one :
      (q : List ℕ) (c : List (Pair V)) (p : Pair V)
      → find q (c ++ p ∷ []) ≡ elim (find q c) [
        | some v ↦ some v
        | none ↦ if memcmp_eq p.key q then some p.value else none
      ]
  unfolding find
  find-append_one q [] p = ground arith
  find-append_one q (x ∷ c) p = ground (arith, find-append_one q c p)

  count-append_one :
      (q : List ℕ) (c : List (Pair V)) (p : Pair V)
      → count q (c ++ p ∷ []) ≡ count q c + (if memcmp_eq p.key q then 1 else 0)
  unfolding count
  count-append_one q [] p = omega arith
  count-append_one q (x ∷ c) p = omega (arith, count-append_one q c p)

  reassign-none : (k : List ℕ) (v : V) (c : List (Pair V)) → reassign k v c ≡ none → find k c ≡ none
  unfolding reassign find
  reassign-none k v [] h = refl
  reassign-none k v (p ∷ c) h = ground (arith, reassign-none k v c)

  reassign_bound :
      (k : List ℕ) (v : V) (c : List (Pair V)) {d : List (Pair V)}
      → reassign k v c ≡ some d
      → find k c ≢ none
  unfolding reassign find
  reassign_bound k v [] h = cc
  reassign_bound k v (p ∷ c) h = elim (Option-cases (reassign k v c)) [
    | inl e ↦ ground (arith, e)
    | inr (r, e) ↦ ground (arith, e, reassign_bound k v c e)
  ]

module _ {ℓ} {V : Type ℓ} (n : ℕ) (k q : List ℕ) (lk : length k ≡ n) (lq : length q ≡ n) where
  -- What a chain is after a pair's value was replaced.
  reassign-some :
      (v : V) (c : List (Pair V)) (d : List (Pair V))
      → IsUniform n c
      → reassign k v c ≡ some d
      → (find q d ≡ (if memcmp_eq k q then some v else find q c))
        × (count q d ≡ count q c)
        × IsUniform n d
  unfolding reassign find count
  reassign-some v [] d u h = cc
  reassign-some v (p ∷ c) d u h = elim (Bool-cases (memcmp_eq p.key k)) [
    | inl e ↦
        let same = congr_right p.key k q (u.0 ∙ sym lk) e in
        (ground (arith, same), ground (arith, same), ground arith)
    | inr e ↦ elim (Option-cases (reassign k v c)) [
      | inl f ↦ ground (arith, f)
      | inr (r, f) ↦
          let ih = reassign-some v c r u.1 f in
          let other = congr_left p.key k q (lk ∙ sym lq) in
          (ground (arith, f, ih, other), ground (arith, f, ih), ground (arith, f, ih))
    ]
  ]

  add_to_chain-append :
      (v : V) (c : List (Pair V))
      → reassign k v c ≡ none
      → add_to_chain c k v ≡ (c ++ record { key = k; value = v } ∷ [], [])
  unfolding add_to_chain
  add_to_chain-append v [] e = refl
  add_to_chain-append v (p ∷ c) e = rw (e, add_to_chain, append_ll-append)

  add_to_chain-reassign :
      (v : V) (c d : List (Pair V)) → reassign k v c ≡ some d → add_to_chain c k v ≡ (d, v ∷ [])
  unfolding add_to_chain reassign
  add_to_chain-reassign v [] d e = cc
  add_to_chain-reassign v (p ∷ c) d e = rw (e, add_to_chain)

  -- The lookup of any key after an insertion, with each key still there at most once.
  pub find-add_to_chain :
      (v : V) (c : List (Pair V))
      → IsUniform n c
      → count q c ≤ 1
      → (find q (add_to_chain c k v).0 ≡ (if memcmp_eq k q then some v else find q c))
        × (count q (add_to_chain c k v).0 ≤ 1)
        × IsUniform n (add_to_chain c k v).0
  unfolding memcmp_eq
  find-add_to_chain v c u once = elim (Option-cases (reassign k v c)) [
    | inr (d, e) ↦
        let r = reassign-some v c d u e in
        rw (add_to_chain-reassign v c d e) (r.0, omega (arith, r.1), r.2)
    | inl e ↦
        let p : Pair V = record { key = k; value = v } in
        let gone = reassign-none k v c e in
        let absent : memcmp_eq k q ≡ true → find q c ≡ none =
          λ h. rw (memcmp_eq-eq k q (lk ∙ sym lq) h) at gone in
        rw (add_to_chain-append v c e) (
          elim (Bool-cases (memcmp_eq k q)) [
            | inl h ↦ rw (find-append_one, absent h, h)
            | inr h ↦ elim (Option-cases (find q c)) [
              | inl f ↦ rw (find-append_one, f, h)
              | inr (o, f) ↦ rw (find-append_one, f, h)
            ]
          ],
          elim (Bool-cases (memcmp_eq k q)) [
            | inl h ↦ omega (arith, count-append_one q c p, count-eq-zero q c (absent h), ap bit h)
            | inr h ↦ omega (arith, count-append_one q c p, ap bit h)
          ],
          All-append _ c _ u (lk, tt),
        )
  ]

  -- An insertion under a bound key frees the very value that it stores; any other frees nothing.
  pub freed-add_to_chain :
      (v : V) (c : List (Pair V))
      → (add_to_chain c k v).1 ≡ elim (find k c) [ none ↦ [] | some _ ↦ v ∷ [] ]
  freed-add_to_chain v c = elim (Option-cases (reassign k v c)) [
    | inl e ↦ rw (add_to_chain-append v c e, reassign-none k v c e)
    | inr (d, e) ↦ elim (Option-cases (find k c)) [
      | inl f ↦ absurd (reassign_bound k v c e f)
      | inr (old, f) ↦ rw (add_to_chain-reassign v c d e, f)
    ]
  ]
