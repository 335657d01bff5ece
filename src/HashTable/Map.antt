-- ===== src/HashTable/Map.antt =====
-- The table as a map. The keys are those of one table of the program: blocks of one length, each
-- crafted from a value of some type.
use iiw_udp_gbn.Base.{
  ℕ, ◌≤◌, ◌≡◌, ap, sym, ◌∙◌, true, List, [], ◌∷◌, Option, none, some, ◌==◌, ==_iff, arith, length,
  if◌then◌else◌, update, Bool-cases, inl, inr,
}
use iiw_udp_gbn.HashTable.{
  Pair, HashTable, new_hash_table, hash, memcmp_eq, find, add_to_chain, remove_from_chain,
  get_value_from_hash_table, add_to_hash_table, remove_from_hash_table,
}
use iiw_udp_gbn.HashTable.Removal.{find-remove_from_chain}
use iiw_udp_gbn.HashTable.Chain.{
  IsUniform, count, find-add_to_chain, freed-add_to_chain, memcmp_eq-eq,
}

module _ {K : Type 0} (n : ℕ) (key_of : K → List ℕ) (sized : (k : K) → length (key_of k) ≡ n) where
  same_hash : (k q : K) → memcmp_eq (key_of k) (key_of q) ≡ true → hash (key_of k) ≡ hash (key_of q)
  same_hash k q h = ap hash (memcmp_eq-eq (key_of k) (key_of q) (sized k ∙ sym (sized q)) h)

  module _ {ℓ} {V : Type ℓ} where
    -- Every stored key has the length, and none is stored twice.
    pub record IsTable (t : HashTable V) : Type ℓ where
      pub uniform : (i : ℕ) → IsUniform n (t i)
      pub once : (q : K) (i : ℕ) → count (key_of q) (t i) ≤ 1

    pub new_hash_table-IsTable : IsTable (new_hash_table {V = V})
    unfolding count
    new_hash_table-IsTable = record { uniform = λ i. tt; once = λ q i. omega arith }

    unfoldable pub view : HashTable V → K → Option V
    view t k = get_value_from_hash_table t (key_of k)

    -- What an operation at the key k left behind: `v` is what a lookup of k finds now.
    pub record Changed (t : HashTable V) (k : K) (v : Option V) (t' : HashTable V) : Type ℓ where
      pub valid : IsTable t'
      pub reads : (q : K) → view t' q ≡ (if memcmp_eq (key_of k) (key_of q) then v else view t q)

    -- A bucket was replaced by a chain with the new content.
    update-Changed :
        (t : HashTable V) (k : K) (v : Option V) (c : List (Pair V))
        → IsTable t
        → IsUniform n c
        → ((q : K) → count (key_of q) c ≤ 1)
        → ((q : K)
            → find (key_of q) c ≡ (
                if memcmp_eq (key_of k) (key_of q)
                then v
                else find (key_of q) (t (hash (key_of k)))))
        → Changed t k v (update t (hash (key_of k)) c)
    unfolding view get_value_from_hash_table
    update-Changed t k v c valid u once reads =
        let h = hash (key_of k) in
        record {
          valid = record {
            uniform =
                λ i. elim (Bool-cases (h == i)) [ inl e ↦ rw e u | inr e ↦ rw e (valid.uniform i) ];
            once = λ q i. elim (Bool-cases (h == i)) [
              | inl e ↦ rw e (once q)
              | inr e ↦ rw e (valid.once q i)
            ];
          };
          reads = λ q. elim (Bool-cases (h == hash (key_of q))) [
            | inl e ↦ rw e (rw ((==_iff _ _).0 e) at reads q)
            | inr e ↦ elim (Bool-cases (memcmp_eq (key_of k) (key_of q))) [
              | inl f ↦ ground (arith, same_hash k q f, e)
              | inr f ↦ rw (e, f)
            ]
          ];
        }

    -- After an insertion the key finds the new value and every other key what it found before; the
    -- value is freed at once exactly if the key was bound before.
    pub add_to_hash_table-Changed :
        (t : HashTable V) (k : K) (v : V)
        → IsTable t
        → Changed t k (some v) (add_to_hash_table t (key_of k) v).0
          × ((add_to_hash_table t (key_of k) v).1 ≡ elim (view t k) [ none ↦ [] | some _ ↦ v ∷ [] ])
    unfolding add_to_hash_table view get_value_from_hash_table
    add_to_hash_table-Changed t k v valid =
        let c = t (hash (key_of k)) in
        let u = valid.uniform (hash (key_of k)) in
        let added = λ (q : K).
          find-add_to_chain n (key_of k) (key_of q) (sized k) (sized q) v c u
            (valid.once q (hash (key_of k))) in
        (
          update-Changed t k (some v) (add_to_chain c (key_of k) v).0 valid (added k).2
              (λ q. (added q).1) (λ q. (added q).0),
          freed-add_to_chain n (key_of k) (key_of k) (sized k) (sized k) v c,
        )

    -- After a removal the key finds nothing and every other key what it found before; the value that
    -- the key found, and no other, is freed.
    pub remove_from_hash_table-Changed :
        (t : HashTable V) (k : K)
        → IsTable t
        → Changed t k none (remove_from_hash_table t (key_of k)).0
          × ((remove_from_hash_table t (key_of k)).1
              ≡ elim (view t k) [ none ↦ [] | some v ↦ v ∷ [] ])
    unfolding remove_from_hash_table view get_value_from_hash_table
    remove_from_hash_table-Changed t k valid =
        let c = t (hash (key_of k)) in
        let u = valid.uniform (hash (key_of k)) in
        let removed = λ (q : K).
          find-remove_from_chain n (key_of k) (key_of q) (sized k) (sized q) c u
            (valid.once q (hash (key_of k))) in
        (
          update-Changed t k none (remove_from_chain c (key_of k)).0 valid (removed k).2
              (λ q. (removed q).1) (λ q. (removed q).0),
          (removed k).3,
        )
