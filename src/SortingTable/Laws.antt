-- ===== src/SortingTable/Laws.antt =====
-- The sorting table as a map from message ids to entries.
use iiw_udp_gbn.Base.{
  ℕ, ◌≡◌, refl, ap, sym, ◌∙◌, List, [], ◌∷◌, ◌++◌, Option, none, some, arith, length, if◌then◌else◌,
  Bool-cases, inl, inr,
}
use iiw_udp_gbn.Base.Int.{ℤ, IsInt, eqb_ℤ, eqb_ℤ_iff}
use iiw_udp_gbn.HashTable.{memcmp_eq}
use iiw_udp_gbn.HashTable.Chain.{memcmp_eq-eq, memcmp_eq_refl}
use iiw_udp_gbn.HashTable.Map.{
  IsTable, view, new_hash_table-IsTable, add_to_hash_table-Changed, remove_from_hash_table-Changed,
}
use iiw_udp_gbn.SortingTable.{
  SortingTable, SortingEntry, new_sorting_table, add_to_sorting_table, get_from_sorting_table,
  remove_from_sorting_table,
}
use iiw_udp_gbn.Wire.{store_int, load_int, load_int-store_int}

pub length-store_int : (x : ℤ) → length (store_int x) ≡ 4
unfolding store_int
length-store_int x = refl

-- Every key is the four bytes of an id, and no id has two pairs.
abbrev pub IsSortingTable : SortingTable → Type 0
IsSortingTable t = IsTable 4 store_int length-store_int t

store_int-injective : (a b : ℤ) → IsInt a → IsInt b → store_int a ≡ store_int b → a ≡ b
store_int-injective a b ha hb e =
    ap first (
      sym (load_int-store_int a [] ha)
      ∙ ap (λ s. load_int (s ++ [])) e
      ∙ load_int-store_int b [] hb)
  where
    first : Option (ℤ × List ℕ) → ℤ
    first none = a
    first (some p) = p.0

-- Comparing the keys of two ids compares the ids.
memcmp_eq-store_int :
    (a b : ℤ) → IsInt a → IsInt b → memcmp_eq (store_int a) (store_int b) ≡ eqb_ℤ a b
memcmp_eq-store_int a b ha hb = elim (Bool-cases (eqb_ℤ a b)) [
  | inl e ↦ rw e (rw ((eqb_ℤ_iff a b).0 e) (memcmp_eq_refl (store_int b)))
  | inr e ↦ elim (Bool-cases (memcmp_eq (store_int a) (store_int b))) [
    | inr f ↦ f ∙ sym e
    | inl f ↦
        let same : a ≡ b = store_int-injective a b ha hb (
          memcmp_eq-eq (store_int a) (store_int b) (length-store_int a ∙ sym (length-store_int b))
            f) in
        absurd (ground (arith, (eqb_ℤ_iff a b).1 same))
  ]
]

pub new_sorting_table-IsSortingTable : IsSortingTable new_sorting_table
new_sorting_table-IsSortingTable = new_hash_table-IsTable 4 store_int length-store_int

-- After addToSortingTable the id finds the new entry and every other id what it found before; the
-- table stays well formed.
pub get-add_to_sorting_table :
    (t : SortingTable) (id q : ℤ) (entry : SortingEntry)
    → IsSortingTable t
    → IsInt id
    → IsInt q
    → IsSortingTable (add_to_sorting_table t id entry).0
      × (get_from_sorting_table (add_to_sorting_table t id entry).0 q
          ≡ (if eqb_ℤ id q then some entry else get_from_sorting_table t q))
unfolding add_to_sorting_table get_from_sorting_table view
get-add_to_sorting_table t id q entry valid hi hq =
    let c = (add_to_hash_table-Changed 4 store_int length-store_int t id entry valid).0 in
    (c.valid, rw (memcmp_eq-store_int id q hi hq) at (c.reads q))

pub remove_from_sorting_table-IsSortingTable :
    (t : SortingTable) (id : ℤ)
    → IsSortingTable t
    → IsSortingTable (remove_from_sorting_table t id).0
unfolding remove_from_sorting_table
remove_from_sorting_table-IsSortingTable t id valid =
    (remove_from_hash_table-Changed 4 store_int length-store_int t id valid).0.valid

-- After removeFromSortingTable the id finds nothing and every other id what it found before; the entry
-- that the id found is freed, and no other.
pub get-remove_from_sorting_table :
    (t : SortingTable) (id q : ℤ)
    → IsSortingTable t
    → IsInt id
    → IsInt q
    → let (t', freed) = remove_from_sorting_table t id in
      IsSortingTable t'
      × (get_from_sorting_table t' q ≡ (if eqb_ℤ id q then none else get_from_sorting_table t q))
      × (freed ≡ elim (get_from_sorting_table t id) [ none ↦ [] | some e ↦ e ∷ [] ])
unfolding remove_from_sorting_table get_from_sorting_table view
get-remove_from_sorting_table t id q valid hi hq =
    let r = remove_from_hash_table-Changed 4 store_int length-store_int t id valid in
    (r.0.valid, rw (memcmp_eq-store_int id q hi hq) at (r.0.reads q), r.1)

-- Adding under an id that has an entry leaves the table pointing at a block that the same call has
-- freed: the new entry is what the id finds, and it is what was freed.
pub add_to_sorting_table_dangles :
    (t : SortingTable) (id : ℤ) (old entry : SortingEntry)
    → IsSortingTable t
    → IsInt id
    → get_from_sorting_table t id ≡ some old
    → let (t', freed) = add_to_sorting_table t id entry in
      (get_from_sorting_table t' id ≡ some entry) × (freed ≡ entry ∷ [])
unfolding add_to_sorting_table get_from_sorting_table view
add_to_sorting_table_dangles t id old entry valid hi bound =
    let r = add_to_hash_table-Changed 4 store_int length-store_int t id entry valid in
    (rw (memcmp_eq_refl (store_int id)) at (r.0.reads id), rw bound at (r.1))
