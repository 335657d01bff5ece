-- ===== src/Client/Commands.antt =====
-- getCommandByName, parseCommandName and main: what the command line means.
use iiw_udp_gbn.Base.{
  ℕ, ◌≡◌, ◌↔◌, refl, ap, sym, ◌∙◌, true, List, [], ◌∷◌, Option, some, none, arith, if◌then◌else◌,
  ◌==◌, Bool-cases, inl, inr, some_eq,
}
use iiw_udp_gbn.Base.Int.{pos, ltb_ℤ}
use iiw_udp_gbn.Client.{Files, do_command}
use iiw_udp_gbn.HashTable.{
  HashTable, Pair, new_hash_table, add_to_hash_table, add_to_chain, get_value_from_hash_table, hash,
  find, memcmp_eq,
}
use iiw_udp_gbn.Protocol.{DmProtocolCommand, unspecified, put, get, list, hs}
use iiw_udp_gbn.Session.{M, ◌>>=◌, return}

abbrev pub put_name : List ℕ
put_name = 112 ∷ 117 ∷ 116 ∷ []

abbrev pub get_name : List ℕ
get_name = 103 ∷ 101 ∷ 116 ∷ []

abbrev pub list_name : List ℕ
list_name = 108 ∷ 105 ∷ 115 ∷ 116 ∷ []

-- The static table, as the first call fills it.
unfoldable pub supported_command_names : HashTable DmProtocolCommand
supported_command_names =
    let t₁ = (add_to_hash_table new_hash_table put_name put).0 in
    let t₂ = (add_to_hash_table t₁ get_name get).0 in (add_to_hash_table t₂ list_name list).0

unfoldable pub get_command_by_name : List ℕ → Option DmProtocolCommand
get_command_by_name name = get_value_from_hash_table supported_command_names name

-- The arguments with the program's name first; `none` is -1.
unfoldable pub parse_command_name : List (List ℕ) → Option DmProtocolCommand
parse_command_name (_ ∷ name ∷ _) = get_command_by_name name
parse_command_name _ = none

-- toInvokeArgs[0], which is a null pointer behind the last argument
abbrev pub first_argument : List (List ℕ) → Option (List ℕ)
first_argument (_ ∷ _ ∷ arg ∷ _) = some arg
first_argument _ = none

-- The exit status of the process.
unfoldable pub main : List (List ℕ) → Files → M ℕ
main argv files = elim (parse_command_name argv) [
  | none ↦ return 1
  | some command ↦
      (do_command command (first_argument argv) files >>= λ outcome.
      return (if ltb_ℤ outcome.code (pos 0) then 1 else 0))
]

-- The name that the table has for a command.
abbrev pub name_of : DmProtocolCommand → Option (List ℕ)
name_of put = some put_name
name_of get = some get_name
name_of list = some list_name
name_of _ = none

-- A name that a stored key answers for, and that has its hash, is that key.
match-put : (name : List ℕ) → memcmp_eq put_name name ≡ true → hash name ≡ 18 → name ≡ put_name
unfolding memcmp_eq hash
match-put [] h e = ground arith
match-put (a ∷ []) h e = ground arith
match-put (a ∷ b ∷ []) h e = ground arith
match-put (a ∷ b ∷ c ∷ []) h e = ground arith
match-put (a ∷ b ∷ c ∷ d ∷ r) h e = ground arith

match-get : (name : List ℕ) → memcmp_eq get_name name ≡ true → hash name ≡ 87 → name ≡ get_name
unfolding memcmp_eq hash
match-get [] h e = ground arith
match-get (a ∷ []) h e = ground arith
match-get (a ∷ b ∷ []) h e = ground arith
match-get (a ∷ b ∷ c ∷ []) h e = ground arith
match-get (a ∷ b ∷ c ∷ d ∷ r) h e = ground arith

match-list : (name : List ℕ) → memcmp_eq list_name name ≡ true → hash name ≡ 13 → name ≡ list_name
unfolding memcmp_eq hash
match-list [] h e = ground arith
match-list (a ∷ []) h e = ground arith
match-list (a ∷ b ∷ []) h e = ground arith
match-list (a ∷ b ∷ c ∷ []) h e = ground arith
match-list (a ∷ b ∷ c ∷ d ∷ []) h e = ground arith
match-list (a ∷ b ∷ c ∷ d ∷ x ∷ r) h e = ground arith

-- The buckets that the three names fill.
bucket : ℕ → List (Pair DmProtocolCommand)
bucket i =
    if 13 == i
    then record { key = list_name; value = list } ∷ []
    else if 87 == i
    then record { key = get_name; value = get } ∷ []
    else if 18 == i
    then record { key = put_name; value = put } ∷ []
    else []

table-bucket : (i : ℕ) → supported_command_names i ≡ bucket i
unfolding supported_command_names add_to_hash_table add_to_chain hash bucket
table-bucket i = refl

-- What a bucket with one pair finds.
find-one :
    (name key : List ℕ) (v c : DmProtocolCommand)
    → (memcmp_eq key name ≡ true → name ≡ key)
    → name_of v ≡ some key
    → find name (record { key = key; value = v } ∷ []) ≡ some c
    → name_of c ≡ some name
unfolding find
find-one name key v c only named h = elim (Bool-cases (memcmp_eq key name)) [
  | inl e ↦ rw (only e) (ap name_of (sym (some_eq (rw e at h))) ∙ named)
  | inr e ↦ ground (arith, rw e at h)
]

found_in :
    (name : List ℕ) (c : DmProtocolCommand) (i : ℕ)
    → hash name ≡ i
    → find name (bucket i) ≡ some c
    → name_of c ≡ some name
unfolding bucket find
found_in name c i e h = elim (Bool-cases (13 == i)) [
  | inl a ↦ find-one name list_name list c (λ m. match-list name m (ground arith)) refl (rw a at h)
  | inr a ↦ elim (Bool-cases (87 == i)) [
    | inl b ↦
        find-one name get_name get c (λ m. match-get name m (ground arith)) refl (rw (a, b) at h)
    | inr b ↦ elim (Bool-cases (18 == i)) [
      | inl d ↦
          find-one name put_name put c (λ m. match-put name m (ground arith)) refl
            (rw (a, b, d) at h)
      | inr d ↦ ground (arith, rw (a, b, d) at h)
    ]
  ]
]

get_command_by_name-put : get_command_by_name put_name ≡ some put
unfolding get_command_by_name get_value_from_hash_table supported_command_names add_to_hash_table
    add_to_chain hash find memcmp_eq
get_command_by_name-put = refl

get_command_by_name-get : get_command_by_name get_name ≡ some get
unfolding get_command_by_name get_value_from_hash_table supported_command_names add_to_hash_table
    add_to_chain hash find memcmp_eq
get_command_by_name-get = refl

get_command_by_name-list : get_command_by_name list_name ≡ some list
unfolding get_command_by_name get_value_from_hash_table supported_command_names add_to_hash_table
    add_to_chain hash find memcmp_eq
get_command_by_name-list = refl

found_by :
    (name : List ℕ) (c : DmProtocolCommand)
    → name_of c ≡ some name
    → get_command_by_name name ≡ some c
found_by name put h = rw (sym (some_eq h)) get_command_by_name-put
found_by name get h = rw (sym (some_eq h)) get_command_by_name-get
found_by name list h = rw (sym (some_eq h)) get_command_by_name-list
found_by name unspecified h = ground arith
found_by name hs h = ground arith

-- The program knows the command names put, get and list, in lower case, and no other: a lookup of a name in the
-- table of commands finds a command exactly where the name is that command's.
pub get_command_by_name_lem :
    (name : List ℕ) (c : DmProtocolCommand)
    → (get_command_by_name name ≡ some c) ↔ (name_of c ≡ some name)
unfolding get_command_by_name get_value_from_hash_table find
get_command_by_name_lem name c = (
  λ h. found_in name c (hash name) refl (rw (table-bucket (hash name)) at h),
  λ h. found_by name c h,
)
