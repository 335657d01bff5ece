-- ===== src/Server/Listing.antt =====
-- doList of the server: the text of the names in the directory.
pub mod Text
use iiw_udp_gbn.Base.{
  ℕ, ◌+◌, ◌*◌, Bool, List, [], ◌∷◌, ◌++◌, Option, none, some, ◌>>=◌, length, ltb, ◌==◌,
  if◌then◌else◌, true, false,
}

-- What readdir returns; `later` is what the pointer to the name reads once the directory is closed, which
-- has released its buffer: the name still, other text, or a fault. An unopened directory has no entries.
pub record Entry : Type 0 where
  pub is_regular : Bool
  pub name : List ℕ
  pub later : Option (List ℕ)

abbrev pub max_filename_lentgh : ℕ
max_filename_lentgh = 256

-- strcmp is 0.
unfoldable pub strcmp_eq : List ℕ → List ℕ → Bool
strcmp_eq [] [] = true
strcmp_eq (a ∷ s) (b ∷ t) = if a == b then strcmp_eq s t else false
strcmp_eq _ _ = false

-- The loop over readdir: the regular files. A name that is too long has strlen read an array of 15
-- characters that no zero ends, a fault.
unfoldable pub read_entries : List Entry → Option (List Entry)
read_entries [] = some []
read_entries (e ∷ es) =
    let rest = read_entries es in
    let kept =
      if ltb max_filename_lentgh (length e.name)
      then none
      else (rest >>= λ files. some (e ∷ files)) in
    if e.is_regular then kept else rest

unfoldable pub strings_len : List Entry → ℕ
strings_len [] = 0
strings_len (e ∷ files) = length e.name + strings_len files

-- The loop of strcat into a block of `dim` bytes, whose last is a zero.
unfoldable pub strcat_loop : List ℕ → List ℕ → ℕ → List ℕ → List Entry → Option (List ℕ)
strcat_loop program_name separator dim text [] = some text
strcat_loop program_name separator dim text (e ∷ files) =
    let skip = strcat_loop program_name separator dim text files in
    e.later >>= λ value.
    let text' = text ++ value ++ separator in
    let rest = strcat_loop program_name separator dim text' files in
    if strcmp_eq value program_name then skip else if ltb (length text') dim then rest else none

-- The payload; without a file it is the separator alone.
abbrev pub join : List ℕ → List ℕ → List Entry → Option (List ℕ)
join program_name separator [] = some separator
join program_name separator (e ∷ files) =
    let dim = length (e ∷ files) * length separator + strings_len (e ∷ files) + 1 in
    strcat_loop program_name separator dim [] (e ∷ files)

abbrev pub listing : List ℕ → Option (List ℕ) → List Entry → Option (List ℕ)
listing program_name none entries = none
listing program_name (some separator) entries =
    read_entries entries >>= λ files. join program_name separator files
