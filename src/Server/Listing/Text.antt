-- ===== src/Server/Listing/Text.antt =====
-- The text that doList puts together, where the names are still there when it reads them.
use mathlib.Core.List.{append_assoc, append-nil}
use iiw_udp_gbn.Base.{
  ℕ, ◌+◌, ◌*◌, ◌<◌, ◌≤◌, ◌≡◌, refl, true, false, Bool-cases, inl, inr, List, [], ◌∷◌, ◌++◌, some,
  arith, length, length-append, All, if_yes, if_no, if◌then◌else◌, ltb, lt→ltb,
}
use iiw_udp_gbn.Server.Listing.{
  Entry, max_filename_lentgh, strcmp_eq, read_entries, strings_len, strcat_loop, join, listing,
}

-- The pointer to the name still reads the name, which is not too long.
abbrev pub IsStable : Entry → Type 0
IsStable e = (e.later ≡ some e.name) × (length e.name ≤ max_filename_lentgh)

unfoldable pub regular : List Entry → List Entry
regular [] = []
regular (e ∷ es) = if e.is_regular then e ∷ regular es else regular es

-- Each name but the program's own, with a separator behind it.
unfoldable pub names : List ℕ → List ℕ → List Entry → List ℕ
names program_name separator [] = []
names program_name separator (e ∷ es) =
    let rest = names program_name separator es in
    if strcmp_eq e.name program_name then rest else e.name ++ separator ++ rest

abbrev pub text_of : List ℕ → List ℕ → List Entry → List ℕ
text_of program_name separator [] = separator
text_of program_name separator (e ∷ es) = names program_name separator (e ∷ es)

regular-IsStable : (es : List Entry) → All IsStable es → All IsStable (regular es)
unfolding regular
regular-IsStable [] h = tt
regular-IsStable (e ∷ es) (s, h) = elim (Bool-cases e.is_regular) [
  | inl r ↦ rw r (s, regular-IsStable es h)
  | inr r ↦ rw r (regular-IsStable es h)
]

read_entries-regular : (es : List Entry) → All IsStable es → read_entries es ≡ some (regular es)
unfolding read_entries regular
read_entries-regular [] h = refl
read_entries-regular (e ∷ es) ((_, short), h) =
    let fits : ltb max_filename_lentgh (length e.name) ≡ false = ground arith in
    elim (Bool-cases e.is_regular) [
      | inl r ↦
          rw (if_yes _ _ _ r)
            (rw (if_yes _ _ _ r) (rw (if_no _ _ _ fits) (rw (read_entries-regular es h) refl)))
      | inr r ↦ rw (if_no _ _ _ r) (rw (if_no _ _ _ r) (read_entries-regular es h))
    ]

strcat_loop-names :
    (program_name separator : List ℕ) (dim : ℕ) (text : List ℕ) (files : List Entry)
    → All IsStable files
    → length text + (length files * length separator + strings_len files) < dim
    → strcat_loop program_name separator dim text files
      ≡ some (text ++ names program_name separator files)
unfolding strcat_loop names strings_len
strcat_loop-names program_name separator dim text [] h fits = rw append-nil refl
strcat_loop-names program_name separator dim text (e ∷ files) ((same, _), h) fits =
    let text' = text ++ e.name ++ separator in
    let len : length text' ≡ length text + (length e.name + length separator) =
      rw (length-append, length-append) (omega arith) in
    let room : length text' + (length files * length separator + strings_len files) < dim =
      omega (arith, len, fits) in
    let more : ltb (length text') dim ≡ true = lt→ltb _ _ (omega (arith, room)) in
    rw same (elim (Bool-cases (strcmp_eq e.name program_name)) [
      | inl own ↦ rw (if_yes _ _ _ own) (
          rw (if_yes _ _ _ own)
            (strcat_loop-names program_name separator dim text files h (omega (arith, fits))))
      | inr other ↦ rw (if_no _ _ _ other) (
          rw (if_no _ _ _ other) (
            rw (if_yes _ _ _ more) (
              simp append_assoc (
                simp append_assoc at
                  (strcat_loop-names program_name separator dim text' files h room)))))
    ])

join-text_of :
    (program_name separator : List ℕ) (files : List Entry)
    → All IsStable files
    → join program_name separator files ≡ some (text_of program_name separator files)
join-text_of program_name separator [] h = refl
join-text_of program_name separator (e ∷ files) h =
    strcat_loop-names program_name separator _ [] (e ∷ files) h (omega arith)

pub listing-text_of :
    (program_name separator : List ℕ) (entries : List Entry)
    → All IsStable entries
    → listing program_name (some separator) entries
      ≡ some (text_of program_name separator (regular entries))
listing-text_of program_name separator entries h =
    rw (read_entries-regular entries h)
      (join-text_of program_name separator (regular entries) (regular-IsStable entries h))
