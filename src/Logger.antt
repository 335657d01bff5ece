-- ===== src/Logger.antt =====
-- logic/logger/logger.c and logger.h. A text is the list of its bytes before the zero. What the C library's
-- vsnprintf makes of a format and its arguments (before it cuts the text to the block), and what its fprintf
-- prints, are parameters; `none` of fprintf is undefined behaviour.
pub mod Laws
mod Tests
use iiw_udp_gbn.Base.{
  ℕ, ◌-◌, List, [], ◌∷◌, ◌++◌, Option, none, some, if◌then◌else◌, leb, take, length,
}

pub data Tag : Type 0 where
  tag_i tag_e tag_w tag_d : Tag

abbrev pub tag_code : Tag → ℕ
tag_code tag_i = 0
tag_code tag_e = 1
tag_code tag_w = 2
tag_code tag_d = 3

abbrev pub msg_max_len : ℕ
msg_max_len = 1024

abbrev pub log_level : ℕ
log_level = 3

-- the letters I, E, W and D
unfoldable pub get_string_from_tag : Tag → List ℕ
get_string_from_tag tag_i = 73 ∷ []
get_string_from_tag tag_e = 69 ∷ []
get_string_from_tag tag_w = 87 ∷ []
get_string_from_tag tag_d = 68 ∷ []

-- snprintf and vsnprintf write at most `n - 1` bytes and a zero.
abbrev pub cut : ℕ → List ℕ → List ℕ
cut n text = take (n - 1) text

module _ {Args : Type 0} (vsnprintf : List ℕ → Args → List ℕ)
    (fprintf : List ℕ → List (List ℕ) → Option (List ℕ)) where
  -- What is printed; a null pointer for the format is `none`.
  unfoldable pub log_msg : Tag → Option (List ℕ) → Args → Option (List ℕ)
  log_msg tag none args = some []
  log_msg tag (some format) args =
      let first_half = cut msg_max_len (91 ∷ (get_string_from_tag tag ++ 93 ∷ 32 ∷ [])) in
      let rest = cut (msg_max_len - length first_half) (vsnprintf format args) in
      if leb (tag_code tag) log_level
      then fprintf (first_half ++ rest) (get_string_from_tag tag ∷ format ∷ [])
      else some []
