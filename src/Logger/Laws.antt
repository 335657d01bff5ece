-- ===== src/Logger/Laws.antt =====
-- What logMsg prints, by whether the text has a `%`.
use mathlib.Core.List.{append_assoc}
use iiw_udp_gbn.Base.{
  ℕ, zero, suc, ◌≤◌, ◌≡◌, ◌≢◌, refl, ap, sym, ◌∙◌, List, [], ◌∷◌, ◌++◌, Option, none, some, ◌>>=◌,
  arith, All, All-append, take, take_all, length,
}
use iiw_udp_gbn.Logger.{Tag, tag_i, tag_e, tag_w, tag_d, get_string_from_tag, log_msg}

-- No byte is a `%`.
abbrev pub IsPlain : List ℕ → Type 0
IsPlain text = All (λ b. b ≢ 37) text

take-IsPlain : (n : ℕ) (text : List ℕ) → IsPlain text → IsPlain (take n text)
take-IsPlain zero text h = tt
take-IsPlain (suc n) [] h = tt
take-IsPlain (suc n) (b ∷ text) h = (h.0, take-IsPlain n text h.1)

-- The tag in brackets, with a space behind.
abbrev pub heading : Tag → List ℕ
heading tag = 91 ∷ (get_string_from_tag tag ++ 93 ∷ 32 ∷ [])

heading-IsPlain : (tag : Tag) → IsPlain (heading tag)
unfolding get_string_from_tag
heading-IsPlain tag_i = (omega arith, (omega arith, (omega arith, (omega arith, tt))))
heading-IsPlain tag_e = (omega arith, (omega arith, (omega arith, (omega arith, tt))))
heading-IsPlain tag_w = (omega arith, (omega arith, (omega arith, (omega arith, tt))))
heading-IsPlain tag_d = (omega arith, (omega arith, (omega arith, (omega arith, tt))))

module _ {Args : Type 0} (vsnprintf : List ℕ → Args → List ℕ)
    (fprintf : List ℕ → List (List ℕ) → Option (List ℕ)) where
  -- Every tag is printed, and the block holds the heading and 1019 bytes.
  log_msg_lem :
      (tag : Tag) (format : List ℕ) (args : Args)
      → log_msg vsnprintf fprintf tag (some format) args
        ≡ fprintf
            (heading tag ++ take 1019 (vsnprintf format args))
            (get_string_from_tag tag ∷ format ∷ [])
  unfolding log_msg get_string_from_tag
  log_msg_lem tag_i format args = refl
  log_msg_lem tag_e format args = refl
  log_msg_lem tag_w format args = refl
  log_msg_lem tag_d format args = refl

  -- Where fprintf prints a format without a `%` as it stands, a message whose text has none is printed
  -- behind its tag in brackets, cut to 1019 bytes, whatever its tag is.
  pub log_msg-plain :
      (tag : Tag) (format : List ℕ) (args : Args)
      → ((text : List ℕ) (rest : List (List ℕ)) → IsPlain text → fprintf text rest ≡ some text)
      → IsPlain (vsnprintf format args)
      → log_msg vsnprintf fprintf tag (some format) args
        ≡ some (heading tag ++ take 1019 (vsnprintf format args))
  log_msg-plain tag format args prints plain =
      log_msg_lem tag format args
      ∙ prints _ _ (
          All-append (λ b. b ≢ 37) (heading tag) (take 1019 (vsnprintf format args))
            (heading-IsPlain tag) (take-IsPlain 1019 (vsnprintf format args) plain))

  -- Where fprintf prints for a `%s` behind plain bytes its next argument, and without one does what is
  -- undefined, a text of at most 1019 bytes with three times `%s` in it is undefined behaviour of
  -- logMsg, whatever its tag is, though the text was formatted before.
  pub log_msg-directives :
      (tag : Tag) (format : List ℕ) (args : Args) (a b c d : List ℕ)
      → ((text more next : List ℕ) (rest : List (List ℕ))
          → IsPlain text
          → fprintf (text ++ (37 ∷ 115 ∷ more)) (next ∷ rest)
            ≡ (fprintf more rest >>= λ out. some (text ++ (next ++ out))))
      → ((text more : List ℕ) → IsPlain text → fprintf (text ++ (37 ∷ 115 ∷ more)) [] ≡ none)
      → IsPlain a
      → IsPlain b
      → IsPlain c
      → vsnprintf format args ≡ a ++ (37 ∷ 115 ∷ (b ++ (37 ∷ 115 ∷ (c ++ (37 ∷ 115 ∷ d)))))
      → length (vsnprintf format args) ≤ 1019
      → log_msg vsnprintf fprintf tag (some format) args ≡ none
  log_msg-directives tag format args a b c d takes lacks plain_a plain_b plain_c text short =
      let first = get_string_from_tag tag in
      let third = c ++ (37 ∷ 115 ∷ d) in
      let second = b ++ (37 ∷ 115 ∷ third) in
      log_msg_lem tag format args
      ∙ ap (λ t. fprintf (heading tag ++ t) (first ∷ format ∷ []))
          (take_all 1019 (vsnprintf format args) short ∙ text)
      ∙ ap (λ t. fprintf t (first ∷ format ∷ []))
          (sym (append_assoc (heading tag) a (37 ∷ 115 ∷ second)))
      ∙ takes (heading tag ++ a) second first (format ∷ [])
          (All-append (λ x. x ≢ 37) (heading tag) a (heading-IsPlain tag) plain_a)
      ∙ ap (λ o. o >>= λ out. some ((heading tag ++ a) ++ (first ++ out)))
          (takes b third format [] plain_b
            ∙ ap (λ o. o >>= λ out. some (b ++ (format ++ out))) (lacks c d plain_c))
