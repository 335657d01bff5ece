-- ===== src/Logger/Tests.antt =====
-- A file name with a `%`, as the server logs it, and one without.
use iiw_udp_gbn.Base.{
  ℕ, ◌≡◌, refl, ap, ◌∙◌, Bool, true, false, List, [], ◌∷◌, ◌++◌, Option, none, some, ◌>>=◌, arith,
  if◌then◌else◌, ◌==◌,
}
use iiw_udp_gbn.Logger.{tag_d, log_msg}
use iiw_udp_gbn.Logger.Laws.{IsPlain, heading, log_msg-plain, log_msg-directives}

-- A C library that knows `%s` alone: the flag says that the byte before was a `%`.
printf : Bool → List ℕ → List (List ℕ) → Option (List ℕ)
printf true [] rest = none
printf true (b ∷ text) [] = none
printf true (b ∷ text) (next ∷ rest) =
    let out = printf false text rest >>= λ out. some (next ++ out) in if b == 115 then out else none
printf false [] rest = some []
printf false (b ∷ text) rest =
    let directive = printf true text rest in
    let plain = printf false text rest >>= λ out. some (b ∷ out) in
    if b == 37 then directive else plain

printf-plain :
    (text : List ℕ) (rest : List (List ℕ)) → IsPlain text → printf false text rest ≡ some text
unfolding printf
printf-plain [] rest h = refl
printf-plain (b ∷ text) rest h =
    let other : (b == 37) ≡ false = ground (arith, h.0) in
    rw other (ap (λ o. o >>= λ out. some (b ∷ out)) (printf-plain text rest h.1))

map-map :
    (f g : List ℕ → List ℕ) (o : Option (List ℕ))
    → ((o >>= λ out. some (f out)) >>= λ out. some (g out)) ≡ (o >>= λ out. some (g (f out)))
map-map f g none = refl
map-map f g (some out) = refl

printf-takes :
    (text more next : List ℕ) (rest : List (List ℕ))
    → IsPlain text
    → printf false (text ++ (37 ∷ 115 ∷ more)) (next ∷ rest)
      ≡ (printf false more rest >>= λ out. some (text ++ (next ++ out)))
unfolding printf
printf-takes [] more next rest h = refl
printf-takes (b ∷ text) more next rest h =
    let other : (b == 37) ≡ false = ground (arith, h.0) in
    rw other (
      ap (λ o. o >>= λ out. some (b ∷ out)) (printf-takes text more next rest h.1)
      ∙ map-map (λ out. text ++ (next ++ out)) (λ out. b ∷ out) (printf false more rest))

printf-lacks :
    (text more : List ℕ) → IsPlain text → printf false (text ++ (37 ∷ 115 ∷ more)) [] ≡ none
unfolding printf
printf-lacks [] more h = refl
printf-lacks (b ∷ text) more h =
    let other : (b == 37) ≡ false = ground (arith, h.0) in
    rw other (ap (λ o. o >>= λ out. some (b ∷ out)) (printf-lacks text more h.1))

-- vsnprintf for a format that is `%s` alone
abbrev as_text : List ℕ → List ℕ → List ℕ
as_text format arg = arg

plain_name :
    log_msg as_text (printf false) tag_d (some (37 ∷ 115 ∷ [])) (97 ∷ 98 ∷ [])
    ≡ some (heading tag_d ++ 97 ∷ 98 ∷ [])
plain_name =
    log_msg-plain as_text (printf false) tag_d (37 ∷ 115 ∷ []) (97 ∷ 98 ∷ []) printf-plain
      (omega arith, (omega arith, tt))

abbrev three : List ℕ
three = 97 ∷ 37 ∷ 115 ∷ 37 ∷ 115 ∷ 98 ∷ 37 ∷ 115 ∷ []

log_msg-directives_example :
    log_msg as_text (printf false) tag_d (some (37 ∷ 115 ∷ [])) three ≡ none
log_msg-directives_example =
    log_msg-directives as_text (printf false) tag_d (37 ∷ 115 ∷ []) three (97 ∷ []) [] (98 ∷ []) []
      printf-takes printf-lacks (omega arith, tt) tt (omega arith, tt) refl (omega arith)
