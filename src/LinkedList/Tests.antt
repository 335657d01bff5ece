-- ===== src/LinkedList/Tests.antt =====
-- Lists of three values.
use iiw_udp_gbn.Base.{ℕ, ◌≡◌, refl, List, [], ◌∷◌, none, some}
use iiw_udp_gbn.Base.Int.{pos, negsuc}
use iiw_udp_gbn.LinkedList.{append_ll, len_ll, get_ll, pop_ll}
use iiw_udp_gbn.LinkedList.Laws.{append_ll-append, get_ll-append, pop_ll-append}

abbrev ab : List ℕ
ab = 1 ∷ 2 ∷ []

abbrev abc : List ℕ
abc = 1 ∷ 2 ∷ 3 ∷ []

append_behind : append_ll ab 3 ≡ abc
append_behind = append_ll-append ab 3

get_middle : get_ll abc (pos 1) ≡ some (2 ∷ 3 ∷ [])
get_middle = get_ll-append (1 ∷ []) 2 (3 ∷ [])

pop_middle : pop_ll abc (pos 1) ≡ some (2, 1 ∷ 3 ∷ [])
pop_middle = pop_ll-append (1 ∷ []) 2 (3 ∷ [])

pop_behind : pop_ll ab (pos 2) ≡ none
unfolding pop_ll len_ll
pop_behind = refl

get_negative : get_ll ab (negsuc 0) ≡ none
unfolding get_ll
get_negative = refl
