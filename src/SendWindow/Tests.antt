-- ===== src/SendWindow/Tests.antt =====
-- Windows at the start and round the end of the array.
use iiw_udp_gbn.Base.{◌≡◌, refl, false, arith, ltb}
use iiw_udp_gbn.Base.Int.{pos, negsuc}
use iiw_udp_gbn.SendWindow.{is_in_window, new_send_window}
use iiw_udp_gbn.SendWindow.Range.{distance, window_at, is_in_window-distance, is_in_window_outside}

is_in_window-distance_example : is_in_window (window_at 1022 4) (pos 1) ≡ ltb (distance 1022 1) 4
is_in_window-distance_example =
    is_in_window-distance 1022 4 1 (omega arith) (omega arith) (omega arith) (omega arith)

outside_window :
    (is_in_window (window_at 1022 4) (pos 1024) ≡ false)
    × (is_in_window (window_at 1022 4) (negsuc 0) ≡ false)
outside_window =
    is_in_window_outside 1022 4 1024 0 (omega arith) (omega arith) (omega arith) (omega arith)

first_window : is_in_window new_send_window.0 (pos 2) ≡ false
unfolding is_in_window new_send_window
first_window = refl
