-- ===== src/SendWindow/Range.antt =====
-- Which indexes lie in a window on the ring of pads.
use iiw_udp_gbn.Base.{ℕ, ◌+◌, ◌-◌, ◌%◌, ◌≤◌, ◌<◌, ◌≡◌, false, not, arith, ltb}
use iiw_udp_gbn.Base.Int.{pos, negsuc}
use iiw_udp_gbn.SendWindow.{SendWindow, queue_len, is_in_window}

-- How far `i` lies behind `base` on the ring.
abbrev pub distance : ℕ → ℕ → ℕ
distance base i = (i + (queue_len - base)) % queue_len

-- A window of `size` pads from a base on the ring.
abbrev pub window_at : ℕ → ℕ → SendWindow
window_at base size = record { base = base; next_seq_num = (base + size) % queue_len }

-- For an index of the array, isInWindow says whether it is fewer than the window's size steps from the
-- base, round the end of the array too, for every window that is not empty and no longer than the array.
pub is_in_window-distance :
    (base size i : ℕ)
    → base < queue_len
    → 0 < size
    → size ≤ queue_len
    → i < queue_len
    → is_in_window (window_at base size) (pos i) ≡ ltb (distance base i) size
unfolding is_in_window not
is_in_window-distance base size i b s l h = ground arith

-- An int that is negative or beyond the array is outside every window that is not empty and no longer
-- than the array.
pub is_in_window_outside :
    (base size i j : ℕ)
    → base < queue_len
    → 0 < size
    → size ≤ queue_len
    → queue_len ≤ i
    → (is_in_window (window_at base size) (pos i) ≡ false)
      × (is_in_window (window_at base size) (negsuc j) ≡ false)
unfolding is_in_window not
is_in_window_outside base size i j b s l h = (ground arith, ground arith)
