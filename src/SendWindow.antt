-- ===== src/SendWindow.antt =====
-- logic/gbn/window.c and window.h, with isInWindow of logic/gbn/launchBattery.c. The ints of a window
-- are results of `%` on numbers that are not negative, so they are natural numbers here.
pub mod Range
mod Tests
use iiw_udp_gbn.Base.{ℕ, Bool, ◌&&◌, ◌||◌, not, ltb, if◌then◌else◌}
use iiw_udp_gbn.Base.Int.{ℤ, pos, ltb_ℤ}

-- QUEUE_LEN of launchBattery.h
abbrev pub queue_len : ℕ
queue_len = 1024

abbrev pub winsize_default : ℕ
winsize_default = 2

pub record SendWindow : Type 0 where
  pub base : ℕ
  pub next_seq_num : ℕ

-- The new window, and the static `winsize`, which getWinSize returns.
unfoldable pub new_send_window : SendWindow × ℕ
new_send_window = (record { base = 0; next_seq_num = winsize_default }, winsize_default)

abbrev pub geb : ℤ → ℤ → Bool
geb i j = not (ltb_ℤ i j)

unfoldable pub is_in_window : SendWindow → ℤ → Bool
is_in_window w i =
    if ltb w.base w.next_seq_num
    then geb i (pos w.base) && ltb_ℤ i (pos w.next_seq_num)
    else (geb i (pos w.base) && ltb_ℤ i (pos queue_len))
      || (geb i (pos 0) && ltb_ℤ i (pos w.next_seq_num))
