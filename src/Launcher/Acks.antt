-- ===== src/Launcher/Acks.antt =====
-- What acknowledgments do to the battery and the window.
use mathlib.Core.Path.{subst}
use iiw_udp_gbn.Base.{
  ℕ, ◌+◌, ◌-◌, ◌%◌, ◌<◌, ◌≤◌, ◌≡◌, refl, ap, ap₂, sym, ◌⊎◌, ◌∙◌, true, false, [], ◌∷◌, ◌++◌, arith,
  ltb, lt→ltb, ltb→lt, if◌then◌else◌, Bool-cases, inl, inr,
}
use iiw_udp_gbn.Base.Int.{pos, ◌+ℤ◌, ◌-ℤ◌, pos_part}
use iiw_udp_gbn.LaunchBattery.{LaunchBattery}
use iiw_udp_gbn.LaunchBattery.Ring.{IsRing_at, IsBattery}
use iiw_udp_gbn.Launcher.{Launcher, LauncherEvent, notify_launcher, new_packets_in_send_window}
use iiw_udp_gbn.Launcher.Events.{AckPass, ack_rounds, unwrap, advance_window, handle_ack}
use iiw_udp_gbn.NetworkSampler.{Timespec}
use iiw_udp_gbn.Packet.{Packet}
use iiw_udp_gbn.SendWindow.{SendWindow, queue_len, is_in_window}
use iiw_udp_gbn.SendWindow.Range.{distance, window_at, is_in_window-distance, is_in_window_outside}
use iiw_udp_gbn.Launcher.AckRounds.{ack_rounds_outside, AreAcked, Acks, ack_rounds-Acks}

-- The invariant of the sender: `free` pads are free, and the window starts at the oldest pad with a
-- packet, right behind the free ones.
pub record IsSender (l : Launcher) (free : ℕ) : Type 0 where
  pub valid : IsBattery l.battery free
  pub opened : l.window ≡ window_at ((l.battery.next_available_index + free) % queue_len) l.winsize
  pub some_room : 0 < l.winsize
  pub less_than_all : l.winsize < queue_len

pub notify_launcher-pending :
    (l : Launcher) (event : LauncherEvent)
    → (notify_launcher l event).0
      ≡ record l { pending = if l.is_available then l.pending ++ event ∷ [] else l.pending }
unfolding notify_launcher
notify_launcher-pending l event = elim (Bool-cases l.is_available) [
  | inl e ↦ simp (e, notify_launcher)
  | inr e ↦ simp (e, notify_launcher) (λ i. record l { is_available = e i })
]

advance_window_lem :
    (l : Launcher) (ack : Packet) (k : ℕ)
    → let l' = advance_window l ack (pos k) in
      (l'.battery ≡ l.battery)
      × (l'.winsize ≡ l.winsize)
      × (l'.window ≡ window_at (k % queue_len) l.winsize)
      × (l'.pending
          ≡ (if l.is_available then l.pending ++ new_packets_in_send_window ∷ [] else l.pending))
unfolding advance_window
advance_window_lem l ack k = simp (notify_launcher-pending) (refl, refl, refl, refl)

-- The loop variables before the first round.
abbrev before_acks : Launcher → AckPass
before_acks l = record { battery = l.battery; params = l.params; acked_packs = 0 }

handle_ack_covers :
    (l : Launcher) (ack : Packet) (now : ℕ → Timespec) (m : ℕ)
    → 0 < l.winsize
    → l.winsize < queue_len
    → l.window ≡ window_at l.window.base l.winsize
    → l.window.base < queue_len
    → 0 < m
    → m ≤ l.winsize
    → l.window.base + m ≤ queue_len
    → ack.header.index ≡ pos ((l.window.base + m) % queue_len)
    → (unwrap l.window.base ack.header.index ≡ pos (l.window.base + m))
      × (is_in_window l.window (pos (l.window.base + m) -ℤ pos 1) ≡ true)
unfolding ◌+ℤ◌ ◌-ℤ◌
handle_ack_covers l ack now m w₀ w₁ opened b₀ m₀ m₁ fit e =
    let b = l.window.base in
    let before : pos (b + m) -ℤ pos 1 ≡ pos (b + m - 1) = ground arith in
    (
      rw e (ground arith),
      simp before (
          subst (λ w. is_in_window w (pos (b + m - 1)) ≡ true) (sym opened)
            (is_in_window-distance b l.winsize (b + m - 1) b₀ w₀ (omega arith) (omega arith)
              ∙ ground arith)),
    )

handle_ack_outside :
    (l : Launcher) (ack : Packet) (now : ℕ → Timespec)
    → is_in_window l.window (unwrap l.window.base ack.header.index -ℤ pos 1) ≡ false
    → handle_ack l ack now ≡ l
unfolding handle_ack
handle_ack_outside l ack now e = simp (e, ack_rounds_outside) refl

handle_ack_none :
    (l : Launcher) (ack : Packet) (now : ℕ → Timespec)
    → pos_part (unwrap l.window.base ack.header.index) - l.window.base ≡ 0
    → handle_ack l ack now ≡ l
unfolding handle_ack ack_rounds
handle_ack_none l ack now e = simp e refl

lt_or_le : (a b : ℕ) → (a < b) ⊎ (b ≤ a)
lt_or_le a b = elim (Bool-cases (ltb a b)) [
  | inl e ↦ inl (ltb→lt a b e)
  | inr e ↦ inr (ground arith)
]

module _ (l : Launcher) (free : ℕ) (v : IsSender l free) where
  window_base :
      (l.window.base ≡ (l.battery.next_available_index + free) % queue_len)
      × (l.window.base < queue_len)
  window_base =
      let at_base = ap (λ (w : SendWindow). w.base) v.opened in (at_base, omega (arith, at_base))

  at_own_base : l.window ≡ window_at l.window.base l.winsize
  at_own_base = subst (λ b. l.window ≡ window_at b l.winsize) (sym window_base.0) v.opened

  beyond_window :
      (d : ℕ)
      → queue_len < l.window.base + d
      → is_in_window l.window (pos (l.window.base + d) -ℤ pos 1) ≡ false
  unfolding ◌+ℤ◌ ◌-ℤ◌
  beyond_window d h =
      let b = l.window.base in
      let before : pos (b + d) -ℤ pos 1 ≡ pos (b + d - 1) = ground arith in
      let room = v.less_than_all in
      simp before (
        subst (λ w. is_in_window w (pos (b + d - 1)) ≡ false) (sym at_own_base)
          (is_in_window_outside b l.winsize (b + d - 1) 0 window_base.1 v.some_room (omega arith)
            (omega arith)).0)

  outside_window :
      (d : ℕ)
      → l.winsize < d
      → d < queue_len
      → is_in_window l.window (pos (l.window.base + d) -ℤ pos 1) ≡ false
  unfolding ◌+ℤ◌ ◌-ℤ◌
  outside_window d far small = elim (lt_or_le queue_len (l.window.base + d)) [
    | inl wraps ↦ beyond_window d wraps
    | inr stays ↦
        let b = l.window.base in
        let room = v.less_than_all in
        let before : pos (b + d) -ℤ pos 1 ≡ pos (b + d - 1) = ground arith in
        simp before (
          subst (λ w. is_in_window w (pos (b + d - 1)) ≡ false) (sym at_own_base)
            (is_in_window-distance b l.winsize (b + d - 1) window_base.1 v.some_room (omega arith)
                (omega arith)
              ∙ ground (arith, window_base.1)))
  ]

  covered-Acks :
      (now : ℕ → Timespec) (m : ℕ)
      → free + m ≤ queue_len
      → Acks m l.window.base l.battery.next_available_index free
          (before_acks l)
          (ack_rounds true now m l.window.base (before_acks l))
  covered-Acks now m fit =
      ack_rounds-Acks now m l.window.base l.battery.next_available_index free (before_acks l)
        v.valid.ring v.valid.counted (omega (arith, window_base.0)) fit

  handle_ack_eq :
      (ack : Packet) (now : ℕ → Timespec) (m : ℕ)
      → 0 < m
      → m ≤ l.winsize
      → free + m ≤ queue_len
      → l.window.base + m ≤ queue_len
      → ack.header.index ≡ pos ((l.window.base + m) % queue_len)
      → let pass = ack_rounds true now m l.window.base (before_acks l) in
        handle_ack l ack now
        ≡ advance_window
            (record l { battery = pass.battery; params = pass.params })
            ack
            (pos (l.window.base + m))
  unfolding handle_ack
  handle_ack_eq ack now m m₀ m₁ fit wrap e =
      let (index, inside) =
        handle_ack_covers l ack now m v.some_room v.less_than_all at_own_base window_base.1 m₀ m₁
          wrap e in
      let rounds : l.window.base + m - l.window.base ≡ m = omega arith in
      let some_acked : ltb 0 (ack_rounds true now m l.window.base (before_acks l)).acked_packs
          ≡ true =
        lt→ltb _ _ (omega (arith, (covered-Acks now m fit).acks)) in
      simp (index, inside, rounds, some_acked)

  -- Where the sender's invariant holds and an acknowledgment's index is the pad behind the first m pads
  -- of the window, none of them free and none beyond the end of the array: the m oldest pads with a
  -- packet are marked ACKED, all others stay as they were, the window moves by m, the launcher is
  -- notified if it runs, and the invariant holds with m more free pads.
  pub handle_ack_in_order :
      (ack : Packet) (now : ℕ → Timespec) (m j : ℕ)
      → 0 < m
      → m ≤ l.winsize
      → free + m ≤ queue_len
      → l.window.base + m ≤ queue_len
      → ack.header.index ≡ pos ((l.window.base + m) % queue_len)
      → let l' = handle_ack l ack now in
        let k = j % queue_len in
        IsSender l' (free + m)
        × (l'.window.base ≡ (l.window.base + m) % queue_len)
        × AreAcked m l.window.base l'.battery.battery
        × (l'.battery.battery k ≡ (
            if ltb (distance l.window.base k) m then l'.battery.battery k else l.battery.battery k))
        × (l'.pending
            ≡ (if l.is_available then l.pending ++ new_packets_in_send_window ∷ [] else l.pending))
  handle_ack_in_order ack now m j m₀ m₁ fit wrap e =
      let pass = ack_rounds true now m l.window.base (before_acks l) in
      let a = covered-Acks now m fit in
      let l₁ : Launcher = record l { battery = pass.battery; params = pass.params } in
      let (battery, winsize, window, pending) = advance_window_lem l₁ ack (l.window.base + m) in
      let valid : IsBattery pass.battery (free + m) = record {
        ring = IsRing_at _ (sym a.same_next) refl a.ring;
        counted = a.counted;
      } in
      let moved : (l.window.base + m) % queue_len
          ≡ (pass.battery.next_available_index + (free + m)) % queue_len =
        omega (arith, a.same_next, window_base.0) in
      rw (handle_ack_eq ack now m m₀ m₁ fit wrap e) (
        record {
          valid = subst (λ b. IsBattery b (free + m)) (sym battery) valid;
          opened =
              window
              ∙ ap₂ window_at
                  (moved
                    ∙ ap (λ (b : LaunchBattery). (b.next_available_index + (free + m)) % queue_len)
                        (sym battery))
                  (sym winsize);
          some_room = omega (arith, winsize, v.some_room);
          less_than_all = omega (arith, winsize, v.less_than_all);
        },
        ap (λ (w : SendWindow). w.base) window,
        subst (λ b. AreAcked m l.window.base b.battery) (sym battery) a.done,
        subst
            (λ b. b.battery (j % queue_len) ≡ (
              if ltb (distance l.window.base (j % queue_len)) m
              then b.battery (j % queue_len)
              else l.battery.battery (j % queue_len)))
            (sym battery)
            (elim (Bool-cases (ltb (distance l.window.base (j % queue_len)) m)) [
              | inl far ↦ rw far
              | inr near ↦ rw near (a.others j (ground (arith, window_base.1)))
            ]),
        pending,
      )

  -- Where the sender's invariant holds, an acknowledgment whose index is a pad of the array, at
  -- distance zero from the base of the window or farther from it than the window is wide, changes
  -- nothing.
  pub handle_ack_stale :
      (ack : Packet) (now : ℕ → Timespec) (i : ℕ)
      → i < queue_len
      → ack.header.index ≡ pos i
      → (distance l.window.base i ≡ 0) ⊎ (l.winsize < distance l.window.base i)
      → handle_ack l ack now ≡ l
  unfolding ◌+ℤ◌
  handle_ack_stale ack now i hi e (inl same) =
      handle_ack_none l ack now (rw e (ground (arith, window_base.1)))
  handle_ack_stale ack now i hi e (inr far) =
      let d = distance l.window.base i in
      let index : unwrap l.window.base ack.header.index ≡ pos (l.window.base + d) =
        rw e (ground (arith, window_base.1)) in
      handle_ack_outside l ack now (rw index (outside_window d (omega arith) (omega arith)))

  -- Where the sender's invariant holds, an acknowledgment of packets beyond the end of the array is lost: if
  -- the index is the pad behind the first m pads of the window and the last of the m lies beyond the end,
  -- nothing changes.
  pub handle_ack_wrapped :
      (ack : Packet) (now : ℕ → Timespec) (m : ℕ)
      → m ≤ l.winsize
      → queue_len < l.window.base + m
      → ack.header.index ≡ pos ((l.window.base + m) % queue_len)
      → handle_ack l ack now ≡ l
  unfolding ◌+ℤ◌
  handle_ack_wrapped ack now m m₁ wrap e =
      let less = v.less_than_all in
      let index : unwrap l.window.base ack.header.index ≡ pos (l.window.base + m) =
        rw e (ground (arith, window_base.1)) in
      handle_ack_outside l ack now (rw index (beyond_window m wrap))
