-- ===== src/Launcher/Reachable.antt =====
-- The sender through any history of calls of sendMessageGbn, signals and acknowledgments.
use iiw_udp_gbn.Base.{
  ℕ, ◌+◌, ◌-◌, ◌%◌, ◌<◌, ◌≤◌, ◌≡◌, ◌⊎◌, refl, sym, ap, ◌∙◌, Bool, true, false, List, [], ◌∷◌, some,
  arith, Bool-cases, if◌then◌else◌, some_eq, inl, inr, ltb, ◌==◌, ◌&&◌, not,
}
use iiw_udp_gbn.Base.Int.{ℤ, pos, eqb_ℤ, rem_ℤ, ◌+ℤ◌, ◌-ℤ◌, pos_part}
use iiw_udp_gbn.LaunchBattery.{LaunchPadStatus, ready, sent, LaunchPad, is_launch_pad_available}
use iiw_udp_gbn.Launcher.{
  LauncherEvent, new_packets_in_send_window, packet_timed_out, launcher_shutdown, Launcher, Attempt,
  Sent, Pass, with_pads, send_all_packets_in_window_core,
}
use iiw_udp_gbn.Launcher.Acks.{
  IsSender, notify_launcher-pending, handle_ack_in_order, handle_ack_stale, handle_ack_wrapped,
}
use iiw_udp_gbn.Launcher.Events.{
  launcher_sig_handler, handle_ack, advance_window, AckPass, ack_rounds, unwrap,
}
use iiw_udp_gbn.Launcher.Firing.{AreBusy}
use iiw_udp_gbn.Launcher.Passes.{bind_some, SameFree, send_rounds-SameFree}
use iiw_udp_gbn.NetworkSampler.{Timespec}
use iiw_udp_gbn.Packet.{Packet}
use iiw_udp_gbn.SendWindow.{SendWindow, queue_len, is_in_window}
use iiw_udp_gbn.SendWindow.Range.{distance}
use iiw_udp_gbn.SortingTable.{SortingTable, remove_from_sorting_table}
use iiw_udp_gbn.SortingTable.Laws.{IsSortingTable, remove_from_sorting_table-IsSortingTable}
use iiw_udp_gbn.Timer.{Timer}

with_pads-IsSender :
    (l : Launcher) (free : ℕ) (pads : ℕ → LaunchPad)
    → IsSender l free
    → SameFree l.battery.battery pads
    → IsSender (with_pads l pads) free
with_pads-IsSender l free pads v same = record {
  valid = record {
    ring = record {
      next_in = v.valid.ring.next_in;
      fits = v.valid.ring.fits;
      frees = λ i. same i ∙ v.valid.ring.frees i;
    };
    counted = v.valid.counted;
  };
  opened = v.opened;
  some_room = v.some_room;
  less_than_all = v.less_than_all;
}

-- Members that the invariant does not read.
with_rest-IsSender :
    (l : Launcher) (free : ℕ) (t : Timer) (available : Bool)
    → IsSender l free
    → IsSender (record l { timer = t; is_available = available }) free
with_rest-IsSender l free t available v = record {
  valid = v.valid;
  opened = v.opened;
  some_room = v.some_room;
  less_than_all = v.less_than_all;
}

core-IsSender :
    (l : Launcher) (free : ℕ) (io : ℕ → Attempt) (statuses : List LaunchPadStatus) (pass : Pass)
    → IsSender l free
    → AreBusy statuses
    → send_all_packets_in_window_core l io statuses ≡ some pass
    → IsSender (with_pads l pass.pads) free
unfolding send_all_packets_in_window_core
core-IsSender l free io statuses pass v wanted h =
    with_pads-IsSender l free pass.pads v
      (send_rounds-SameFree l.send_table io statuses wanted _ _ _ _ pass h)

-- A handler that has returned.
pub returned-IsSender :
    (l l' : Launcher) (free : ℕ) (event : LauncherEvent) (io : ℕ → Attempt) (datagrams : List Sent)
    → IsSender l free
    → IsSortingTable l.send_table
    → launcher_sig_handler l event io ≡ some (l', datagrams)
    → IsSender l' free × IsSortingTable l'.send_table
unfolding launcher_sig_handler is_launch_pad_available
returned-IsSender l l' free new_packets_in_send_window io datagrams v t h =
    let (pass, run, h₁) =
      bind_some (send_all_packets_in_window_core l io (ready ∷ [])) _ (l', datagrams) h in
    let sender = core-IsSender l free io (ready ∷ []) pass v (refl, tt) run in
    elim (Bool-cases (ltb 0 pass.launches && not l.timer.is_alive)) [
      | inl e ↦
          rw (sym (ap (λ (r : Launcher × List Sent). r.0) (some_eq (rw e at h₁))))
            (with_rest-IsSender (with_pads l pass.pads) free _ _ sender, t)
      | inr e ↦ rw (sym (ap (λ (r : Launcher × List Sent). r.0) (some_eq (rw e at h₁)))) (sender, t)
    ]
returned-IsSender l l' free packet_timed_out io datagrams v t h =
    let (pass, run, h₁) =
      bind_some (send_all_packets_in_window_core l io (sent ∷ [])) _ (l', datagrams) h in
    let sender = core-IsSender l free io (sent ∷ []) pass v (refl, tt) run in
    elim (Bool-cases ((pass.launches == 0) && l.timer.is_alive)) [
      | inl e ↦
          rw (sym (ap (λ (r : Launcher × List Sent). r.0) (some_eq (rw e at h₁))))
            (with_rest-IsSender (with_pads l pass.pads) free _ _ sender, t)
      | inr e ↦ rw (sym (ap (λ (r : Launcher × List Sent). r.0) (some_eq (rw e at h₁)))) (sender, t)
    ]
returned-IsSender l l' free launcher_shutdown io datagrams v t h =
    rw (sym (ap (λ (r : Launcher × List Sent). r.0) (some_eq h)))
      (with_rest-IsSender l free _ _ v, t)

-- An acknowledgment of pads that hold packets, wherever they lie, is taken whole or changes nothing.
pub handle_ack-cases :
    (l : Launcher) (free i : ℕ) (ack : Packet) (now : ℕ → Timespec)
    → IsSender l free
    → i < queue_len
    → ack.header.index ≡ pos i
    → let d = distance l.window.base i in
      d + free ≤ queue_len
      → (handle_ack l ack now ≡ l) ⊎ (IsSender (handle_ack l ack now) (free + d))
handle_ack-cases l free i ack now v hi e sound =
    let d = distance l.window.base i in
    let base_is : l.window.base ≡ (l.battery.next_available_index + free) % queue_len =
      ap (λ (w : SendWindow). w.base) v.opened in
    let base_in : l.window.base < queue_len = omega (arith, base_is) in
    let behind : i ≡ (l.window.base + d) % queue_len = omega (arith, base_in, hi) in
    elim (Bool-cases (d == 0)) [
      | inl zero_d ↦ inl (handle_ack_stale l free v ack now i hi e (inl (ground (arith, zero_d))))
      | inr some_d ↦ elim (Bool-cases (ltb l.winsize d)) [
        | inl far ↦ inl (handle_ack_stale l free v ack now i hi e (inr (ground (arith, far))))
        | inr near ↦ elim (Bool-cases (ltb queue_len (l.window.base + d))) [
          | inl wraps ↦ inl (
              handle_ack_wrapped l free v ack now d (ground (arith, near)) (ground (arith, wraps))
                (e ∙ ap pos behind))
          | inr stays ↦
              inr
                (handle_ack_in_order l free v ack now d 0 (ground (arith, some_d))
                  (ground (arith, near)) (omega (arith, sound)) (ground (arith, stays))
                  (e ∙ ap pos behind)).0
        ]
      ]
    ]

-- It names a pad that the packets on the battery reach, or one beyond the window.
abbrev pub IsNearOrFar : Launcher → ℕ → ℕ → Type 0
IsNearOrFar l free i =
    (distance l.window.base i + free ≤ queue_len) ⊎ (l.winsize < distance l.window.base i)

pub handle_ack-IsSender :
    (l : Launcher) (free i : ℕ) (ack : Packet) (now : ℕ → Timespec)
    → IsSender l free
    → i < queue_len
    → ack.header.index ≡ pos i
    → IsNearOrFar l free i
    → (free' : ℕ) × IsSender (handle_ack l ack now) free' × (free ≤ free')
handle_ack-IsSender l free i ack now v hi e (inl near) =
    elim (handle_ack-cases l free i ack now v hi e near) [
      | inl same ↦ rw same (free, v, omega arith)
      | inr taken ↦ (free + distance l.window.base i, taken, omega arith)
    ]
handle_ack-IsSender l free i ack now v hi e (inr far) =
    rw (handle_ack_stale l free v ack now i hi e (inr far)) (free, v, omega arith)

removed-IsSortingTable :
    (is_last : Bool) (t : SortingTable) (id : ℤ)
    → IsSortingTable t
    → IsSortingTable (if is_last then (remove_from_sorting_table t id).0 else t)
removed-IsSortingTable true t id v = remove_from_sorting_table-IsSortingTable t id v
removed-IsSortingTable false t id v = v

advance-IsSortingTable :
    (l : Launcher) (ack : Packet) (k : ℤ)
    → IsSortingTable l.send_table
    → IsSortingTable (advance_window l ack k).send_table
unfolding advance_window
advance-IsSortingTable l ack k t =
    let is_last = eqb_ℤ k (rem_ℤ (ack.header.end_index +ℤ pos 1) queue_len) in
    rw (notify_launcher-pending _ new_packets_in_send_window)
      (removed-IsSortingTable is_last l.send_table ack.header.msg_id t)

pub handle_ack-IsSortingTable :
    (l : Launcher) (ack : Packet) (now : ℕ → Timespec)
    → IsSortingTable l.send_table
    → IsSortingTable (handle_ack l ack now).send_table
unfolding handle_ack
handle_ack-IsSortingTable l ack now t =
    let k = unwrap l.window.base ack.header.index in
    let in_window = is_in_window l.window (k -ℤ pos 1) in
    let start : AckPass = record { battery = l.battery; params = l.params; acked_packs = 0 } in
    let pass = ack_rounds in_window now (pos_part k - l.window.base) l.window.base start in
    elim (Bool-cases (ltb 0 pass.acked_packs)) [
      | inl e ↦ rw e (
          advance-IsSortingTable (record l { battery = pass.battery; params = pass.params }) ack k
            t)
      | inr e ↦ rw e t
    ]
