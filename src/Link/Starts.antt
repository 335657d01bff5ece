-- ===== src/Link/Starts.antt =====
-- The launcher behind a call of sendMessageGbn that accepts its message.
use mathlib.Core.Path.{subst}
use iiw_udp_gbn.Base.{
  ℕ, ◌+◌, ◌%◌, ◌<◌, ◌≤◌, ◌≡◌, refl, sym, ap, ◌∙◌, Bool, none, true, false, not, List, [], ◌∷◌, ◌++◌,
  some, arith, length, if◌then◌else◌, Bool-cases, inl, inr, some_eq,
}
use iiw_udp_gbn.Base.Int.{ℤ, pos, eqb_ℤ}
use iiw_udp_gbn.Gbn.{register, send_message_gbn}
use iiw_udp_gbn.Gbn.Sending.{packetize-first, send_message_gbn-accepts}
use iiw_udp_gbn.LaunchBattery.{LaunchPadStatus, LaunchBattery, ready, sent, add_to_launch_battery}
use iiw_udp_gbn.LaunchBattery.Adding.{AreLoaded}
use iiw_udp_gbn.Launcher.{Launcher, new_packets_in_send_window}
use iiw_udp_gbn.Launcher.Acks.{IsSender, notify_launcher-pending}
use iiw_udp_gbn.Launcher.Passes.{bind_some}
use iiw_udp_gbn.Link.Live.{IsLive}
use iiw_udp_gbn.Packet.{Packet, packetize, int_max}
use iiw_udp_gbn.SendWindow.{SendWindow, queue_len}
use iiw_udp_gbn.SortingTable.{SortingEntry}
use iiw_udp_gbn.SortingTable.Laws.{IsSortingTable}
use iiw_udp_gbn.Timer.{Timer}

-- The members that a call of sendMessageGbn does not touch.
record SameThread (l l' : Launcher) : Type 0 where
  timer : l'.timer ≡ l.timer
  available : l'.is_available ≡ l.is_available
  blocked : l'.signals_blocked ≡ l.signals_blocked

register-SameThread :
    (l l' : Launcher) (battery : LaunchBattery) (ps : List Packet) (entry : SortingEntry)
    → register l battery ps entry ≡ some l'
    → SameThread l l'
unfolding register
register-SameThread l l' battery [] entry h = (let h₁ : none ≡ some l' = h in absurd cc)
register-SameThread l l' battery (p ∷ ps) entry h =
    subst (SameThread l) (some_eq h)
      (rw notify_launcher-pending (record { timer = refl; available = refl; blocked = refl }))

send_message_gbn-SameThread :
    (l l' : Launcher) (last_msg_id next_id : ℕ) (entry : SortingEntry) (msg : List ℕ)
    → send_message_gbn l last_msg_id entry msg ≡ some (l', next_id, pos 0)
    → SameThread l l'
unfolding send_message_gbn not
send_message_gbn-SameThread l l' last_msg_id next_id entry msg run =
    let ps = (packetize last_msg_id msg).0 in
    let ((battery, result), _, h) =
      bind_some (add_to_launch_battery l.battery ps) _ (l', next_id, pos 0) run in
    elim (Bool-cases (eqb_ℤ result (pos 0))) [
      | inl good ↦
          let (l₁, registered, h₁) =
            bind_some (register l battery ps entry) _ (l', next_id, pos 0) (rw good at h) in
          subst (SameThread l) (ap (λ (r : Launcher × ℕ × ℤ). r.0) (some_eq h₁))
            (register-SameThread l l₁ battery ps entry registered)
      | inr bad ↦
          subst (SameThread l) (ap (λ (r : Launcher × ℕ × ℤ). r.0) (some_eq (rw bad at h)))
            (record { timer = refl; available = refl; blocked = refl })
    ]

true_not_false : (b : Bool) → b ≡ true → b ≡ false → ⊥
true_not_false b e e' = cc

ready_not_sent : (status : LaunchPadStatus) → status ≡ ready → status ≡ sent → ⊥
ready_not_sent status e e' = cc

-- A launcher that runs, does not block its signals and has no timer alive has not given up behind a call
-- that accepts a message, where every pad was free.
pub loaded-IsLive :
    (l l' : Launcher) (last_msg_id next_id : ℕ) (entry : SortingEntry) (msg : List ℕ)
    → IsSender l queue_len
    → IsSortingTable l.send_table
    → last_msg_id < int_max
    → 0 < length msg
    → length (packetize last_msg_id msg).0 ≤ queue_len
    → l.is_available ≡ true
    → l.signals_blocked ≡ false
    → l.timer.is_alive ≡ false
    → send_message_gbn l last_msg_id entry msg ≡ some (l', next_id, pos 0)
    → IsLive l'
loaded-IsLive l l' last_msg_id next_id entry msg v table id_in some_bytes fit available unblocked
      dead run =
    let (l₁, taken, v₁, loaded, _, _, window, pending) =
      send_message_gbn-accepts l queue_len last_msg_id entry msg (pos 0) v table id_in (omega arith)
        some_bytes fit in
    let same : SameThread l l₁ = send_message_gbn-SameThread l l₁ last_msg_id _ entry msg taken in
    let (p, rest, e, _) = packetize-first last_msg_id msg some_bytes in
    let at_base : (l.battery.next_available_index + 0) % queue_len ≡ l₁.window.base % queue_len =
      omega (
        arith,
        ap (λ (w : SendWindow). w.base) window,
        ap (λ (w : SendWindow). w.base) v.opened,
        v.valid.ring.next_in,
      ) in
    let base_ready : (l₁.battery.battery (l₁.window.base % queue_len)).status ≡ ready =
      subst (λ m. (l₁.battery.battery m).status ≡ ready) at_base
        (subst
          (λ ps.
            AreLoaded l.battery.next_available_index (length (packetize last_msg_id msg).0) 0 ps
              l₁.battery.battery)
          e loaded).1 in
    subst IsLive (ap (λ (r : Launcher × ℕ × ℤ). r.0) (some_eq (sym taken ∙ run))) (record {
      available = same.available ∙ available;
      unblocked = same.blocked ∙ unblocked;
      can_ring = λ alive.
          absurd (true_not_false _ alive (ap (λ (t : Timer). t.is_alive) same.timer ∙ dead));
      queued = λ _. (
        l.pending,
        [],
        pending
            ∙ ap (λ b. if b then l.pending ++ new_packets_in_send_window ∷ [] else l.pending)
                available,
      );
      alive = λ on_air. absurd (ready_not_sent _ base_ready on_air);
    })
