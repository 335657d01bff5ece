-- ===== src/Link/Pads.antt =====
-- What the pads hold and what goes out, in a pass of the launcher that has returned.
use mathlib.Core.Path.{subst}
use iiw_udp_gbn.Base.{
  ℕ, zero, suc, ◌+◌, ◌%◌, ◌≡◌, ◌⊎◌, refl, sym, ap, ◌∙◌, Bool, false, List, [], ◌∷◌, Option, none,
  some, arith, if◌then◌else◌, ◌==◌, ◌&&◌, not, ltb, update, Bool-cases, Option-cases, some_eq, inl,
  inr, ==_iff, All, All-append, All-mono, ◌-◌, ◌<◌, ◌≤◌,
}
use iiw_udp_gbn.Base.Int.{eqb_ℤ}
use iiw_udp_gbn.LaunchBattery.{LaunchPadStatus, ready, sent, LaunchPad, is_launch_pad_available}
use iiw_udp_gbn.LaunchBattery.Ring.{is_free}
use iiw_udp_gbn.Launcher.{
  LauncherEvent, new_packets_in_send_window, packet_timed_out, launcher_shutdown, Launcher,
  send_all_packets_in_window_core, Attempt, Sent, Pass, fire_launch_pad, send_bytes, set_ack_port,
  is_jammed, find_status, send_pad, send_round, send_rounds,
}
use iiw_udp_gbn.Launcher.Acks.{IsSender}
use iiw_udp_gbn.Launcher.Events.{launcher_sig_handler}
use iiw_udp_gbn.Launcher.Firing.{AreBusy, find_status-busy}
use iiw_udp_gbn.Launcher.Passes.{bind_some, SameFree, send_pad-SameFree}
use iiw_udp_gbn.Packet.{Packet, serialize_packet}
use iiw_udp_gbn.SendWindow.{SendWindow, queue_len}
use iiw_udp_gbn.SortingTable.{SortingTable, SortingEntry, get_from_sorting_table}

-- getsockname fails or answers `port`.
abbrev pub IsBoundTo : ℕ → Attempt → Type 0
IsBoundTo port io = (io.sockname ≡ none) ⊎ (io.sockname ≡ some port)

-- The datagrams carry these bytes.
send_bytes_lem :
    (io : Attempt) (entry : Option SortingEntry) (bytes : List ℕ) (ds : List Sent)
    → send_bytes io entry bytes ≡ some (some ds)
    → All (λ d. d.bytes ≡ bytes) ds
send_bytes_lem io entry bytes ds h = elim (Bool-cases (is_jammed io.rand)) [
  | inl jam ↦ rw (sym (some_eq (some_eq (rw jam at h)))) tt
  | inr air ↦
      let (e, _, h₁) = bind_some entry _ (some ds) (rw air at h) in
      elim (Bool-cases io.sendto_works) [
        | inl good ↦ rw (sym (some_eq (some_eq (rw good at h₁)))) (refl, tt)
        | inr bad ↦ absurd (ground (arith, some_eq (rw bad at h₁)))
      ]
]

-- How many rounds a pass has.
pub window_wide :
    (l : Launcher) (free : ℕ)
    → IsSender l free
    → (if ltb l.window.next_seq_num l.window.base
          then l.window.next_seq_num + queue_len
          else l.window.next_seq_num)
        - l.window.base
      ≡ l.winsize
window_wide l free v = ground (
  arith,
  ap (λ (w : SendWindow). w.base) v.opened,
  ap (λ (w : SendWindow). w.next_seq_num) v.opened,
  v.some_room,
  v.less_than_all,
)

-- `P m p`: the packet `p` may stand on the pad `m`, up to the port in it.
module _ (P : ℕ → Packet → Type 0) (port : ℕ)
    (stays : (m : ℕ) (p : Packet) → P m p → P m (set_ack_port p port)) where
  abbrev pub IsHeld : ℕ → LaunchPad → Type 0
  IsHeld m pad = (p : Packet) × (pad.packet ≡ some p) × P m p

  -- Each pad that is not free holds such a packet.
  abbrev pub Holds : (ℕ → LaunchPad) → Type 0
  Holds pads =
      (i : ℕ) → is_free pads (i % queue_len) ≡ false → IsHeld (i % queue_len) (pads (i % queue_len))

  -- The datagram is the packet of the pad `m`, with the port in it.
  abbrev pub Carries : ℕ → Sent → Type 0
  Carries m d = (p : Packet) × P m p × (serialize_packet (set_ack_port p port) ≡ some d.bytes)

  -- It is that of a pad from `base` on, before `last`.
  abbrev pub CarriesIn : ℕ → ℕ → Sent → Type 0
  CarriesIn base last d = (i : ℕ) × (base ≤ i) × (i < last) × Carries (i % queue_len) d

  carried-Carries :
      (m : ℕ) (q : Packet) (bytes : List ℕ)
      → P m q
      → serialize_packet (set_ack_port q port) ≡ some bytes
      → (ds : List Sent) → All (λ d. d.bytes ≡ bytes) ds
      → All (Carries m) ds
  carried-Carries m q bytes has written [] same = tt
  carried-Carries m q bytes has written (d ∷ ds) (e, same) =
      ((q, has, written ∙ ap some (sym e)), carried-Carries m q bytes has written ds same)

  fire_launch_pad-Carries :
      (m : ℕ) (table : SortingTable) (io : Attempt) (pad pad' : LaunchPad) (ds : List Sent)
      (works : Bool)
      → IsHeld m pad
      → IsBoundTo port io
      → fire_launch_pad table io pad ≡ some (pad', ds, works)
      → IsHeld m pad' × All (Carries m) ds
  unfolding fire_launch_pad
  fire_launch_pad-Carries m table io pad pad' ds works held (inl e) h =
      let same = some_eq (rw e at h) in
      (
        subst (λ (r : LaunchPad × List Sent × Bool). IsHeld m r.0) same held,
        subst (λ (r : LaunchPad × List Sent × Bool). All (Carries m) r.1) same tt,
      )
  fire_launch_pad-Carries m table io pad pad' ds works (p, is_p, has) (inr e) h =
      let (q, is_q, h₁) = bind_some pad.packet _ (pad', ds, works) (rw e at h) in
      let has_q : P m q = subst (P m) (some_eq (sym is_p ∙ is_q)) has in
      let (bytes, written, h₂) =
        bind_some (serialize_packet (set_ack_port q port)) _ (pad', ds, works) h₁ in
      let (outcome, out, h₃) =
        bind_some (send_bytes io (get_from_sorting_table table q.header.msg_id) bytes) _
          (pad', ds, works) h₂ in
      elim (Option-cases outcome) [
        | inl f ↦
            (let same = some_eq (rw f at h₃) in
              (
                subst (λ (r : LaunchPad × List Sent × Bool). IsHeld m r.0) same
                    (set_ack_port q port, refl, stays m q has_q),
                subst (λ (r : LaunchPad × List Sent × Bool). All (Carries m) r.1) same tt,
              ))
        | inr (datagrams, f) ↦
            (let same = some_eq (rw f at h₃) in
              (
                subst (λ (r : LaunchPad × List Sent × Bool). IsHeld m r.0) same
                    (set_ack_port q port, refl, stays m q has_q),
                subst (λ (r : LaunchPad × List Sent × Bool). All (Carries m) r.1) same
                    (carried-Carries m q bytes has_q written datagrams
                      (send_bytes_lem io _ bytes datagrams (rw f at out))),
              ))
      ]

  update-Holds :
      (pads : ℕ → LaunchPad) (k : ℕ) (pad : LaunchPad)
      → Holds pads
      → is_free pads k ≡ false
      → IsHeld k pad
      → SameFree pads (update pads k pad)
      → Holds (update pads k pad)
  update-Holds pads k pad h busy held same i still = elim (Bool-cases (k == i % queue_len)) [
    | inl e ↦ rw e (subst (λ m. IsHeld m pad) ((==_iff k (i % queue_len)).0 e) held)
    | inr e ↦ rw e (h i (sym (same i) ∙ still))
  ]

  module _ (table : SortingTable) (io : ℕ → Attempt) (bound : (i : ℕ) → IsBoundTo port (io i))
      (statuses : List LaunchPadStatus) (wanted : AreBusy statuses) (base last : ℕ) where
    -- The pads and the datagrams of a pass.
    abbrev pub IsFine : Pass → Type 0
    IsFine s = Holds s.pads × All (CarriesIn base last) s.datagrams

    send_pad-IsFine :
        (i j : ℕ) (s s' : Pass)
        → base ≤ i
        → i < last
        → IsFine s
        → is_free s.pads (i % queue_len) ≡ false
        → send_pad table io statuses base i j s ≡ some s'
        → IsFine s'
    unfolding send_pad
    send_pad-IsFine i j s s' from before (h, out) busy run =
        let same = send_pad-SameFree table io statuses wanted base i j s s' busy run in
        let (p, _, h₁) = bind_some (s.pads (i % queue_len)).packet _ s' run in
        let id = if (i == base) && (j == 0) then p.header.msg_id else s.msg_id_to_send in
        elim (Bool-cases (eqb_ℤ p.header.msg_id id)) [
          | inl e ↦
              (let ((pad, ds, works), fired, h₂) =
                  bind_some (fire_launch_pad table (io i) (s.pads (i % queue_len))) _ s'
                    (rw e at h₁) in
                let (held, carried) =
                  fire_launch_pad-Carries (i % queue_len) table (io i) (s.pads (i % queue_len)) pad
                    ds works (h i busy) (bound i) fired in
                let is_s' = some_eq h₂ in
                rw (sym is_s') (
                  update-Holds s.pads (i % queue_len) pad h busy held (rw (sym is_s') at same),
                  All-append (CarriesIn base last) s.datagrams ds out (
                      All-mono (Carries (i % queue_len)) (CarriesIn base last)
                        (λ d carries. (i, from, before, carries)) ds carried),
                ))
          | inr e ↦ rw (sym (some_eq (rw e at h₁))) (h, out)
        ]

    send_round-IsFine :
        (i : ℕ) (s s' : Pass)
        → base ≤ i
        → i < last
        → IsFine s
        → send_round table io statuses base i s ≡ some s'
        → IsFine s'
    unfolding send_round
    send_round-IsFine i s s' from before fine run =
        let status = (s.pads (i % queue_len)).status in
        elim (Option-cases (find_status status 0 statuses)) [
          | inl e ↦ rw (sym (some_eq (rw (e, send_round) at run))) fine
          | inr (j, e) ↦
              send_pad-IsFine i j s s' from before fine
                (find_status-busy status 0 j statuses wanted e) (rw (e, send_round) at run)
        ]

    pub send_rounds-IsFine :
        (n i : ℕ) (s s' : Pass)
        → base ≤ i
        → i + n ≤ last
        → IsFine s
        → send_rounds table io statuses base n i s ≡ some s'
        → IsFine s'
    unfolding send_rounds
    send_rounds-IsFine zero i s s' from before fine run = rw (sym (some_eq run)) fine
    send_rounds-IsFine (suc n) i s s' from before fine run =
        let (s₁, first, later) = bind_some (send_round table io statuses base i s) _ s' run in
        send_rounds-IsFine n (i + 1) s₁ s' (omega arith) (omega arith)
          (send_round-IsFine i s s₁ from (omega arith) fine first) later

  -- What a handler leaves behind for `l`.
  abbrev Handled : Launcher → Launcher × List Sent → Type 0
  Handled l (l', ds) =
      Holds l'.battery.battery
      × All (CarriesIn l.window.base (l.window.base + l.winsize)) ds
      × (l'.battery.next_available_index ≡ l.battery.next_available_index)
      × (l'.winsize ≡ l.winsize)
      × (l'.send_table ≡ l.send_table)

  module _ (l : Launcher) (free : ℕ) (v : IsSender l free) (io : ℕ → Attempt)
      (bound : (i : ℕ) → IsBoundTo port (io i)) (h : Holds l.battery.battery) where
    core-IsFine :
        (statuses : List LaunchPadStatus) (pass : Pass)
        → AreBusy statuses
        → send_all_packets_in_window_core l io statuses ≡ some pass
        → Holds pass.pads × All (CarriesIn l.window.base (l.window.base + l.winsize)) pass.datagrams
    unfolding send_all_packets_in_window_core
    core-IsFine statuses pass wanted run =
        let base = l.window.base in
        let wide = window_wide l free v in
        send_rounds-IsFine l.send_table io bound statuses wanted base (base + l.winsize) _ _ _ pass
          (omega arith) (omega (arith, wide)) (h, tt) run

    -- Where every pad that is not free holds a packet with `P`, it does so behind a handler that has
    -- returned, and all datagrams that went out carry packets of pads of the window.
    pub returned-Holds :
        (event : LauncherEvent) (l' : Launcher) (ds : List Sent)
        → launcher_sig_handler l event io ≡ some (l', ds)
        → Holds l'.battery.battery
          × All (CarriesIn l.window.base (l.window.base + l.winsize)) ds
          × (l'.battery.next_available_index ≡ l.battery.next_available_index)
          × (l'.winsize ≡ l.winsize)
          × (l'.send_table ≡ l.send_table)
    unfolding launcher_sig_handler is_launch_pad_available
    returned-Holds new_packets_in_send_window l' ds run =
        let (pass, ran, h₁) =
          bind_some (send_all_packets_in_window_core l io (ready ∷ [])) _ (l', ds) run in
        let (held, out) = core-IsFine (ready ∷ []) pass (refl, tt) ran in
        subst (Handled l) (some_eq h₁)
          (elim (Bool-cases (ltb 0 pass.launches && not l.timer.is_alive)) [
            | inl e ↦ rw e (held, out, refl, refl, refl)
            | inr e ↦ rw e (held, out, refl, refl, refl)
          ])
    returned-Holds packet_timed_out l' ds run =
        let (pass, ran, h₁) =
          bind_some (send_all_packets_in_window_core l io (sent ∷ [])) _ (l', ds) run in
        let (held, out) = core-IsFine (sent ∷ []) pass (refl, tt) ran in
        subst (Handled l) (some_eq h₁)
          (elim (Bool-cases ((pass.launches == 0) && l.timer.is_alive)) [
            | inl e ↦ rw e (held, out, refl, refl, refl)
            | inr e ↦ rw e (held, out, refl, refl, refl)
          ])
    returned-Holds launcher_shutdown l' ds run =
        subst (Handled l) (some_eq run) (h, tt, refl, refl, refl)
