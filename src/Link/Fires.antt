-- ===== src/Link/Fires.antt =====
-- A pass that begins with the pad at the base of the window, where the network and the system calls are kind.
use mathlib.Core.List.{append-nil, append_assoc}
use mathlib.Core.Path.{subst}
use iiw_udp_gbn.Base.{
  ℕ, zero, suc, ◌+◌, ◌%◌, ◌<◌, ◌≤◌, ◌≡◌, Bool, ==_iff, refl, sym, ap, ◌∙◌, true, false, List, [],
  ◌∷◌, ◌++◌, some, arith, Option, none, if◌then◌else◌, ◌==◌, ◌&&◌, update, update_same, Bool-cases,
  Option-cases, some_eq, inl, inr,
}
use iiw_udp_gbn.Base.Int.{eqb_ℤ}
use iiw_udp_gbn.LaunchBattery.{LaunchPadStatus, sent, LaunchPad}
use iiw_udp_gbn.Launcher.{
  Attempt, Sent, Pass, launched, fire_launch_pad, send_bytes, set_ack_port, is_jammed, find_status,
  status_code, send_pad, send_round, send_rounds,
}
use iiw_udp_gbn.Launcher.Passes.{bind_some}
use iiw_udp_gbn.NetworkSampler.{Timespec}
use iiw_udp_gbn.Packet.{Packet, serialize_packet}
use iiw_udp_gbn.SendWindow.{queue_len}
use iiw_udp_gbn.SortingTable.{SortingTable, SortingEntry, get_from_sorting_table}

-- Every system call of a launch works, and nothing is jammed.
pub record IsKind (port : ℕ) (io : Attempt) : Type 0 where
  pub bound : io.sockname ≡ some port
  pub not_jammed : is_jammed io.rand ≡ false
  pub sendto : io.sendto_works ≡ true

-- The datagrams of `s'` begin with those of `s`, no fewer launches are counted, and a SENT pad stays SENT.
record Grows (s s' : Pass) : Type 0 where
  more : List Sent
  grown : s'.datagrams ≡ s.datagrams ++ more
  counted : s.launches ≤ s'.launches
  stays : (m : ℕ) → (s.pads m).status ≡ sent → (s'.pads m).status ≡ sent

Grows-refl : (s : Pass) → Grows s s
Grows-refl s = record {
  more = [];
  grown = sym (append-nil s.datagrams);
  counted = omega arith;
  stays = λ m h. h;
}

-- The end of fireLaunchPad.
abbrev outcome_of :
    LaunchPad → Timespec → Option (List Sent) → Option (LaunchPad × List Sent × Bool)
outcome_of ported now none = some (ported, [], false)
outcome_of ported now (some datagrams) = some (launched ported now, datagrams, true)

outcome-sent :
    (ported : LaunchPad) (now : Timespec) (outcome : Option (List Sent)) (pad' : LaunchPad)
    (ds : List Sent) (works : Bool)
    → ported.status ≡ sent
    → outcome_of ported now outcome ≡ some (pad', ds, works)
    → pad'.status ≡ sent
outcome-sent ported now none pad' ds works was run =
    ap (λ (r : LaunchPad × List Sent × Bool). r.0.status) (sym (some_eq run)) ∙ was
outcome-sent ported now (some datagrams) pad' ds works was run =
    ap (λ (r : LaunchPad × List Sent × Bool). r.0.status) (sym (some_eq run))

fired-sent :
    (table : SortingTable) (io : Attempt) (pad pad' : LaunchPad) (ds : List Sent) (works : Bool)
    → fire_launch_pad table io pad ≡ some (pad', ds, works)
    → pad.status ≡ sent
    → pad'.status ≡ sent
unfolding fire_launch_pad
fired-sent table io pad pad' ds works run was_sent = elim (Option-cases io.sockname) [
  | inl e ↦
      ap (λ (r : LaunchPad × List Sent × Bool). r.0.status)
        (sym (some_eq (rw (e, fire_launch_pad) at run)))
      ∙ was_sent
  | inr (port, e) ↦
      let (p, _, h₁) = bind_some pad.packet _ (pad', ds, works) (rw (e, fire_launch_pad) at run) in
      let (bytes, _, h₂) =
        bind_some (serialize_packet (set_ack_port p port)) _ (pad', ds, works) h₁ in
      let (outcome, _, h₃) =
        bind_some (send_bytes io (get_from_sorting_table table p.header.msg_id) bytes) _
          (pad', ds, works) h₂ in
      let ported = record pad { packet = some (set_ack_port p port) } in
      outcome-sent ported io.now outcome pad' ds works was_sent h₃
]

updated-sent :
    (pads : ℕ → LaunchPad) (i m : ℕ) (pad : LaunchPad)
    → (pads m).status ≡ sent
    → ((pads i).status ≡ sent → pad.status ≡ sent)
    → (update pads i pad m).status ≡ sent
updated-sent pads i m pad was fired = elim (Bool-cases (i == m)) [
  | inl e ↦ rw e (fired (subst (λ k. (pads k).status ≡ sent) (sym ((==_iff i m).0 e)) was))
  | inr e ↦ rw e was
]

module _ (table : SortingTable) (io : ℕ → Attempt) (statuses : List LaunchPadStatus)
    (base : ℕ) where
  send_pad-Grows :
      (i j : ℕ) (s s' : Pass) → send_pad table io statuses base i j s ≡ some s' → Grows s s'
  unfolding send_pad
  send_pad-Grows i j s s' run =
      let (p, _, h₁) = bind_some (s.pads (i % queue_len)).packet _ s' run in
      let id = if (i == base) && (j == 0) then p.header.msg_id else s.msg_id_to_send in
      elim (Bool-cases (eqb_ℤ p.header.msg_id id)) [
        | inl e ↦
            (let ((pad, ds, works), fired, h₂) =
                bind_some (fire_launch_pad table (io i) (s.pads (i % queue_len))) _ s'
                  (rw e at h₁) in
              record {
                more = ds;
                grown = sym (ap (λ (t : Pass). t.datagrams) (some_eq h₂));
                counted = subst (λ (t : Pass). s.launches ≤ t.launches) (some_eq h₂) (ground arith);
                stays = λ m was.
                    subst (λ (t : Pass). (t.pads m).status ≡ sent) (some_eq h₂)
                      (updated-sent s.pads (i % queue_len) m pad was
                        (fired-sent table (io i) _ pad ds works fired));
              })
        | inr e ↦ rw (sym (some_eq (rw e at h₁))) (record {
          more = [];
          grown = sym (append-nil s.datagrams);
          counted = omega arith;
          stays = λ m was. was;
        })
      ]

  send_round-Grows :
      (i : ℕ) (s s' : Pass) → send_round table io statuses base i s ≡ some s' → Grows s s'
  unfolding send_round
  send_round-Grows i s s' run =
      elim (Option-cases (find_status (s.pads (i % queue_len)).status 0 statuses)) [
        | inl e ↦ rw (sym (some_eq (rw (e, send_round) at run))) (Grows-refl s)
        | inr (j, e) ↦ send_pad-Grows i j s s' (rw (e, send_round) at run)
      ]

  send_rounds-Grows :
      (n i : ℕ) (s s' : Pass) → send_rounds table io statuses base n i s ≡ some s' → Grows s s'
  unfolding send_rounds
  send_rounds-Grows zero i s s' run = rw (sym (some_eq run)) (Grows-refl s)
  send_rounds-Grows (suc n) i s s' run =
      let (s₁, first, later) = bind_some (send_round table io statuses base i s) _ s' run in
      let g = send_round-Grows i s s₁ first in
      let g' = send_rounds-Grows n (i + 1) s₁ s' later in
      record {
        more = g.more ++ g'.more;
        grown = g'.grown ∙ ap (λ d. d ++ g'.more) g.grown ∙ append_assoc s.datagrams g.more g'.more;
        counted = omega (arith, g.counted, g'.counted);
        stays = λ m was. g'.stays m (g.stays m was);
      }

-- The pad at the base of the window goes first.
module _ (table : SortingTable) (p : Packet) (entry : SortingEntry) (port : ℕ) (bytes : List ℕ)
    (found : get_from_sorting_table table p.header.msg_id ≡ some entry)
    (written : serialize_packet (set_ack_port p port) ≡ some bytes) where
  fire_launch_pad_kind :
      (io : Attempt) (pad : LaunchPad)
      → pad.packet ≡ some p
      → IsKind port io
      → (pad' : LaunchPad) × (fire_launch_pad table io pad
          ≡ some (pad', record { bytes = bytes; entry = entry } ∷ [], true))
        × (pad'.status ≡ sent)
  unfolding fire_launch_pad
  fire_launch_pad_kind io pad held kind =
      let air = kind.not_jammed in
      let good = kind.sendto in
      (
        launched (record pad { packet = some (set_ack_port p port) }) io.now,
        rw kind.bound (simp (held, written, found, air, good) refl),
        refl,
      )

  first_round :
      (io : ℕ → Attempt) (base : ℕ) (s : Pass)
      → (s.pads (base % queue_len)).packet ≡ some p
      → IsKind port (io base)
      → let status = (s.pads (base % queue_len)).status in
        (s' : Pass) × (send_round table io (status ∷ []) base base s ≡ some s')
        × (s'.datagrams ≡ s.datagrams ++ record { bytes = bytes; entry = entry } ∷ [])
        × (s'.launches ≡ s.launches + 1)
        × ((s'.pads (base % queue_len)).status ≡ sent)
  unfolding send_round send_pad find_status
  first_round io base s held kind =
      let pad = s.pads (base % queue_len) in
      let first : (status_code pad.status == status_code pad.status) ≡ true = ground arith in
      let own : (base == base) ≡ true = ground arith in
      let same : eqb_ℤ p.header.msg_id p.header.msg_id ≡ true = ground arith in
      let (pad', fired, is_sent) = fire_launch_pad_kind (io base) pad held kind in
      (
        record {
          pads = update s.pads (base % queue_len) pad';
          msg_id_to_send = p.header.msg_id;
          launches = s.launches + 1;
          datagrams = s.datagrams ++ record { bytes = bytes; entry = entry } ∷ [];
        },
        rw (first, send_round) (simp (held, own, same, fired) refl),
        refl,
        refl,
        ap (λ (p' : LaunchPad). p'.status) (update_same s.pads (base % queue_len) pad') ∙ is_sent,
      )

  pub first_rounds :
      (io : ℕ → Attempt) (base n : ℕ) (s s' : Pass)
      → 0 < n
      → (s.pads (base % queue_len)).packet ≡ some p
      → IsKind port (io base)
      → send_rounds table io ((s.pads (base % queue_len)).status ∷ []) base n base s ≡ some s'
      → (rest : List Sent) × (s'.datagrams
          ≡ s.datagrams ++ record { bytes = bytes; entry = entry } ∷ rest)
        × (0 < s'.launches)
        × ((s'.pads (base % queue_len)).status ≡ sent)
  unfolding send_rounds
  first_rounds io base zero s s' some_rounds held kind run = absurd (omega arith)
  first_rounds io base (suc n) s s' some_rounds held kind run =
      let statuses = (s.pads (base % queue_len)).status ∷ [] in
      let (s₁, first, later) = bind_some (send_round table io statuses base base s) _ s' run in
      let (s₂, first', begins, one_more, is_sent) = first_round io base s held kind in
      let same = some_eq (sym first' ∙ first) in
      let g = send_rounds-Grows table io statuses base n (base + 1) s₁ s' later in
      let rest = g.more in
      let counted : 0 < s₁.launches =
        subst (λ (t : Pass). 0 < t.launches) same (omega (arith, one_more)) in
      (
        rest,
        g.grown
            ∙ ap (λ (t : Pass). t.datagrams ++ rest) (sym same)
            ∙ ap (λ d. d ++ rest) begins
            ∙ append_assoc s.datagrams (record { bytes = bytes; entry = entry } ∷ []) rest,
        omega (arith, counted, g.counted),
        g.stays (base % queue_len)
            (subst (λ (t : Pass). (t.pads (base % queue_len)).status ≡ sent) same is_sent),
      )
