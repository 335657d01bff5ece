-- ===== src/Link/Progress.antt =====
-- Steps that bring the message on, from any state of the invariant.
use mathlib.Core.Path.{subst}
use iiw_udp_gbn.Base.{
  ℕ, zero, suc, ◌+◌, ◌-◌, ◌%◌, ◌<◌, ◌≤◌, ◌≡◌, refl, ap, ◌∙◌, true, false, List, [], ◌∷◌, ◌++◌, some,
  arith, length, get_elem?, All, All-at, inl, inr, if◌then◌else◌, ◌==◌, Bool-cases, ==_iff,
}
use iiw_udp_gbn.Base.Int.{pos}
use iiw_udp_gbn.Catcher.{Catcher, Ack}
use iiw_udp_gbn.Catcher.Acks.{IsAckOf}
use iiw_udp_gbn.Gbn.Feedback.{received, received-IsSender, listen_for_ack_eq}
use iiw_udp_gbn.LaunchBattery.Ring.{is_free}
use iiw_udp_gbn.Launcher.{Attempt, Sent, set_ack_port}
use iiw_udp_gbn.Launcher.Acks.{IsSender, handle_ack_in_order}
use iiw_udp_gbn.Launcher.Events.{handle_ack}
use iiw_udp_gbn.Link.{System}
use iiw_udp_gbn.Link.Acks.{IsSending-base}
use iiw_udp_gbn.Link.Fires.{IsKind}
use iiw_udp_gbn.Link.Heard.{heard-IsLive, waiting-IsLive}
use iiw_udp_gbn.Link.Invariant.{Transfer, IsLinked}
use iiw_udp_gbn.Link.Launches.{IsWaiting, launches, sent_on}
use iiw_udp_gbn.Link.Live.{delivers_data, hears_ack, Runs, stays, runs_on, Runs-trans, IsLive}
use iiw_udp_gbn.Link.Steps.{deliver_packet, heard, moved-IsLinked}
use iiw_udp_gbn.NetworkSampler.{Timespec}
use iiw_udp_gbn.Packet.{Packet}
use iiw_udp_gbn.Packet.RoundTrip.{deserialize-serialize}
use iiw_udp_gbn.Packet.Series.{IsStamped-at}
use iiw_udp_gbn.SendWindow.{queue_len}
use iiw_udp_gbn.SortingTable.{Address}

module _ {A : Type 0} where
  get_elem?-append :
      (xs : List A) (x : A) (ys : List A) → get_elem? (xs ++ x ∷ ys) (length xs) ≡ some x
  get_elem?-append [] x ys = refl
  get_elem?-append (y ∷ xs) x ys = get_elem?-append xs x ys

  single :
      (P : A → Type 0) (xs ys zs : List A)
      → length xs ≡ 1
      → All P xs
      → zs ≡ ys ++ xs
      → (x : A) × P x × (get_elem? zs (length ys) ≡ some x)
  single P [] ys zs count h e = absurd (omega (arith, count))
  single P (x ∷ []) ys zs count h e =
      (x, h.0, ap (λ l. get_elem? l (length ys)) e ∙ get_elem?-append ys x [])
  single P (x ∷ y ∷ xs) ys zs count h e = absurd (omega (arith, count))

-- The network and the system calls are kind; `from` is the sender's address, and `now` what the clock reads.
module _ (x : Transfer) (id : ℕ) (is_id : x.id ≡ pos id) (io : ℕ → Attempt)
    (kind : (i : ℕ) → IsKind x.port (io i)) (from : Address) (now : ℕ → Timespec) where
  base_busy :
      (j k : ℕ) (s : System)
      → IsLinked x j k s
      → k < length x.air
      → is_free s.sender.battery.battery (s.sender.window.base % queue_len) ≡ false
  base_busy j k s v hk =
      let base = IsSending-base x.start (length x.air) j s.sender v.sending in
      let frees = v.sending.valid.valid.ring.frees s.sender.window.base in
      let next = v.sending.next in
      let fits = v.sending.fits in
      let order = v.order in
      let some_room = v.sending.valid.some_room in
      ground (arith, frees, base, next, fits, order, hk, some_room)

  -- The oldest packet is sent and arrives.
  resend :
      (j k : ℕ) (s : System)
      → IsLinked x j k s
      → IsLive s.sender
      → k < length x.air
      → let k' = if j == k then suc k else k in
        (s' : System) × Runs x.port s s'
        × IsLinked x j k' s'
        × IsWaiting s'.sender
        × ((acks : List Ack) × (s'.acks_air ≡ s.acks_air ++ acks)
            × (length acks ≡ (if k' == 0 then 0 else 1))
            × ((p : Packet) × (c : Catcher) × All (IsAckOf x.start (length x.air) k' p c) acks))
  resend j k s v live hk =
      let l = s.sender in
      let busy = base_busy j k s v hk in
      let (p, is_p, (m, e, place, port_small)) = v.pads l.window.base busy in
      let (t, m_in) = IsStamped-at x.start (length x.air) 0 m x.air _ x.stamped e in
      let base = IsSending-base x.start (length x.air) j l v.sending in
      let fits = v.sending.fits in
      let order = v.order in
      let some_room = v.sending.valid.some_room in
      let m_is : m ≡ j = omega (arith, base, place, m_in, hk, order, fits, some_room) in
      let (bytes, written, _, _) = deserialize-serialize (set_ack_port p x.port) [] t.formed in
      let numbered = All-at (λ (q : Packet). q.header.msg_id ≡ x.id) x.air m _ x.numbered e in
      let f =
        launches x id is_id io kind j k p bytes (omega (arith, order, hk)) numbered written s v live
          busy is_p in
      let d : Sent = record { bytes = bytes; entry = x.entry } in
      let s₁ : System = sent_on s f.after d f.more in
      let room = f.linked.sending.valid.some_room in
      let more : s₁.receiver.more ≡ true = v.receiving.more ∙ ground (arith, hk) in
      let (c, acks, caught, w, count, (q, answers)) =
        deliver_packet x j k j s₁ d (set_ack_port p x.port) from f.linked (omega arith)
          (subst (λ i. get_elem? x.air i ≡ some (set_ack_port p x.port)) m_is e) written more in
      (
        record s₁ { receiver = c; acks_air = s₁.acks_air ++ acks },
        runs_on f.runs (
            delivers_data (length s.data_air) d from c acks (get_elem?-append s.data_air d f.more)
              more caught),
        w,
        f.waiting,
        (acks, refl, count, (q, c, answers)),
      )

  -- An acknowledgment that is new arrives, where the message does not go round the end of the array.
  hear_new :
      (j k m : ℕ) (s : System) (a : Ack) (p : Packet) (c : Catcher)
      → IsLinked x j k s
      → j < k
      → x.start + length x.air ≤ queue_len
      → get_elem? s.acks_air m ≡ some a
      → IsAckOf x.start (length x.air) k p c a
      → IsWaiting s.sender
      → (s' : System) × Runs x.port s s' × IsLinked x k k s' × IsLive s'.sender
  hear_new j k m s a p c v new no_wrap at_m is_ack waiting =
      let l = s.sender in
      let (bytes, written, _, _) = deserialize-serialize a.packet [] is_ack.formed in
      let (buf, ran) =
        listen_for_ack_eq l a.packet bytes now is_ack.formed is_ack.bare is_ack.is_ack written in
      let base = IsSending-base x.start (length x.air) j l v.sending in
      let below = v.below in
      let near = v.near in
      let fits = v.sending.fits in
      let in_array : l.window.base ≡ x.start + j = omega (arith, base, new, below, no_wrap) in
      let index : (x.start + k) % queue_len ≡ (l.window.base + (k - j)) % queue_len =
        omega (arith, in_array, new) in
      let (sender, _, _, _, pending) =
        handle_ack_in_order (received l buf) _ (received-IsSender l _ buf v.sending.valid) a.packet
          now (k - j) 0 (omega arith) (omega arith) (omega (arith, new, below))
          (omega (arith, in_array, new, below, no_wrap)) (is_ack.index ∙ ap pos index) in
      (
        record s { sender = heard l buf a now },
        runs_on stays
            (hears_ack m a bytes now (heard l buf a now) waiting.available at_m written ran),
        moved-IsLinked x j k k s a p c now buf v is_ack (omega arith) (omega arith) (omega arith) (
            subst (IsSender (handle_ack (received l buf) a.packet now)) (omega (arith, new))
              sender),
        heard-IsLive l buf a now waiting pending,
      )

  -- A receiver ahead of the window answers a packet that it has, and the window follows it.
  follow :
      (j k : ℕ) (s : System)
      → IsLinked x j k s
      → IsLive s.sender
      → j < k
      → k < length x.air
      → x.start + length x.air ≤ queue_len
      → (s' : System) × Runs x.port s s' × IsLinked x k k s' × IsLive s'.sender
  follow j k s v live behind hk no_wrap =
      let other : (j == k) ≡ false = ground arith in
      let (s₁, r₁, w, waiting, (acks, is_acks, count, (p, c, answers))) = resend j k s v live hk in
      let (a, is_ack, at_a) =
        single (IsAckOf x.start (length x.air) k p c) acks s.acks_air s₁.acks_air
          (rw other at count ∙ ground (arith, behind)) (rw other at answers) is_acks in
      let (s₂, r₂, w₂, live₂) =
        hear_new j k (length s.acks_air) s₁ a p c (rw other at w) behind no_wrap at_a is_ack
          waiting in
      (s₂, Runs-trans x.port s s₁ s₂ r₁ r₂, w₂, live₂)

  -- The receiver gets the packet that it waits for.
  take_next :
      (k : ℕ) (s : System)
      → IsLinked x k k s
      → IsLive s.sender
      → k < length x.air
      → (s' : System) × Runs x.port s s' × IsLinked x k (suc k) s' × IsWaiting s'.sender
  take_next k s v live hk =
      let own : (k == k) ≡ true = ground arith in
      let (s₁, r₁, w, waiting, _) = resend k k s v live hk in (s₁, r₁, rw own at w, waiting)

  advance :
      (j k : ℕ) (s : System)
      → IsLinked x j k s
      → IsLive s.sender
      → k < length x.air
      → x.start + length x.air ≤ queue_len
      → (s' : System) × Runs x.port s s' × IsLinked x k (suc k) s' × IsWaiting s'.sender
  advance j k s v live hk no_wrap = elim (Bool-cases (j == k)) [
    | inl same ↦ take_next k s (subst (λ i. IsLinked x i k s) ((==_iff j k).0 same) v) live hk
    | inr other ↦
        let (s₁, r₁, w₁, live₁) = follow j k s v live (ground (arith, other, v.order)) hk no_wrap in
        let (s₂, r₂, w₂, waiting) = take_next k s₁ w₁ live₁ hk in
        (s₂, Runs-trans x.port s s₁ s₂ r₁ r₂, w₂, waiting)
  ]

  -- All packets but `todo` have arrived.
  finishes :
      (todo j k : ℕ) (s : System)
      → IsLinked x j k s
      → IsWaiting s.sender
      → length x.air - k ≡ todo
      → x.start + length x.air ≤ queue_len
      → (s' : System) × (j' : ℕ) × Runs x.port s s'
        × IsLinked x j' (length x.air) s'
        × IsWaiting s'.sender
  finishes zero j k s v waiting e no_wrap =
      (s, j, stays, subst (λ k'. IsLinked x j k' s) (omega (arith, e, v.below)) v, waiting)
  finishes (suc todo) j k s v waiting e no_wrap =
      let (s₁, r₁, w₁, waiting₁) =
        advance j k s v (waiting-IsLive s.sender waiting) (omega (arith, e)) no_wrap in
      let (s₂, j₂, r₂, w₂, waiting₂) =
        finishes todo k (suc k) s₁ w₁ waiting₁ (omega (arith, e)) no_wrap in
      (s₂, j₂, Runs-trans x.port s s₁ s₂ r₁ r₂, w₂, waiting₂)

  pub completes :
      (j k : ℕ) (s : System)
      → IsLinked x j k s
      → IsLive s.sender
      → k < length x.air
      → x.start + length x.air ≤ queue_len
      → (s' : System) × (j' : ℕ) × Runs x.port s s'
        × IsLinked x j' (length x.air) s'
        × IsWaiting s'.sender
  completes j k s v live hk no_wrap =
      let (s₁, r₁, w₁, waiting₁) = advance j k s v live hk no_wrap in
      let (s₂, j₂, r₂, w₂, waiting₂) =
        finishes (length x.air - suc k) k (suc k) s₁ w₁ waiting₁ refl no_wrap in
      (s₂, j₂, Runs-trans x.port s s₁ s₂ r₁ r₂, w₂, waiting₂)
