-- ===== src/Link/Steps.antt =====
-- The steps of the system, one by one.
use mathlib.Core.Path.{subst}
use iiw_udp_gbn.Base.{
  ℕ, zero, suc, ◌+◌, ◌-◌, ◌%◌, ◌<◌, ◌≤◌, ◌≡◌, refl, sym, ap, ◌∙◌, true, false, List, [], ◌∷◌, ◌++◌,
  some, arith, length, get_elem?, All, All-append, All-at, All-mono, All-take, inl, inr, some_eq,
  if◌then◌else◌, ◌==◌,
}
use iiw_udp_gbn.Catcher.{datagram, Catcher, Ack, catch}
use iiw_udp_gbn.Catcher.Acks.{IsAckOf, catch_packet-IsAckOf}
use iiw_udp_gbn.Catcher.Prefix.{catch-IsPacketAt}
use iiw_udp_gbn.Gbn.Feedback.{received, listen_for_ack_eq}
use iiw_udp_gbn.Launcher.{Launcher, Sent, packet_timed_out}
use iiw_udp_gbn.Launcher.Acks.{IsSender, notify_launcher-pending}
use iiw_udp_gbn.Launcher.Events.{listen_for_ack, handle_ack}
use iiw_udp_gbn.Launcher.Reachable.{handle_ack-IsSortingTable}
use iiw_udp_gbn.Link.{
  System, Step, handles, delivers, hears, forgets, drops, rings, wakes, Reaches, here, on,
}
use iiw_udp_gbn.Link.Acked.{handle_ack-OnlyFrees, handle_ack-table}
use iiw_udp_gbn.Link.Acks.{handle_ack-IsSending}
use iiw_udp_gbn.Link.Invariant.{
  Transfer, IsAckUpTo, IsSentBelow, IsLinked, with_sender, Holds-frees, handles-IsLinked,
}
use iiw_udp_gbn.NetworkSampler.{Timespec}
use iiw_udp_gbn.Packet.{Packet, serialize_packet}
use iiw_udp_gbn.SendWindow.{queue_len}
use iiw_udp_gbn.SortingTable.{Address, get_from_sorting_table}

-- The launcher that listenForAcks leaves for the acknowledgment `a`.
abbrev pub heard : Launcher → List ℕ → Ack → (ℕ → Timespec) → Launcher
heard l buf a now = record (handle_ack (received l buf) a.packet now) { signals_blocked = false }

module _ (x : Transfer) where
  IsAckOf-IsAckUpTo :
      (k : ℕ) (p : Packet) (c : Catcher) (acks : List Ack)
      → length acks ≡ (if k == 0 then 0 else 1)
      → All (IsAckOf x.start (length x.air) k p c) acks
      → All (IsAckUpTo x k) acks
  IsAckOf-IsAckUpTo zero p c [] count h = tt
  IsAckOf-IsAckUpTo zero p c (a ∷ acks) count h = absurd (omega (arith, count))
  IsAckOf-IsAckUpTo (suc k) p c acks count h =
      All-mono (IsAckOf x.start (length x.air) (suc k) p c) (IsAckUpTo x (suc k))
        (λ a is_ack. (suc k, p, c, omega arith, omega arith, is_ack)) acks h

  -- A datagram with one of the packets that were sent, at a receiver that still listens.
  pub deliver_packet :
      (j k i : ℕ) (s : System) (d : Sent) (q : Packet) (from : Address)
      → IsLinked x j k s
      → i < j + s.sender.winsize
      → get_elem? x.air i ≡ some q
      → serialize_packet q ≡ some d.bytes
      → s.receiver.more ≡ true
      → let k' = if i == k then suc k else k in
        (c : Catcher) × (acks : List Ack) × (catch s.receiver (datagram d.bytes from)
          ≡ some (c, acks))
        × IsLinked x j k' (record s { receiver = c; acks_air = s.acks_air ++ acks })
        × (length acks ≡ (if k' == 0 then 0 else 1))
        × ((p : Packet) × All (IsAckOf x.start (length x.air) k' p c) acks)
  deliver_packet j k i s d q from v sent_in at_i written more =
      let small : length x.air ≤ 1024 = omega (arith, v.sending.fits) in
      let hk : k < length x.air = ground (arith, more, v.receiving.more) in
      let (p, filled, e, is_catch, at) =
        catch-IsPacketAt x.start x.air x.stamped small k i s.receiver d.bytes from v.receiving
          (q, at_i, written) in
      let (c, acks, ran, at', answers, count) =
        catch_packet-IsAckOf x.start x.air k i filled p from at x.stamped e small hk in
      let k' = if i == k then suc k else k in
      let fresh = IsAckOf-IsAckUpTo k' p c acks count answers in
      (
        c,
        acks,
        is_catch ∙ ran,
        record {
          sending = v.sending;
          pads = v.pads;
          table = v.table;
          known = v.known;
          out = v.out;
          receiving = at';
          acks =
              All-append (IsAckUpTo x k') s.acks_air acks
                (All-mono (IsAckUpTo x k) (IsAckUpTo x k')
                  (λ a (k₁, p₁, c₁, some_k, up, is_ack). (k₁, p₁, c₁, some_k, ground arith, is_ack))
                  s.acks_air v.acks)
                fresh;
          order = ground (arith, v.order);
          below = ground arith;
          near = ground (arith, sent_in, v.near);
        },
        count,
        (p, answers),
      )

  delivers-IsLinked :
      (j k : ℕ) (s : System) (m : ℕ) (d : Sent) (from : Address) (c : Catcher) (acks : List Ack)
      → IsLinked x j k s
      → get_elem? s.data_air m ≡ some d
      → s.receiver.more ≡ true
      → catch s.receiver (datagram d.bytes from) ≡ some (c, acks)
      → (k' : ℕ) × IsLinked x j k' (record s { receiver = c; acks_air = s.acks_air ++ acks })
        × (k ≤ k')
  delivers-IsLinked j k s m d from c acks v at_m more run =
      let (i, sent_in, q, at_i, written) =
        All-at (IsSentBelow x (j + s.sender.winsize)) s.data_air m d v.out at_m in
      let (c', acks', ran, w, _, _) = deliver_packet j k i s d q from v sent_in at_i written more in
      let k' = if i == k then suc k else k in
      (
        k',
        subst
            (λ (r : Catcher × List Ack).
              IsLinked x j k' (record s { receiver = r.0; acks_air = s.acks_air ++ r.1 }))
            (some_eq (sym ran ∙ run)) w,
        ground arith,
      )

  -- An acknowledgment of the first k' packets that was taken.
  pub moved-IsLinked :
      (j k k' : ℕ) (s : System) (a : Ack) (p : Packet) (c : Catcher) (now : ℕ → Timespec)
      (buf : List ℕ)
      → IsLinked x j k s
      → IsAckOf x.start (length x.air) k' p c a
      → 0 < k'
      → j ≤ k'
      → k' ≤ k
      → IsSender (handle_ack (received s.sender buf) a.packet now) (queue_len - length x.air + k')
      → IsLinked x k' k (record s { sender = heard s.sender buf a now })
  moved-IsLinked j k k' s a p c now buf v is_ack some_k order up valid =
      let l = received s.sender buf in
      let l' = handle_ack l a.packet now in
      let (frees, next, size) = handle_ack-OnlyFrees l a.packet now in
      let fits = v.sending.fits in
      let some_room = v.sending.valid.some_room in
      let below = v.below in
      let moved : IsLinked x k' k (record s { sender = l' }) = record {
        sending = record {
          valid = valid;
          next = next ∙ v.sending.next;
          fits = rw size v.sending.fits;
          below = omega (arith, up, v.below);
        };
        pads = Holds-frees x l.battery.battery l'.battery.battery frees v.pads;
        table = handle_ack-IsSortingTable l a.packet now v.table;
        known = λ h.
            ap (λ t. get_from_sorting_table t x.id)
              (handle_ack-table l a.packet now ((x.start + k') % queue_len)
                ((x.start + length x.air - 1) % queue_len) is_ack.index is_ack.end_index
                (λ e. omega (arith, e, h)) (omega arith))
            ∙ v.known (omega (arith, order, h));
        out = rw size (
            All-mono (IsSentBelow x (j + l.winsize)) (IsSentBelow x (k' + l.winsize))
              (λ d (i, sent_in, q, e, written). (i, omega (arith, sent_in, order), q, e, written))
              s.data_air v.out);
        receiving = v.receiving;
        acks = v.acks;
        order = up;
        below = v.below;
        near = rw size (omega (arith, v.near, order));
      } in
      with_sender x k' k (record s { sender = l' }) _ moved refl refl refl refl

  heard-IsLinked :
      (j k : ℕ) (s : System) (a : Ack) (now : ℕ → Timespec) (buf : List ℕ)
      → IsLinked x j k s
      → IsAckUpTo x k a
      → (j' : ℕ) × IsLinked x j' k (record s { sender = heard s.sender buf a now }) × (j ≤ j')
  heard-IsLinked j k s a now buf v (k', p, c, some_k, up, is_ack) =
      let l = received s.sender buf in
      let got : IsLinked x j k (record s { sender = l }) =
        with_sender x j k s l v refl refl refl refl in
      let l' = handle_ack l a.packet now in
      elim (handle_ack-IsSending x.start (length x.air) j k' l a.packet now got.sending is_ack.index
        some_k (omega (arith, up, v.below))) [
          | inl same ↦ (
            j,
            with_sender x j k (record s { sender = l' }) _ (rw same got) refl refl refl refl,
            omega arith,
          )
          | inr (order, valid) ↦
              (k', moved-IsLinked j k k' s a p c now buf v is_ack some_k order up valid, order)
        ]

  hears-IsLinked :
      (j k : ℕ) (s : System) (m : ℕ) (a : Ack) (bytes : List ℕ) (now : ℕ → Timespec) (l : Launcher)
      → IsLinked x j k s
      → get_elem? s.acks_air m ≡ some a
      → serialize_packet a.packet ≡ some bytes
      → listen_for_ack s.sender bytes now ≡ some l
      → (j' : ℕ) × IsLinked x j' k (record s { sender = l }) × (j ≤ j')
  hears-IsLinked j k s m a bytes now l v at_m written run =
      let is_ours = All-at (IsAckUpTo x k) s.acks_air m a v.acks at_m in
      let (k', p, c, some_k, up, is_ack) = is_ours in
      let (buf, ran) =
        listen_for_ack_eq s.sender a.packet bytes now is_ack.formed is_ack.bare is_ack.is_ack
          written in
      let (j', w, more) = heard-IsLinked j k s a now buf v is_ours in
      (
        j',
        subst (λ l'. IsLinked x j' k (record s { sender = l' })) (some_eq (sym ran ∙ run)) w,
        more,
      )

  pub Step-IsLinked :
      (j k : ℕ) (s s' : System)
      → IsLinked x j k s
      → Step x.port s s'
      → (j' : ℕ) × (k' : ℕ) × IsLinked x j' k' s' × (j ≤ j') × (k ≤ k')
  Step-IsLinked j k s s' v (handles event io l ds bound run) =
      (j, k, handles-IsLinked x j k s event io l ds v bound run, omega arith, omega arith)
  Step-IsLinked j k s s' v (delivers m d from c acks at_m more run) =
      let (k', w, up) = delivers-IsLinked j k s m d from c acks v at_m more run in
      (j, k', w, omega arith, up)
  Step-IsLinked j k s s' v (hears m a bytes now l at_m written run) =
      let (j', w, up) = hears-IsLinked j k s m a bytes now l v at_m written run in
      (j', k, w, up, omega arith)
  Step-IsLinked j k s s' v (forgets m) = (
    j,
    k,
    record {
      sending = v.sending;
      pads = v.pads;
      table = v.table;
      known = v.known;
      out = v.out;
      receiving = v.receiving;
      acks = All-take (IsAckUpTo x k) m s.acks_air v.acks;
      order = v.order;
      below = v.below;
      near = v.near;
    },
    omega arith,
    omega arith,
  )
  Step-IsLinked j k s s' v (drops rest) =
      (j, k, with_sender x j k s _ v refl refl refl refl, omega arith, omega arith)
  Step-IsLinked j k s s' v rings = (
    j,
    k,
    rw (notify_launcher-pending s.sender packet_timed_out)
        (with_sender x j k s _ v refl refl refl refl),
    omega arith,
    omega arith,
  )
  Step-IsLinked j k s s' v wakes =
      (j, k, with_sender x j k s _ v refl refl refl refl, omega arith, omega arith)

  pub Reaches-IsLinked :
      (j k : ℕ) (s s' : System)
      → IsLinked x j k s
      → Reaches x.port s s'
      → (j' : ℕ) × (k' : ℕ) × IsLinked x j' k' s' × (j ≤ j') × (k ≤ k')
  Reaches-IsLinked j k s s' v here = (j, k, v, omega arith, omega arith)
  Reaches-IsLinked j k s s' v (on {t} r step) =
      let (j₁, k₁, w, up₁, more₁) = Reaches-IsLinked j k s t v r in
      let (j₂, k₂, w', up₂, more₂) = Step-IsLinked j₁ k₁ t s' w step in
      (j₂, k₂, w', omega (arith, up₁, up₂), omega (arith, more₁, more₂))
