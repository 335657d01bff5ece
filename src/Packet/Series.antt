-- ===== src/Packet/Series.antt =====
-- The packets of one message as they travel: stamped with consecutive indexes of the ring.
use mathlib.Core.Path.{subst, subst₂}
use mathlib.Core.List.{append-nil, append_assoc}
use iiw_udp_gbn.Base.{
  ℕ, zero, suc, ◌+◌, ◌-◌, ◌%◌, ◌<◌, ◌≤◌, ◌≡◌, ap, ◌∙◌, false, List, [], ◌∷◌, ◌++◌, some, arith,
  length, take, get_elem?, ◌==◌, some_eq,
}
use iiw_udp_gbn.Base.Int.{pos}
use iiw_udp_gbn.Packet.{Packet, calc_max_data_len}
use iiw_udp_gbn.Packet.Packetize.{payload}
use iiw_udp_gbn.Packet.RoundTrip.{IsWellFormed}

-- 1024 pads; `start` is the pad of the first of the `n` packets, and `i` the place of this one.
pub record IsStamped (start n i : ℕ) (p : Packet) : Type 0 where
  pub not_ack : p.header.is_ack ≡ false
  pub is_first : p.header.is_first ≡ (i == 0)
  pub index : p.header.index ≡ pos ((start + i) % 1024)
  pub end_index : p.header.end_index ≡ pos ((start + n - 1) % 1024)
  pub queue_len : p.header.queue_len ≡ pos 1024
  pub formed : IsWellFormed p
  pub short : length p.content ≤ calc_max_data_len

abbrev pub AreStamped : ℕ → ℕ → ℕ → List Packet → Type 0
AreStamped start n i [] = Unit
AreStamped start n i (p ∷ ps) = IsStamped start n i p × AreStamped start n (i + 1) ps

-- A place of the series has a packet only below its length, and that packet is stamped for it.
pub IsStamped-at :
    (start n i k : ℕ) (ps : List Packet) (p : Packet)
    → AreStamped start n i ps
    → get_elem? ps k ≡ some p
    → IsStamped start n (i + k) p × (k < length ps)
IsStamped-at start n i k [] p s e = cc
IsStamped-at start n i zero (x ∷ ps) p s e =
    (subst₂ (IsStamped start n) (omega arith) (some_eq e) s.0, omega arith)
IsStamped-at start n i (suc k) (x ∷ ps) p s e =
    let (t, below) = IsStamped-at start n (i + 1) k ps p s.1 e in
    (subst (λ j. IsStamped start n j p) (omega arith) t, omega arith)

pub payload-take-suc :
    (k : ℕ) (ps : List Packet) (p : Packet)
    → get_elem? ps k ≡ some p
    → payload (take (suc k) ps) ≡ payload (take k ps) ++ p.content
payload-take-suc k [] p e = cc
payload-take-suc zero (x ∷ ps) p e =
    append-nil x.content ∙ ap (λ (o : Packet). o.content) (some_eq e)
payload-take-suc (suc k) (x ∷ ps) p e =
    rw append_assoc (ap (λ l. x.content ++ l) (payload-take-suc k ps p e))
