-- ===== src/Protocol/Text.antt =====
-- The messages of the protocol, and texts in a payload, with the zero at their end or without it.
use iiw_udp_gbn.Base.{
  Bool, true, false, Bool-cases, inl, inr, if◌then◌else◌, ℕ, ◌≡◌, ◌≢◌, refl, List, [], ◌∷◌, some,
  none, arith, ◌==◌, All, if_no, ◌<◌, ◌-◌, ◌^◌, length, length-append,
}
use iiw_udp_gbn.Base.Int.{ℤ, IsInt}
use iiw_udp_gbn.Message.RoundTrip.{IsWellFormed}
use iiw_udp_gbn.Protocol.{
  DmProtocolCommand, unspecified, put, get, list, hs, command_code, op_status_ok, message, c_string,
  payload_string, terminated,
}

-- No byte is a zero.
abbrev pub IsText : List ℕ → Type 0
IsText s = All (λ b. b ≢ 0) s

-- The test for it, which a text computes.
abbrev pub is_text : List ℕ → Bool
is_text [] = true
is_text (b ∷ s) = if b == 0 then false else is_text s

pub is_text-IsText : (s : List ℕ) → is_text s ≡ true → IsText s
is_text-IsText [] h = tt
is_text-IsText (b ∷ s) h = elim (Bool-cases (b == 0)) [
  | inl zero_byte ↦ absurd (ground (arith, rw zero_byte at h))
  | inr other ↦ (ground arith, is_text-IsText s (rw other at h))
]

c_string-terminated : (s : List ℕ) → IsText s → c_string (terminated s) ≡ some s
c_string-terminated [] h = refl
c_string-terminated (b ∷ s) (nz, h) =
    rw (c_string-terminated s h) (if_no (b == 0) _ _ (ground arith))

c_string-none : (s : List ℕ) → IsText s → c_string s ≡ none
c_string-none [] h = refl
c_string-none (b ∷ s) (nz, h) = rw (c_string-none s h) (if_no (b == 0) _ _ (ground arith))

pub payload_string-terminated :
    (s : List ℕ) → IsText s → payload_string (terminated s) ≡ some (some s)
payload_string-terminated [] h = refl
payload_string-terminated (b ∷ s) h = rw (c_string-terminated (b ∷ s) h) refl

pub payload_string-none : (b : ℕ) (s : List ℕ) → IsText (b ∷ s) → payload_string (b ∷ s) ≡ none
payload_string-none b s h = rw (c_string-none (b ∷ s) h) refl

command_code-IsInt : (c : DmProtocolCommand) → IsInt (command_code c)
command_code-IsInt unspecified = omega arith
command_code-IsInt put = omega arith
command_code-IsInt get = omega arith
command_code-IsInt list = omega arith
command_code-IsInt hs = omega arith

pub message-IsWellFormed :
    (c : DmProtocolCommand) (status : ℤ) (payload : List ℕ)
    → IsInt status
    → length payload < 2 ^ 31
    → IsWellFormed (message c status payload)
message-IsWellFormed c status payload h fits = record {
  command = command_code-IsInt c;
  status = h;
  payload_lentgh = fits;
  carried = refl;
}

-- The request for a file, with the block of its name.
abbrev pub IsName : List ℕ → Type 0
IsName name = IsText name × (length name < 2 ^ 31 - 1)

pub request-IsWellFormed :
    (command : DmProtocolCommand) (name : List ℕ)
    → IsName name
    → IsWellFormed (message command op_status_ok (terminated name))
request-IsWellFormed command name (_, h) =
    message-IsWellFormed command _ _ (omega arith) (rw (length-append name (0 ∷ [])) (omega arith))
