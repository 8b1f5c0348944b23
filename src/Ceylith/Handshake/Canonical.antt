-- ===== src/Ceylith/Handshake/Canonical.antt =====
-- The handshake decoder accepts exactly what the encoder writes.
use lirvena.Base.{
  ℕ, ◌+◌, ◌≤◌, ◌≡◌, ◌↔◌, refl, sym, ◌∙◌, ap, true, List, ◌∷◌, ◌++◌, length, length-drop, drop,
  get_or, All, arith, ok,
}
use lirvena.Base.Bytes.{IsByte, to_be, from_be, from_be_acc, same_bytes, same_bytes_sound}
use lirvena.Ceylith.Frame.{WireLimits, enforce_limit, slice}
use lirvena.Ceylith.Frame.Slices.{IsLimits, drop_cons, drop-slice, slice-to_be}
use lirvena.Ceylith.Handshake.{
  HandshakeStep, client_hello, server_welcome, step_code, try_step, HandshakeEnvelope,
  handshake_magic, new_envelope, encode_handshake_envelope, decode_handshake_envelope,
}

-- The bytes of an envelope.
abbrev pub envelope_bytes : HandshakeEnvelope → List ℕ
envelope_bytes e =
    handshake_magic
    ++ (to_be 2 2 ++ (step_code e.step ∷ 0 ∷ (to_be 4 (length e.payload) ++ e.payload)))

layout :
    (input : List ℕ)
    → 12 ≤ length input
    → input
      ≡ slice 0 4 input
        ++ (slice 4 6 input
            ++ (get_or input 6 0 ∷ get_or input 7 0 ∷ (slice 8 12 input ++ drop 12 input)))
layout input h =
    drop-slice 0 4 input
    ∙ ap (λ t. slice 0 4 input ++ t)
        (drop-slice 4 2 input
          ∙ ap (λ t. slice 4 6 input ++ t)
              (drop_cons 6 input (omega arith)
                ∙ ap (λ t. get_or input 6 0 ∷ t)
                    (drop_cons 7 input (omega arith)
                      ∙ ap (λ t. get_or input 7 0 ∷ t) (drop-slice 8 4 input))))

step_code_of : (n : ℕ) (s : HandshakeStep) → try_step n ≡ ok s → n ≡ step_code s
step_code_of n client_hello h = ground arith
step_code_of n server_welcome h = ground arith

try-step_code : (s : HandshakeStep) → try_step (step_code s) ≡ ok s
try-step_code client_hello = refl
try-step_code server_welcome = refl

-- What an accepted input was found to hold.
abbrev Header : List ℕ → HandshakeEnvelope → ℕ → Type 0
Header input e limit =
    (slice 0 4 input ≡ handshake_magic)
    × (from_be (slice 4 6 input) ≡ 2)
    × (get_or input 6 0 ≡ step_code e.step)
    × (get_or input 7 0 ≡ 0)
    × (from_be (slice 8 12 input) ≤ limit)
    × (length input ≡ 12 + from_be (slice 8 12 input))
    × (e.payload ≡ drop 12 input)

abbrev Tests : List ℕ → HandshakeEnvelope → ℕ → Type 0
Tests input e limit =
    (same_bytes (slice 0 4 input) handshake_magic ≡ true)
    × (from_be (slice 4 6 input) ≡ 2)
    × (try_step (get_or input 6 0) ≡ ok e.step)
    × (get_or input 7 0 ≡ 0)
    × (from_be (slice 8 12 input) ≤ limit)
    × (length input ≡ 12 + from_be (slice 8 12 input))
    × (e.payload ≡ drop 12 input)

accepted-Tests :
    (input : List ℕ) (limits : WireLimits) (e : HandshakeEnvelope)
    → decode_handshake_envelope input limits ≡ ok e
    → Tests input e limits.handshake_payload
unfolding decode_handshake_envelope new_envelope enforce_limit
accepted-Tests input limits e h = ground arith

accepted-Header :
    (input : List ℕ) (limits : WireLimits) (e : HandshakeEnvelope)
    → decode_handshake_envelope input limits ≡ ok e
    → Header input e limits.handshake_payload
accepted-Header input limits e h =
    let t = accepted-Tests input limits e h in
    (same_bytes_sound _ _ t.0, t.1, step_code_of _ _ t.2, t.3, t.4, t.5, t.6)

encode_sound :
    (e : HandshakeEnvelope) (limits : WireLimits) (bytes : List ℕ)
    → encode_handshake_envelope e limits ≡ ok bytes
    → (length e.payload ≤ limits.handshake_payload) × (bytes ≡ envelope_bytes e)
unfolding encode_handshake_envelope enforce_limit
encode_sound e limits bytes h = ground arith

encode_complete :
    (e : HandshakeEnvelope) (limits : WireLimits)
    → IsLimits limits
    → length e.payload ≤ limits.handshake_payload
    → encode_handshake_envelope e limits ≡ ok (envelope_bytes e)
unfolding encode_handshake_envelope enforce_limit
encode_complete e limits l h = ground (arith, l.handshake_bound)

accepted_bytes :
    (input : List ℕ) (limits : WireLimits) (e : HandshakeEnvelope)
    → All IsByte input
    → Header input e limits.handshake_payload
    → (length e.payload ≤ limits.handshake_payload) × (input ≡ envelope_bytes e)
accepted_bytes input limits e a h =
    let long : 12 ≤ length input = omega (arith, h) in
    let size : length e.payload ≡ from_be (slice 8 12 input) =
      rw (h.6) (omega (arith, h, length-drop 12 input)) in
    let version : slice 4 6 input ≡ to_be 2 2 =
      slice-to_be 4 2 input (omega arith) a ∙ ap (to_be 2) h.1 in
    let counted : slice 8 12 input ≡ to_be 4 (length e.payload) =
      slice-to_be 8 4 input (omega arith) a ∙ ap (to_be 4) (sym size) in
    (omega (arith, h), layout input long ∙ rw (h.0, version, h.2, h.3, counted, ← h.6))

decoded_bytes :
    (e : HandshakeEnvelope) (limits : WireLimits)
    → IsLimits limits
    → length e.payload ≤ limits.handshake_payload
    → decode_handshake_envelope (envelope_bytes e) limits ≡ ok e
unfolding decode_handshake_envelope new_envelope enforce_limit to_be from_be from_be_acc same_bytes
decoded_bytes e limits l h = ground (arith, l.handshake_bound, try-step_code e.step)

-- Under limits within the compiled bounds, the decoder accepts an input of bytes exactly when it
-- is the encoding of the envelope that it returns.
pub decode_iff-encode_handshake_envelope :
    (e : HandshakeEnvelope) (limits : WireLimits) (input : List ℕ)
    → IsLimits limits
    → All IsByte input
    → (decode_handshake_envelope input limits ≡ ok e)
      ↔ (encode_handshake_envelope e limits ≡ ok input)
decode_iff-encode_handshake_envelope e limits input l a = (forth, back)
  where
    forth :
        decode_handshake_envelope input limits ≡ ok e
        → encode_handshake_envelope e limits ≡ ok input
    forth h =
        let (fits, same) = accepted_bytes input limits e a (accepted-Header input limits e h) in
        rw same (encode_complete e limits l fits)

    back :
        encode_handshake_envelope e limits ≡ ok input
        → decode_handshake_envelope input limits ≡ ok e
    back h =
        let (fits, same) = encode_sound e limits input h in rw same (decoded_bytes e limits l fits)
