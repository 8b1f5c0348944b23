-- ===== src/Ceylith/Secure/Canonical.antt =====
-- The encrypted frame's decoder accepts exactly what its encoder writes.
use lirvena.Base.{
  ℕ, ◌+◌, ◌≤◌, ◌≡◌, ◌↔◌, refl, subst, false, List, [], ◌∷◌, ◌++◌, length, length-append, drop, All,
  arith, ok, ltb, some,
}
use lirvena.Base.Bytes.{IsByte, to_be, from_be, from_be-to_be, length-to_be, same_bytes_refl}
use lirvena.Base.Words.{checked_add}
use lirvena.Ceylith.Frame.{WireLimits, enforce_limit, slice}
use lirvena.Ceylith.Frame.Slices.{IsLimits, slice_at}
use lirvena.Ceylith.Secure.{
  SecureFrame, secure_frame_magic, new_frame, encode_secure_frame, decode_secure_frame,
}
use lirvena.Ceylith.Secure.Fields.{
  header_bytes, accepted-Tests, length-header_bytes, encode_complete, encode_sound, IsFrame, joined,
  accepted_bytes, fields_of,
}

abbrev Cut : List ℕ → SecureFrame → Type 0
Cut input f =
    (slice 0 4 input ≡ secure_frame_magic)
    × (slice 4 6 input ≡ to_be 2 2)
    × (slice 6 8 input ≡ 0 ∷ 0 ∷ [])
    × (slice 8 24 input ≡ f.session_id)
    × (slice 24 32 input ≡ to_be 8 f.counter)
    × (slice 32 48 input ≡ f.request_id)
    × (slice 48 52 input ≡ to_be 4 (length f.ciphertext))
    × (drop 52 input ≡ f.ciphertext)

fields-Cut : (f : SecureFrame) → IsFrame f → Cut (fields_of f) f
fields-Cut f w =
    let input = fields_of f in
    let a = slice_at 0 4 input secure_frame_magic _ refl refl in
    let b = slice_at 4 2 input (to_be 2 2) _ a.1 (length-to_be 2 2) in
    let c = slice_at 6 2 input (0 ∷ 0 ∷ []) _ b.1 refl in
    let d = slice_at 8 16 input f.session_id _ c.1 w.session_width in
    let e = slice_at 24 8 input (to_be 8 f.counter) _ d.1 (length-to_be 8 f.counter) in
    let g = slice_at 32 16 input f.request_id _ e.1 w.request_width in
    let n =
      slice_at 48 4 input (to_be 4 (length f.ciphertext)) _ g.1
        (length-to_be 4 (length f.ciphertext)) in
    (a.0, b.0, c.0, d.0, e.0, g.0, n.0, n.1)

-- An input that is cut into the fields of a frame is decoded to that frame.
Cut-decodes :
    (input : List ℕ) (f : SecureFrame) (limits : WireLimits)
    → Cut input f
    → length input ≡ 52 + length f.ciphertext
    → IsLimits limits
    → IsFrame f
    → length f.ciphertext ≤ limits.ciphertext
    → decode_secure_frame input limits ≡ ok f
unfolding decode_secure_frame new_frame enforce_limit
Cut-decodes input f limits c n l w h =
    let version : from_be (to_be 2 2) ≡ 2 = from_be-to_be 2 2 (omega arith) in
    let counter : from_be (to_be 8 f.counter) ≡ f.counter =
      from_be-to_be 8 f.counter (omega (arith, w.counter_bound)) in
    let size : from_be (to_be 4 (length f.ciphertext)) ≡ length f.ciphertext =
      from_be-to_be 4 (length f.ciphertext) (omega (arith, l.ciphertext_bound)) in
    let header : ltb (52 + length f.ciphertext) 52 ≡ false = ground arith in
    let bounded : ltb limits.ciphertext (length f.ciphertext) ≡ false = ground arith in
    let total : checked_add 52 (length f.ciphertext) ≡ some (52 + length f.ciphertext) =
      ground (arith, l.ciphertext_bound) in
    let exact : ltb (52 + length f.ciphertext) (52 + length f.ciphertext) ≡ false = ground arith in
    rw (
      c.0,
      c.1,
      c.2,
      c.3,
      c.4,
      c.5,
      c.6,
      c.7,
      version,
      counter,
      size,
      w.session_width,
      w.request_width,
      n,
      length-to_be 4 (length f.ciphertext),
      same_bytes_refl secure_frame_magic,
      same_bytes_refl (0 ∷ 0 ∷ []),
      header,
      bounded,
      total,
      exact,
    )

decoded_fields :
    (f : SecureFrame) (limits : WireLimits)
    → IsLimits limits
    → IsFrame f
    → length f.ciphertext ≤ limits.ciphertext
    → decode_secure_frame (fields_of f) limits ≡ ok f
decoded_fields f limits l w h =
    Cut-decodes (fields_of f) f limits (fields-Cut f w)
      (subst (λ (t : List ℕ). length t ≡ 52 + length f.ciphertext) (joined f)
        (omega (arith, length-append (header_bytes f) f.ciphertext, length-header_bytes f w)))
      l w h

decoded_bytes :
    (f : SecureFrame) (limits : WireLimits)
    → IsLimits limits
    → IsFrame f
    → length f.ciphertext ≤ limits.ciphertext
    → decode_secure_frame (header_bytes f ++ f.ciphertext) limits ≡ ok f
decoded_bytes f limits l w h = rw (joined f) (decoded_fields f limits l w h)

-- Under limits within the compiled bounds, the frame decoder accepts an input of bytes exactly
-- when it is the encoding of the frame that it returns and that frame has identifiers of sixteen
-- bytes and a counter of 64 bits.
pub decode_iff-encode_secure_frame :
    (f : SecureFrame) (limits : WireLimits) (input : List ℕ)
    → IsLimits limits
    → All IsByte input
    → (decode_secure_frame input limits ≡ ok f)
      ↔ (IsFrame f × (encode_secure_frame f limits ≡ ok input))
decode_iff-encode_secure_frame f limits input l a = (forth, back)
  where
    forth :
        decode_secure_frame input limits ≡ ok f
        → IsFrame f × (encode_secure_frame f limits ≡ ok input)
    forth h =
        let (fits, same, w) = accepted_bytes input limits f a (accepted-Tests input limits f h) in
        (w, rw same (encode_complete f limits l w fits))

    back :
        IsFrame f × (encode_secure_frame f limits ≡ ok input)
        → decode_secure_frame input limits ≡ ok f
    back (w, h) =
        let (fits, same) = encode_sound f limits input h in
        rw same (decoded_bytes f limits l w fits)
