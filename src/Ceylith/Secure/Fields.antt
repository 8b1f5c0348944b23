-- ===== src/Ceylith/Secure/Fields.antt =====
-- What the encrypted frame's encoder writes, and what its decoder has read of an accepted input.
use mathlib.Core.List.{append_assoc}
use lirvena.Base.{
  ℕ, ◌+◌, ◌^◌, ◌≤◌, ◌<◌, ◌≡◌, sym, subst, ◌∙◌, ap, true, List, [], ◌∷◌, ◌++◌, length, length-drop,
  length-append, drop, All, arith, ok, err, ensure, and_then, ok_or, ltb, if◌then◌else◌,
}
use lirvena.Base.Words.{u64_max}
use lirvena.Base.Bytes.{
  IsByte, to_be, from_be, length-to_be, from_be-lt, same_bytes, same_bytes_sound,
}
use lirvena.Base.Words.{checked_add}
use lirvena.Ceylith.Frame.{
  WireLimits, enforce_limit, slice, truncated, trailing_bytes, invalid_magic, FrameKind, LengthKind,
  invalid_flags, length_overflow, validate_version, decode_u32_len,
}
use lirvena.Ceylith.Frame.Slices.{IsLimits, drop-slice, length-slice, slice-to_be, slice-bytes}
use lirvena.Ceylith.Secure.{
  SecureFrame, secure_frame_magic, new_frame, sixteen, encode_secure_frame_header,
  encode_secure_frame, decode_secure_frame,
}

-- The header and the bytes of a frame.
abbrev pub header_bytes : SecureFrame → List ℕ
header_bytes f =
    secure_frame_magic
    ++ (to_be 2 2
        ++ (to_be 2 0
            ++ (f.session_id
                ++ (to_be 8 f.counter ++ (f.request_id ++ to_be 4 (length f.ciphertext))))))

layout :
    (input : List ℕ)
    → input
      ≡ slice 0 4 input
        ++ (slice 4 6 input
            ++ (slice 6 8 input
                ++ (slice 8 24 input
                    ++ (slice 24 32 input
                        ++ (slice 32 48 input ++ (slice 48 52 input ++ drop 52 input))))))
layout input =
    drop-slice 0 4 input
    ∙ ap (λ t. slice 0 4 input ++ t)
        (drop-slice 4 2 input
          ∙ ap (λ t. slice 4 6 input ++ t)
              (drop-slice 6 2 input
                ∙ ap (λ t. slice 6 8 input ++ t)
                    (drop-slice 8 16 input
                      ∙ ap (λ t. slice 8 24 input ++ t)
                          (drop-slice 24 8 input
                            ∙ ap (λ t. slice 24 32 input ++ t)
                                (drop-slice 32 16 input
                                  ∙ ap (λ t. slice 32 48 input ++ t) (drop-slice 48 4 input))))))

abbrev Tests : List ℕ → SecureFrame → ℕ → Type 0
Tests input f limit =
    (same_bytes (slice 0 4 input) secure_frame_magic ≡ true)
    × (from_be (slice 4 6 input) ≡ 2)
    × (same_bytes (slice 6 8 input) (0 ∷ 0 ∷ []) ≡ true)
    × (f.session_id ≡ slice 8 24 input)
    × (f.counter ≡ from_be (slice 24 32 input))
    × (f.request_id ≡ slice 32 48 input)
    × (from_be (slice 48 52 input) ≤ limit)
    × (length input ≡ 52 + from_be (slice 48 52 input))
    × (f.ciphertext ≡ drop 52 input)

-- The decoder's tests, of the fields that the input was cut into.
fields_tests :
    (n : ℕ) (magic version flags session counter request size payload : List ℕ)
    (limits : WireLimits) (f : SecureFrame)
    → and_then (if ltb n 52 then err (truncated 52 n) else ok (tt {0})) (λ _.
      and_then (ensure (same_bytes magic secure_frame_magic) (invalid_magic FrameKind.secure)) (λ _.
        and_then (validate_version (from_be version)) (λ _.
          and_then (ensure (same_bytes flags (0 ∷ 0 ∷ [])) invalid_flags) (λ _.
            and_then (sixteen session) (λ session_id. and_then (sixteen request) (λ request_id.
              and_then (decode_u32_len size) (λ declared.
                and_then (enforce_limit LengthKind.ciphertext declared limits.ciphertext) (λ _.
                  and_then (ok_or (checked_add 52 declared) length_overflow) (λ total.
                    and_then
                      (if ltb n total
                        then err (truncated total n)
                        else if ltb total n
                        then err (trailing_bytes total n)
                        else ok (tt {0}))
                      (λ _.
                        new_frame session_id (from_be counter) request_id payload limits))))))))))
      ≡ ok f
    → (same_bytes magic secure_frame_magic ≡ true)
      × (from_be version ≡ 2)
      × (same_bytes flags (0 ∷ 0 ∷ []) ≡ true)
      × (f.session_id ≡ session)
      × (f.counter ≡ from_be counter)
      × (f.request_id ≡ request)
      × (from_be size ≤ limits.ciphertext)
      × (n ≡ 52 + from_be size)
      × (f.ciphertext ≡ payload)
unfolding new_frame enforce_limit
fields_tests n magic version flags session counter request size payload limits f h = ground arith

pub accepted-Tests :
    (input : List ℕ) (limits : WireLimits) (f : SecureFrame)
    → decode_secure_frame input limits ≡ ok f
    → Tests input f limits.ciphertext
unfolding decode_secure_frame
accepted-Tests input limits f h =
    fields_tests (length input) (slice 0 4 input) (slice 4 6 input) (slice 6 8 input)
      (slice 8 24 input) (slice 24 32 input) (slice 32 48 input) (slice 48 52 input) (drop 52 input)
      limits f h

-- The widths that the types of a frame's fields give.
pub record IsFrame (f : SecureFrame) : Type 0 where
  pub session_width : length f.session_id ≡ 16
  pub counter_bound : f.counter ≤ u64_max
  pub request_width : length f.request_id ≡ 16

pub encode_sound :
    (f : SecureFrame) (limits : WireLimits) (bytes : List ℕ)
    → encode_secure_frame f limits ≡ ok bytes
    → (length f.ciphertext ≤ limits.ciphertext) × (bytes ≡ header_bytes f ++ f.ciphertext)
unfolding encode_secure_frame encode_secure_frame_header enforce_limit
encode_sound f limits bytes h = ground arith

pub length-header_bytes : (f : SecureFrame) → IsFrame f → length (header_bytes f) ≡ 52
length-header_bytes f w =
    let size = to_be 4 (length f.ciphertext) in
    let after = to_be 8 f.counter ++ (f.request_id ++ size) in
    let tail = f.session_id ++ after in
    omega (
      arith,
      w.session_width,
      w.request_width,
      length-append (to_be 2 2) (to_be 2 0 ++ tail),
      length-append (to_be 2 0) tail,
      length-append f.session_id after,
      length-append (to_be 8 f.counter) (f.request_id ++ size),
      length-append f.request_id size,
      length-to_be 4 (length f.ciphertext),
      length-to_be 8 f.counter,
      length-to_be 2 2,
      length-to_be 2 0,
    )

pub encode_complete :
    (f : SecureFrame) (limits : WireLimits)
    → IsLimits limits
    → IsFrame f
    → length f.ciphertext ≤ limits.ciphertext
    → encode_secure_frame f limits ≡ ok (header_bytes f ++ f.ciphertext)
unfolding encode_secure_frame encode_secure_frame_header enforce_limit
encode_complete f limits l w h = ground (arith, l.ciphertext_bound, length-header_bytes f w)

-- The same bytes, field by field.
abbrev pub fields_of : SecureFrame → List ℕ
fields_of f =
    secure_frame_magic
    ++ (to_be 2 2
        ++ ((0 ∷ 0 ∷ [])
            ++ (f.session_id
                ++ (to_be 8 f.counter
                    ++ (f.request_id ++ (to_be 4 (length f.ciphertext) ++ f.ciphertext))))))

pub joined : (f : SecureFrame) → header_bytes f ++ f.ciphertext ≡ fields_of f
unfolding to_be
joined f =
    let size = to_be 4 (length f.ciphertext) in
    let after = to_be 8 f.counter ++ (f.request_id ++ size) in
    ap (λ t. secure_frame_magic ++ (to_be 2 2 ++ ((0 ∷ 0 ∷ []) ++ t)))
      (append_assoc f.session_id after f.ciphertext
        ∙ ap (λ t. f.session_id ++ t)
            (append_assoc (to_be 8 f.counter) (f.request_id ++ size) f.ciphertext
              ∙ ap (λ t. to_be 8 f.counter ++ t) (append_assoc f.request_id size f.ciphertext)))

counter_small :
    (input : List ℕ) → 52 ≤ length input → All IsByte input → from_be (slice 24 32 input) ≤ u64_max
counter_small input h a =
    let small : from_be (slice 24 32 input) < 256 ^ 8 =
      subst (λ (n : ℕ). from_be (slice 24 32 input) < 256 ^ n)
        (length-slice 24 8 input (omega arith))
        (from_be-lt (slice 24 32 input) (slice-bytes 24 8 input a)) in
    omega arith

pub accepted_bytes :
    (input : List ℕ) (limits : WireLimits) (f : SecureFrame)
    → All IsByte input
    → Tests input f limits.ciphertext
    → (length f.ciphertext ≤ limits.ciphertext)
      × (input ≡ header_bytes f ++ f.ciphertext)
      × IsFrame f
accepted_bytes input limits f a t =
    let long : 52 ≤ length input = omega (arith, t) in
    let size : length f.ciphertext ≡ from_be (slice 48 52 input) =
      rw (t.8) (omega (arith, t, length-drop 52 input)) in
    let version : slice 4 6 input ≡ to_be 2 2 =
      slice-to_be 4 2 input (omega arith) a ∙ ap (to_be 2) t.1 in
    let counter : slice 24 32 input ≡ to_be 8 f.counter =
      slice-to_be 24 8 input (omega arith) a ∙ ap (to_be 8) (sym t.4) in
    let counted : slice 48 52 input ≡ to_be 4 (length f.ciphertext) =
      slice-to_be 48 4 input (omega arith) a ∙ ap (to_be 4) (sym size) in
    let parts : input ≡ fields_of f =
      layout input
      ∙ rw (
        same_bytes_sound _ _ t.0,
        version,
        same_bytes_sound _ _ t.2,
        ← t.3,
        counter,
        ← t.5,
        counted,
        ← t.8,
      ) in
    (
      omega (arith, t),
      parts ∙ sym (joined f),
      record {
        session_width = rw t.3 (length-slice 8 16 input (omega arith));
        counter_bound = rw t.4 (counter_small input long a);
        request_width = rw t.5 (length-slice 32 16 input (omega arith));
      },
    )
