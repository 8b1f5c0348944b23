-- ===== src/Wire/RoundTrip.antt =====
-- What the writer writes, the reader reads.
use mathlib.Core.List.{append_assoc}
use lirvena.Base.{
  ℕ, ◌+◌, ◌^◌, ◌≤◌, ◌<◌, ◌≡◌, refl, sym, ap, subst, ◌∙◌, List, ◌++◌, arith, length, take, drop,
  length-append, ok, All, All-append, take-append_left, drop-append_left,
}
use lirvena.Base.Bytes.{IsByte, to_be, from_be, from_be-to_be, length-to_be, to_be-bytes}
use lirvena.Wire.Prefix.{
  LengthPrefix, u8_payload, u8_inclusive, u16_payload, u16_inclusive, u32_payload, u32_inclusive,
  width,
}
use lirvena.Wire.Reader.{payload_length, read_prefixed_bytes}
use lirvena.Wire.Reader.Fields.{read_prefixed_bytes_iff}
use lirvena.Wire.Writer.{WireWriter, put_prefixed_bytes}
use lirvena.Wire.Writer.Bounds.{
  IsWriter, prefix_max, announced, encoded, put_prefixed_bytes_accepts,
}

announced-lt : (p : LengthPrefix) (n : ℕ) → n ≤ prefix_max p → n < 256 ^ width p
announced-lt u8_payload n h = omega arith
announced-lt u8_inclusive n h = omega arith
announced-lt u16_payload n h = omega arith
announced-lt u16_inclusive n h = omega arith
announced-lt u32_payload n h = omega arith
announced-lt u32_inclusive n h = omega arith

payload_length-announced :
    (p : LengthPrefix) (bytes : List ℕ) → payload_length p (announced p bytes) ≡ ok (length bytes)
payload_length-announced u8_payload bytes = ground arith
payload_length-announced u8_inclusive bytes = ground arith
payload_length-announced u16_payload bytes = ground arith
payload_length-announced u16_inclusive bytes = ground arith
payload_length-announced u32_payload bytes = ground arith
payload_length-announced u32_inclusive bytes = ground arith

take_at {ℓ} : {A : Type ℓ} (k : ℕ) (xs ys : List A) → length xs ≡ k → take k (xs ++ ys) ≡ xs
take_at k xs ys h = subst (λ (n : ℕ). take n (xs ++ ys) ≡ xs) h (take-append_left xs ys)

drop_at {ℓ} : {A : Type ℓ} (k : ℕ) (xs ys : List A) → length xs ≡ k → drop k (xs ++ ys) ≡ ys
drop_at k xs ys h = subst (λ (n : ℕ). drop n (xs ++ ys) ≡ ys) h (drop-append_left xs ys)

module _ (p : LengthPrefix) (before bytes rest : List ℕ) where
  input : List ℕ
  input = (before ++ encoded p bytes) ++ rest

  input_at_field : input ≡ before ++ (to_be (width p) (announced p bytes) ++ (bytes ++ rest))
  unfolding input
  input_at_field =
      append_assoc before (encoded p bytes) rest
      ∙ ap (◌++◌ before) (append_assoc (to_be (width p) (announced p bytes)) bytes rest)

  input_at_payload : input ≡ (before ++ to_be (width p) (announced p bytes)) ++ (bytes ++ rest)
  input_at_payload =
      input_at_field
      ∙ sym (append_assoc before (to_be (width p) (announced p bytes)) (bytes ++ rest))

  head_at : take (width p) (drop (length before) input) ≡ to_be (width p) (announced p bytes)
  head_at =
      rw
        (
          input_at_field,
          drop-append_left before (to_be (width p) (announced p bytes) ++ (bytes ++ rest)),
        )
        (take_at (width p) (to_be (width p) (announced p bytes)) (bytes ++ rest)
          (length-to_be (width p) (announced p bytes)))

  payload_at : take (length bytes) (drop (length before + width p) input) ≡ bytes
  payload_at =
      rw
        (
          input_at_payload,
          drop_at (length before + width p) (before ++ to_be (width p) (announced p bytes))
              (bytes ++ rest)
              (omega (
                arith,
                length-append before (to_be (width p) (announced p bytes)),
                length-to_be (width p) (announced p bytes),
              )),
        )
        (take-append_left bytes rest)

  length-input : length input ≡ length before + width p + length bytes + length rest
  length-input =
      ap length input_at_payload
      ∙ omega (
        arith,
        length-append (before ++ to_be (width p) (announced p bytes)) (bytes ++ rest),
        length-append before (to_be (width p) (announced p bytes)),
        length-append bytes rest,
        length-to_be (width p) (announced p bytes),
      )

  input-bytes : All IsByte before → All IsByte bytes → All IsByte rest → All IsByte input
  unfolding input
  input-bytes a b c =
      All-append IsByte (before ++ encoded p bytes) rest
        (All-append IsByte before (encoded p bytes) a (
          All-append IsByte (to_be (width p) (announced p bytes)) bytes
            (to_be-bytes (width p) (announced p bytes)) b))
        c

  read_field :
      (maximum : ℕ)
      → All IsByte before
      → All IsByte bytes
      → All IsByte rest
      → length before + width p + length bytes + length rest < 2 ^ 63
      → length bytes ≤ maximum
      → announced p bytes ≤ prefix_max p
      → read_prefixed_bytes p maximum (record { input = input; cursor = length before })
        ≡ (ok bytes, record { input = input; cursor = length before + (width p + length bytes) })
  read_field maximum a b c size fits small =
      (read_prefixed_bytes_iff p maximum (record { input = input; cursor = length before }) bytes
          (record { input = input; cursor = length before + (width p + length bytes) })
          (record {
            within = omega (arith, length-input);
            sized = omega (arith, length-input);
            bytes = input-bytes a b c;
          })).1
        (record {
          bounded = fits;
          declared =
              ap (λ xs. payload_length p (from_be xs)) head_at
              ∙ (ap (payload_length p)
                    (from_be-to_be (width p) (announced p bytes) (announced-lt p _ small))
                  ∙ payload_length-announced p bytes);
          payload = sym payload_at;
          room = omega (arith, length-input);
          moved = refl;
        })

-- A field that was written successfully is read back, whatever stands before it and follows it,
-- and the reader then stands where the writer stood. The bytes are bytes, their number is that of
-- a Rust slice, and the reader's bound admits the payload.
pub read-put_prefixed_bytes :
    (p : LengthPrefix) (bytes rest : List ℕ) (maximum : ℕ) (w v : WireWriter)
    → IsWriter w
    → All IsByte w.output
    → All IsByte bytes
    → All IsByte rest
    → length v.output + length rest < 2 ^ 63
    → length bytes < 2 ^ 63
    → length bytes ≤ maximum
    → put_prefixed_bytes p bytes w ≡ (ok tt, v)
    → read_prefixed_bytes p maximum (record { input = v.output ++ rest; cursor = length w.output })
      ≡ (ok bytes, record { input = v.output ++ rest; cursor = length v.output })
unfolding input
read-put_prefixed_bytes p bytes rest maximum w v h a b c size long fits e =
    let (small, room, end) = put_prefixed_bytes_accepts p bytes w h long v e in
    let field = encoded p bytes in
    let grown : length (w.output ++ field) ≡ length w.output + (width p + length bytes) = omega (
      arith,
      length-append w.output field,
      length-append (to_be (width p) (announced p bytes)) bytes,
      length-to_be (width p) (announced p bytes),
    ) in
    let size' : length (w.output ++ field) + length rest < 2 ^ 63 =
      subst (λ (u : WireWriter). length u.output + length rest < 2 ^ 63) end size in
    subst
      (λ (u : WireWriter).
        read_prefixed_bytes p maximum
          (record { input = u.output ++ rest; cursor = length w.output })
        ≡ (ok bytes, record { input = u.output ++ rest; cursor = length u.output }))
      (sym end)
      (read_field p w.output bytes rest maximum a b c (omega arith) fits small
        ∙ ap (λ (k : ℕ). (ok bytes, record { input = (w.output ++ field) ++ rest; cursor = k }))
            (sym grown))
