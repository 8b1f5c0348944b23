-- ===== src/Wire/Reader/Cursor.antt =====
-- Where the reader's cursor goes, on every branch.
use native.Mathlib.Nat.{le_refl, le_trans}
use lirvena.Base.{
  ℕ, ◌+◌, ◌^◌, ◌≤◌, ◌<◌, ◌≡◌, refl, sym, subst, ◌∙◌, List, [], ◌∷◌, arith, ltb, leb, if◌then◌else◌,
  length, take, drop, get_or, length-take, length-drop, All, All-take, All-drop, Result, ok, err,
  Result-cases, run_on, Bool-cases, inl, inr,
}
use lirvena.Base.Bytes.{IsByte, from_be, from_be-lt}
use lirvena.Wire.Prefix.{
  LengthPrefix, u8_payload, u8_inclusive, u16_payload, u16_inclusive, u32_payload, u32_inclusive,
  width, WireError, truncated, length_limit_exceeded,
}
use lirvena.Wire.Reader.{
  WireReader, remaining, read_bytes, read_u8, read_u16, read_u32, read_declared, payload_length,
  read_prefixed_bytes,
}

-- The cursor is within the input, and the input is a Rust slice of bytes.
pub record IsReader (r : WireReader) : Type 0 where
  pub within : r.cursor ≤ length r.input
  pub sized : length r.input < 2 ^ 63
  pub bytes : All IsByte r.input

-- What every call does to the reader: it leaves the input alone, moves the cursor forward only,
-- and never past the end.
pub record Moves (r s : WireReader) : Type 0 where
  pub same_input : s.input ≡ r.input
  pub forward : r.cursor ≤ s.cursor
  pub inside : s.cursor ≤ length r.input

pub Moves-refl : (r : WireReader) → IsReader r → Moves r r
Moves-refl r h = record { same_input = refl; forward = le_refl r.cursor; inside = h.within }

pub Moves-IsReader : {r s : WireReader} → IsReader r → Moves r s → IsReader s
Moves-IsReader h m = record {
  within = rw (m.same_input) m.inside;
  sized = rw (m.same_input) h.sized;
  bytes = subst (All IsByte) (sym m.same_input) h.bytes;
}

pub Moves-trans : {r s t : WireReader} → Moves r s → Moves s t → Moves r t
Moves-trans {t = t} m n = record {
  same_input = n.same_input ∙ m.same_input;
  forward = le_trans m.forward n.forward;
  inside = subst (λ xs. t.cursor ≤ length xs) m.same_input n.inside;
}

abbrev pub advance : WireReader → ℕ → WireReader
advance r n = record r { cursor = r.cursor + n }

-- Reading within the input succeeds; reading past its end reports both lengths.
pub read_bytes_lem :
    (n : ℕ) (r : WireReader)
    → IsReader r
    → n < 2 ^ 63
    → read_bytes n r ≡ (
        if leb n (remaining r)
        then (ok (take n (drop r.cursor r.input)), advance r n)
        else (err (truncated n (remaining r)), r))
unfolding read_bytes
read_bytes_lem n r h b = ground (arith, h.within, h.sized)

pub read_bytes-Moves : (n : ℕ) (r : WireReader) → IsReader r → Moves r (read_bytes n r).1
unfolding read_bytes
read_bytes-Moves n r h = ground (arith, h.within)

abbrev pub first_word : ℕ → WireReader → ℕ
first_word n r = from_be (take n (drop r.cursor r.input))

pub first_word-lt :
    (n : ℕ) (r : WireReader) → IsReader r → n ≤ remaining r → first_word n r < 256 ^ n
first_word-lt n r h e =
    subst (λ (k : ℕ). first_word n r < 256 ^ k) long
      (from_be-lt (take n (drop r.cursor r.input))
        (All-take IsByte n (drop r.cursor r.input) (All-drop IsByte r.cursor r.input h.bytes)))
  where
    long : length (take n (drop r.cursor r.input)) ≡ n
    long = omega (arith, length-take n (drop r.cursor r.input), length-drop r.cursor r.input)

first_byte : (xs : List ℕ) → get_or (take 1 xs) 0 0 ≡ from_be (take 1 xs)
unfolding from_be
first_byte [] = refl
first_byte (x ∷ xs) = omega arith

-- The prefix is one big-endian number of the prefix's width.
pub read_declared_lem :
    (p : LengthPrefix) (r : WireReader)
    → IsReader r
    → read_declared p r ≡ (
        if leb (width p) (remaining r)
        then (ok (first_word (width p) r), advance r (width p))
        else (err (truncated (width p) (remaining r)), r))
unfolding read_declared read_u8 read_u16 read_u32
read_declared_lem u8_payload r h =
    ground (arith, read_bytes_lem 1 r h (omega arith), first_byte (drop r.cursor r.input))
read_declared_lem u8_inclusive r h =
    ground (arith, read_bytes_lem 1 r h (omega arith), first_byte (drop r.cursor r.input))
read_declared_lem u16_payload r h = ground (arith, read_bytes_lem 2 r h (omega arith))
read_declared_lem u16_inclusive r h = ground (arith, read_bytes_lem 2 r h (omega arith))
read_declared_lem u32_payload r h =
    ground (arith, read_bytes_lem 4 r h (omega arith), first_word-lt 4 r h)
read_declared_lem u32_inclusive r h =
    ground (arith, read_bytes_lem 4 r h (omega arith), first_word-lt 4 r h)

-- After the prefix: the payload's length, its bound and its bytes.
abbrev pub read_payload : LengthPrefix → ℕ → ℕ → WireReader → Result (List ℕ) WireError × WireReader
read_payload p maximum declared s =
    run_on (payload_length p declared, s)
      λ n t. if ltb maximum n then (err (length_limit_exceeded maximum n), t) else read_bytes n t

pub read_prefixed_bytes_lem :
    (p : LengthPrefix) (maximum : ℕ) (r : WireReader)
    → IsReader r
    → read_prefixed_bytes p maximum r ≡ (
        if leb (width p) (remaining r)
        then read_payload p maximum (first_word (width p) r) (advance r (width p))
        else (err (truncated (width p) (remaining r)), r))
unfolding read_prefixed_bytes
read_prefixed_bytes_lem p maximum r h = elim (Bool-cases (leb (width p) (remaining r))) [
  | inl e ↦ rw (read_declared_lem p r h, e)
  | inr e ↦ rw (read_declared_lem p r h, e)
]

pub payload_length-le :
    (p : LengthPrefix) (declared : ℕ) {n : ℕ} → payload_length p declared ≡ ok n → n ≤ declared
payload_length-le u8_payload d h = ground arith
payload_length-le u8_inclusive d h = ground arith
payload_length-le u16_payload d h = ground arith
payload_length-le u16_inclusive d h = ground arith
payload_length-le u32_payload d h = ground arith
payload_length-le u32_inclusive d h = ground arith

pub first_word-small :
    (p : LengthPrefix) (r : WireReader)
    → IsReader r
    → width p ≤ remaining r
    → first_word (width p) r < 2 ^ 63
first_word-small u8_payload r h e = omega (arith, first_word-lt 1 r h e)
first_word-small u8_inclusive r h e = omega (arith, first_word-lt 1 r h e)
first_word-small u16_payload r h e = omega (arith, first_word-lt 2 r h e)
first_word-small u16_inclusive r h e = omega (arith, first_word-lt 2 r h e)
first_word-small u32_payload r h e = omega (arith, first_word-lt 4 r h e)
first_word-small u32_inclusive r h e = omega (arith, first_word-lt 4 r h e)

pub advance-IsReader :
    (r : WireReader) (n : ℕ) → IsReader r → n ≤ remaining r → IsReader (advance r n)
advance-IsReader r n h e = record {
  within = omega (arith, h.within);
  sized = h.sized;
  bytes = h.bytes;
}

read_payload-Moves :
    (p : LengthPrefix) (maximum declared : ℕ) (s : WireReader)
    → IsReader s
    → Moves s (read_payload p maximum declared s).1
read_payload-Moves p maximum declared s h = elim (Result-cases (payload_length p declared)) [
  | inl (n, e) ↦ elim (Bool-cases (ltb maximum n)) [
    | inl over ↦ rw (e, over) (Moves-refl s h)
    | inr fits ↦ rw (e, fits) (read_bytes-Moves n s h)
  ]
  | inr (x, e) ↦ rw e (Moves-refl s h)
]

-- Whatever a prefixed read returns, a reader whose cursor is within the input leaves the input
-- alone, and its cursor has moved forward and stays within the input.
pub read_prefixed_bytes-Moves :
    (p : LengthPrefix) (maximum : ℕ) (r : WireReader)
    → IsReader r
    → Moves r (read_prefixed_bytes p maximum r).1
read_prefixed_bytes-Moves p maximum r h = elim (Bool-cases (leb (width p) (remaining r))) [
  | inl e ↦
      let room : width p ≤ remaining r = ground arith in
      let s = advance r (width p) in
      let step : Moves r s = record {
        same_input = refl;
        forward = omega arith;
        inside = omega (arith, h.within);
      } in
      rw (read_prefixed_bytes_lem p maximum r h, e)
        (Moves-trans step (
          read_payload-Moves p maximum (first_word (width p) r) s
            (advance-IsReader r (width p) h room)))
  | inr e ↦ rw (read_prefixed_bytes_lem p maximum r h, e) (Moves-refl r h)
]
