-- ===== src/Envelope/Reply.antt =====
-- The replies that a peer may send, described on their own, and what the reader makes of them.
use mathlib.Core.List.{append-nil}
use lirvena.Base.{
  ℕ, ◌+◌, ◌^◌, ◌<◌, ◌≤◌, ◌≡◌, refl, sym, ap, true, false, ◌||◌, ◌==◌, ltb, if◌then◌else◌, List, [],
  ◌++◌, length, length-append, is_empty, All, arith, ok, err, run_on_ok,
}
use lirvena.Base.Bytes.{IsByte, to_be, length-to_be}
use lirvena.Base.Int.{signed}
use lirvena.Base.Text.{is_utf8}
use lirvena.Wire.Prefix.{u32_inclusive}
use lirvena.Wire.Reader.{
  WireReader, remaining, read_u32, read_i32, read_bytes, read_prefixed_bytes, finish,
}
use lirvena.Wire.Reader
use lirvena.Envelope.{invalid_field, max_packet_len, wired}
use lirvena.Envelope.Sso.{
  SsoResponse, SsoHeader, max_command_len, max_response_extension_len, read_text, read_extension,
  read_header, accept_header, read_parts, decode_sso_response,
}
use lirvena.Envelope.Layout.{field}
use lirvena.Envelope.Reads.{
  Reads, Reads-then, Reads-last, Reads-u32, Reads-i32, Reads-field, Reads-all, Reads-end,
  new-IsReader, length-rest,
}

-- `return_code` and `compression` are the words on the wire.
pub record Reply : Type 0 where
  pub sequence : ℕ
  pub return_code : ℕ
  pub extra : List ℕ
  pub command : List ℕ
  pub message_cookie : List ℕ
  pub compression : ℕ
  pub reserve : List ℕ
  pub extension : List ℕ
  pub payload : List ℕ

abbrev pub reply_header : Reply → List ℕ
reply_header p =
    to_be 4 p.sequence
    ++ (to_be 4 p.return_code
        ++ (field p.extra
            ++ (field p.command
                ++ (field p.message_cookie
                    ++ (to_be 4 p.compression ++ (field p.reserve ++ p.extension))))))

abbrev pub reply_layout : Reply → List ℕ
reply_layout p = field (reply_header p) ++ field p.payload

abbrev pub response_of : Reply → SsoResponse
response_of p = record {
  sequence = p.sequence;
  return_code = signed 32 p.return_code;
  command = p.command;
  extra = p.extra;
  reserve = p.reserve;
  extension = p.extension;
  payload = p.payload;
}

-- The fields are within their bounds, the texts are UTF-8, and the compression is a known one.
pub record IsReply (p : Reply) : Type 0 where
  pub sequence : (1 ≤ p.sequence) × (p.sequence < 2 ^ 32)
  pub return_code : p.return_code < 2 ^ 32
  pub extra : (length p.extra ≤ 4096) × (is_utf8 p.extra ≡ true)
  pub command : (length p.command ≤ 128) × (is_utf8 p.command ≡ true) × (is_empty p.command ≡ false)
  pub message_cookie : length p.message_cookie ≤ 4096
  pub compression : (p.compression < 2 ^ 31) × ((p.compression == 0 || p.compression == 4) ≡ true)
  pub reserve : length p.reserve ≤ 65536
  pub extension : length p.extension ≤ 4096
  pub payload : length p.payload ≤ max_packet_len
  pub bytes : All IsByte (reply_layout p)
  pub header_bytes : All IsByte (reply_header p)

Reads-text :
    (maximum : ℕ) (xs rest : List ℕ)
    → length xs ≤ maximum
    → maximum ≤ max_packet_len
    → is_utf8 xs ≡ true
    → Reads (read_text maximum) (field xs) xs rest
unfolding read_text
Reads-text maximum xs rest b m u r h e =
    let got = Reads-field maximum xs rest b m r h e in
    let step =
      run_on_ok (wired (read_prefixed_bytes u32_inclusive maximum r))
        (λ bytes r. if is_utf8 bytes then (ok bytes, r) else (err invalid_field, r)) xs
        got.result in
    rw (step, u) (record { result = refl; left = got.left; valid = got.valid })

Reads-extension : (xs : List ℕ) → length xs ≤ 4096 → Reads read_extension xs xs []
unfolding read_extension
Reads-extension xs b r h e =
    let size : remaining r ≡ length xs =
      omega (arith, length-append xs [], ap length e, length-rest r) in
    let admitted : ltb max_response_extension_len (remaining r) ≡ false = ground (arith, size) in
    rw admitted (Reads-end xs xs (λ (x : List ℕ). x) (Reads-all xs) r h e)

-- What the header's reads return.
abbrev header_of : Reply → SsoHeader
header_of p = record {
  sequence = p.sequence;
  return_code = signed 32 p.return_code;
  extra = p.extra;
  command = p.command;
  message_cookie = p.message_cookie;
  compression = signed 32 p.compression;
  reserve = p.reserve;
  extension = p.extension;
}

Reads-header : (p : Reply) → IsReply p → Reads read_header (reply_header p) (header_of p) []
unfolding read_header
Reads-header p v =
    Reads-then _ (to_be 4 p.sequence) _ [] p.sequence (header_of p)
      (Reads-u32 p.sequence _ v.sequence.1)
      (Reads-then _ (to_be 4 p.return_code) _ [] (signed 32 p.return_code) (header_of p)
        (Reads-i32 p.return_code _ v.return_code)
        (Reads-then _ (field p.extra) _ [] p.extra (header_of p)
          (Reads-text 4096 p.extra _ v.extra.0 (omega arith) v.extra.1)
          (Reads-then _ (field p.command) _ [] p.command (header_of p)
            (Reads-text max_command_len p.command _ v.command.0 (omega arith) v.command.1)
            (Reads-then _ (field p.message_cookie) _ [] p.message_cookie (header_of p)
              (Reads-field 4096 p.message_cookie _ v.message_cookie (omega arith))
              (Reads-then _ (to_be 4 p.compression) _ [] (signed 32 p.compression) (header_of p)
                (Reads-i32 p.compression _ (omega (arith, v.compression.0)))
                (Reads-then _ (field p.reserve) p.extension [] p.reserve (header_of p)
                  (Reads-field 65536 p.reserve _ v.reserve (omega arith))
                  (Reads-last p.extension [] p.extension _
                    (Reads-extension p.extension v.extension))))))))

Reads-parts :
    (header payload : List ℕ)
    → length header ≤ max_packet_len
    → length payload ≤ max_packet_len
    → Reads read_parts (field header ++ field payload) (header, payload) []
unfolding read_parts
Reads-parts header payload h k =
    Reads-then _ (field header) (field payload) [] header (header, payload)
      (Reads-field max_packet_len header _ h (omega arith))
      (Reads-end {B = List ℕ × List ℕ} (field payload) payload (λ (x : List ℕ). (header, x))
        (Reads-field max_packet_len payload [] k (omega arith)))

pub length-field : (xs : List ℕ) → length (field xs) ≡ 4 + length xs
length-field xs = omega (arith, length-append (to_be 4 _) xs, length-to_be 4 _)

length-header :
    (p : Reply)
    → length (reply_header p)
      ≡ 28
        + length p.extra
        + length p.command
        + length p.message_cookie
        + length p.reserve
        + length p.extension
length-header p = grind (arith, length-append, length-to_be)

accept_header_good :
    (p : Reply) → IsReply p → accept_header p.payload (header_of p) ≡ ok (response_of p)
unfolding accept_header
accept_header_good p v = ground (arith, v.sequence.0, v.command.2, v.compression.0, v.compression.1)

-- A reply that a peer lays out within the bounds is read back field by field.
pub decode_sso_response-reply :
    (p : Reply) → IsReply p → decode_sso_response (reply_layout p) ≡ ok (response_of p)
unfolding decode_sso_response
decode_sso_response-reply p v =
    let short : length (reply_header p) ≤ 80000 =
      omega (
        arith,
        length-header p,
        v.extra.0,
        v.command.0,
        v.message_cookie,
        v.reserve,
        v.extension,
      ) in
    let size : length (reply_layout p) < 2 ^ 63 = omega (
      arith,
      length-append (field (reply_header p)) (field p.payload),
      length-field (reply_header p),
      length-field p.payload,
      v.payload,
    ) in
    let parts =
      Reads-parts (reply_header p) p.payload (omega (arith, short)) v.payload
        (Reader.new (reply_layout p)) (new-IsReader (reply_layout p) size v.bytes)
        (sym (append-nil (reply_layout p))) in
    let header =
      Reads-header p v (Reader.new (reply_header p))
        (new-IsReader (reply_header p) (omega (arith, short)) v.header_bytes)
        (sym (append-nil (reply_header p))) in
    rw (parts.result, header.result) (accept_header_good p v)
