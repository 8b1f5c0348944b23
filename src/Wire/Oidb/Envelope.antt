-- ===== src/Wire/Oidb/Envelope.antt =====
-- The envelope's round trip and its bounds.
use lirvena.Base.{
  ℕ, ◌≤◌, ◌<◌, ◌≡◌, ◌≢◌, ◌⊎◌, inl, inr, refl, false, ◌||◌, List, [], ◌∷◌, ltb, ◌==◌, length, ok,
  err, arith, Bool-cases,
}
use lirvena.Base.Int.{ℤ}
use lirvena.Wire.Oidb.{
  Prost, OidbWire, OidbRequestFrame, oidb_frame_error, validate_command_and_body, encode_request,
  encode_oidb_request, encode_empty_oidb_request, decode_oidb_request, max_oidb_body_bytes,
}

module _ (prost : Prost) (command subcommand : ℕ) (reserved : ℤ) where
  abbrev wire : List ℕ → OidbWire
  wire body = record {
    command = command;
    subcommand = subcommand;
    error_code = 0;
    body = body;
    error_message = [];
    reserved = reserved;
  }

  abbrev frame : List ℕ → OidbRequestFrame
  frame body = record {
    command = command;
    subcommand = subcommand;
    body = body;
    reserved = reserved;
  }

  accepted :
      (body : List ℕ)
      → 0 < command
      → length body ≤ max_oidb_body_bytes
      → validate_command_and_body command body ≡ ok tt
  unfolding validate_command_and_body
  accepted body c b = ground arith

  decode_request :
      (body : List ℕ)
      → 0 < command
      → length body ≤ max_oidb_body_bytes
      → decode_oidb_request prost (encode_request prost command subcommand body reserved)
        ≡ ok (frame body)
  unfolding encode_request decode_oidb_request
  decode_request body c b =
      let small : ltb 2101504 (length (prost.encode_to_vec (wire body))) ≡ false =
        ground (arith, prost.length-encode (wire body), prost.text_len-nil) in
      rw (small, prost.decode-encode (wire body), accepted body c b)

  -- A request is encoded so that it decodes to the same frame, or it is refused: exactly when the
  -- command is zero, or the body empty or over the limit.
  encode_oidb_request_outcome :
      (body : List ℕ)
      → ((bytes : List ℕ) × (encode_oidb_request prost command subcommand body reserved ≡ ok bytes)
          × (decode_oidb_request prost bytes ≡ ok (frame body))
          × (0 < command)
          × (body ≢ [])
          × (length body ≤ max_oidb_body_bytes))
        ⊎ ((encode_oidb_request prost command subcommand body reserved ≡ err oidb_frame_error)
            × ((command ≡ 0) ⊎ (body ≡ []) ⊎ (max_oidb_body_bytes < length body)))
  unfolding encode_oidb_request validate_command_and_body
  encode_oidb_request_outcome [] = inr (ground arith, inr (inl refl))
  encode_oidb_request_outcome (x ∷ body) =
      elim (Bool-cases (command == 0 || ltb max_oidb_body_bytes (length (x ∷ body)))) [
        | inl e ↦ inr (rw e, ground arith)
        | inr e ↦
            let live : 0 < command = ground arith in
            let fits : length (x ∷ body) ≤ max_oidb_body_bytes = ground arith in
            inl (
              encode_request prost command subcommand (x ∷ body) reserved,
              rw e,
              decode_request (x ∷ body) live fits,
              live,
              (λ nil. cc nil),
              fits,
            )
      ]

  -- The request with an empty inner message round trips for every command but zero.
  pub encode_empty_oidb_request_decodes :
      0 < command
      → (bytes : List ℕ) × (encode_empty_oidb_request prost command subcommand reserved ≡ ok bytes)
        × (decode_oidb_request prost bytes ≡ ok (frame []))
  unfolding encode_empty_oidb_request
  encode_empty_oidb_request_decodes live = (
    encode_request prost command subcommand [] reserved,
    rw (accepted [] live (omega arith)),
    decode_request [] live (omega arith),
  )

-- A request frame that is accepted has a live command and a bounded body.
pub decode_oidb_request_bounds :
    (prost : Prost) (input : List ℕ) (f : OidbRequestFrame)
    → decode_oidb_request prost input ≡ ok f
    → (0 < f.command) × (length f.body ≤ max_oidb_body_bytes)
unfolding decode_oidb_request validate_command_and_body
decode_oidb_request_bounds prost input f h = ground arith
