-- ===== src/Envelope/Marked.antt =====
-- crates/qq-envelope/src/marked.rs: the account identity that is inserted into a reserve. An offset
-- into the reserve is kept as the bytes from there on. The loop over the fields runs on as many turns
-- as there are bytes, which is enough because each field takes one.
use lirvena.Base.{
  ℕ, zero, suc, ◌+◌, ◌-◌, ◌*◌, ◌/◌, ◌%◌, ◌≡◌, Bool, ltb, leb, ◌==◌, ◌||◌, ◌&&◌, not, if◌then◌else◌,
  List, [], ◌∷◌, ◌++◌, length, drop, take, is_empty, Result, ok, err, and_then, ok_or, Option, none,
  some, ensure, and_then_ok, take-append-drop,
}
use lirvena.Base.Words.{u32_max, try_from}
use lirvena.Envelope.{EnvelopeError, invalid_field}
use lirvena.Envelope.Varint.{read_varint, put_varint}

abbrev account_identity_field : ℕ
account_identity_field = 16

abbrev max_identity_len : ℕ
max_identity_len = 256

-- The bytes from `length` on, when there are as many.
unfoldable skip_bytes : ℕ → List ℕ → Result (List ℕ) EnvelopeError
skip_bytes n encoded = if leb n (length encoded) then ok (drop n encoded) else err invalid_field

unfoldable skip_field : ℕ → List ℕ → Result (List ℕ) EnvelopeError
skip_field wire_type encoded =
    if wire_type == 0
    then and_then (read_varint encoded) (λ read. ok read.1)
    else if wire_type == 1
    then skip_bytes 8 encoded
    else if wire_type == 2
    then and_then (read_varint encoded) (λ read. skip_bytes read.0 read.1)
    else if wire_type == 5
    then skip_bytes 4 encoded
    else err invalid_field

unfoldable insertion_from : ℕ → ℕ → ℕ → ℕ → List ℕ → Result ℕ EnvelopeError
insertion_from turns total target insertion [] = ok insertion
insertion_from zero total target insertion (byte ∷ rest) = err invalid_field
insertion_from (suc turns) total target insertion (byte ∷ rest) =
    let field_start = total - length (byte ∷ rest) in
    and_then (read_varint (byte ∷ rest)) λ read.
      and_then (ok_or (try_from u32_max (read.0 / 8)) invalid_field) λ number.
        and_then (ensure (not (number == 0 || number == target)) invalid_field) λ _.
          and_then (skip_field (read.0 % 8) read.1) λ behind.
            insertion_from turns total target
              (if ltb target number && insertion == total then field_start else insertion) behind

unfoldable insertion_offset : List ℕ → ℕ → Result ℕ EnvelopeError
insertion_offset encoded target =
    insertion_from (length encoded) (length encoded) target (length encoded) encoded

-- `char::is_control` of the characters of a text is the parameter `is_control`.
unfoldable validate_account_identity : (List ℕ → Bool) → List ℕ → Result (Unit {0}) EnvelopeError
validate_account_identity is_control value =
    if is_empty value || ltb max_identity_len (length value) || is_control value
    then err invalid_field
    else ok tt

unfoldable identity_field : List ℕ → List ℕ
identity_field value =
    put_varint (account_identity_field * 8 + 2) ++ put_varint (length value) ++ value

unfoldable attach_account_identity :
    (List ℕ → Bool) → List ℕ → List ℕ → Result (List ℕ) EnvelopeError
attach_account_identity is_control reserve account_identity =
    and_then (validate_account_identity is_control account_identity) λ _.
      and_then (insertion_offset reserve account_identity_field) λ insertion.
        ok (take insertion reserve ++ identity_field account_identity ++ drop insertion reserve)

record EnvelopeMark : Type 0 where
  slot : ℕ
  value : List ℕ

record MarkedFields : Type 0 where
  third : List ℕ
  first : List ℕ
  second : List ℕ

record ReserveFields : Type 0 where
  locale : Option ℕ
  new_connection : Option ℕ
  correlation : Option (List ℕ)
  account_identity : Option (List ℕ)
  subscriber_identity : Option ℕ
  network : Option ℕ
  address_stack : Option ℕ
  marked : Option MarkedFields
  core_version : Option ℕ

abbrev compiled_contract : ℕ
compiled_contract = 77

abbrev max_correlation_len : ℕ
max_correlation_len = 128

-- The three entries of `values`, in the order of REQUIRED_SLOTS.
record Values : Type 0 where
  first : Option (List ℕ)
  second : Option (List ℕ)
  third : Option (List ℕ)

-- `replace(..).is_some()` fails on an entry that was taken.
abbrev replaced : Option (List ℕ) → List ℕ → Result (Option (List ℕ)) EnvelopeError
replaced none value = ok (some value)
replaced (some old) value = err invalid_field

unfoldable place_mark : EnvelopeMark → Values → Result Values EnvelopeError
place_mark mark values =
    if mark.slot == 1
    then and_then (replaced values.first mark.value)
        (λ v. ok (record { first = v; second = values.second; third = values.third }))
    else if mark.slot == 2
    then and_then (replaced values.second mark.value)
        (λ v. ok (record { first = values.first; second = v; third = values.third }))
    else if mark.slot == 3
    then and_then (replaced values.third mark.value)
        (λ v. ok (record { first = values.first; second = values.second; third = v }))
    else err invalid_field

unfoldable place_marks : List EnvelopeMark → Values → Result Values EnvelopeError
place_marks [] values = ok values
place_marks (mark ∷ marks) values = and_then (place_mark mark values) (place_marks marks)

-- Each field of a reserve that goes with the client's identity.
abbrev then_some : Bool → ℕ → Option ℕ
then_some b v = if b then some v else none

unfoldable reserve_fields : List ℕ → List ℕ → Bool → Option MarkedFields → ReserveFields
reserve_fields correlation account_identity include_identity marked = record {
  locale = then_some include_identity 2052;
  new_connection = then_some include_identity 1;
  correlation = some correlation;
  account_identity = some account_identity;
  subscriber_identity = then_some include_identity 0;
  network = then_some include_identity 1;
  address_stack = then_some include_identity 1;
  marked = marked;
  core_version = then_some include_identity 100;
}

-- `let [Some(first), Some(second), Some(third)] = values else`, and the test of the third.
unfoldable marked_fields : Values → Result MarkedFields EnvelopeError
marked_fields values = and_then (ok_or values.first invalid_field) λ first.
    and_then (ok_or values.second invalid_field) λ second.
      and_then (ok_or values.third invalid_field) λ third.
        if is_empty third
        then err invalid_field
        else ok (record { third = third; first = first; second = second })

-- The protobuf library enters as the parameter `encode_to_vec`.
module _ (encode_to_vec : ReserveFields → List ℕ) where
  unfoldable encode_marked_reserve :
      ℕ → List EnvelopeMark → List ℕ → List ℕ → Bool → Result (List ℕ) EnvelopeError
  encode_marked_reserve contract marks correlation account_identity include_identity =
      if not (contract == compiled_contract)
        || not (length marks == 3)
        || is_empty correlation
        || ltb max_correlation_len (length correlation)
        || is_empty account_identity
        || ltb max_identity_len (length account_identity)
      then err invalid_field
      else and_then (place_marks marks (record { first = none; second = none; third = none }))
          λ values. and_then (marked_fields values) λ marked. ok (
            encode_to_vec
              (reserve_fields correlation account_identity include_identity (some marked)))

  -- `random_correlation` is the parameter `correlation`, which fails without entropy.
  unfoldable encode_account_reserve :
      (List ℕ → Bool)
      → Result (List ℕ) EnvelopeError
      → List ℕ
      → Bool
      → Result (List ℕ) EnvelopeError
  encode_account_reserve is_control correlation account_identity include_identity =
      and_then (validate_account_identity is_control account_identity) λ _.
        and_then correlation
          λ value. ok (encode_to_vec (reserve_fields value account_identity include_identity none))

-- What is attached leaves the reserve around it as it was.
attach_account_identity-keeps :
    (is_control : List ℕ → Bool) (reserve identity out : List ℕ)
    → attach_account_identity is_control reserve identity ≡ ok out
    → (n : ℕ) × (out ≡ take n reserve ++ identity_field identity ++ drop n reserve)
      × (take n reserve ++ drop n reserve ≡ reserve)
unfolding attach_account_identity
attach_account_identity-keeps is_control reserve identity out h =
    let (_, _, later) = and_then_ok (validate_account_identity is_control identity) _ out h in
    let (n, _, made) = and_then_ok (insertion_offset reserve account_identity_field) _ out later in
    (n, cc, take-append-drop n reserve)
