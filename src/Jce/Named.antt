-- ===== src/Jce/Named.antt =====
-- crates/qq-online/src/push/jce/mod.rs: the payload of a parameter, by its name and its type.
use lirvena.Base.{
  ℕ, zero, suc, Bool, true, false, not, ◌&&◌, ◌==◌, if◌then◌else◌, Option, none, some, List, Result,
  ok, err, and_then, run_on,
}
use lirvena.Base.Bytes.{same_bytes}
use lirvena.Jce.{
  OnlinePacketError, packet_error, Reading, new, head, string, bytes, collection_count, skip,
  max_named_values,
}
use lirvena.Jce.Kind

-- A head and the string behind it.
abbrev pub headed_string : Reading (List ℕ)
headed_string r = run_on (head r) λ h r. string h.kind r

abbrev pub headed_bytes : Reading (List ℕ)
headed_bytes r = run_on (head r) λ h r. bytes h.kind r

-- The inner loop: `wanted` tells whether the key is the parameter's name.
unfoldable pub find_type : ℕ → Bool → List ℕ → Reading (Option (List ℕ))
find_type zero wanted type_name r = (ok none, r)
find_type (suc n) wanted type_name r = run_on (headed_string r) λ current_type r.
    run_on (headed_bytes r) λ body r. elim (wanted && same_bytes current_type type_name) [
      | true ↦ (ok (some body), r)
      | false ↦ find_type n wanted type_name r
    ]

-- The outer loop.
unfoldable pub find_named : ℕ → List ℕ → List ℕ → Reading (Option (List ℕ))
find_named zero parameter_name type_name r = (ok none, r)
find_named (suc n) parameter_name type_name r = run_on (headed_string r) λ key r.
    run_on (head r) λ value r. elim (value.kind == Kind.map) [
      | false ↦ run_on (skip value.kind 0 r) λ _ r. find_named n parameter_name type_name r
      | true ↦ run_on (collection_count max_named_values r) λ count r.
          run_on (find_type count (same_bytes key parameter_name) type_name r) λ found r.
            elim found [
              | some body ↦ (ok (some body), r)
              | none ↦ find_named n parameter_name type_name r
            ]
    ]

unfoldable pub read_named : List ℕ → List ℕ → Reading (Option (List ℕ))
read_named parameter_name type_name r = run_on (head r) λ h r.
    if not (h.kind == Kind.map)
    then (err packet_error, r)
    else (run_on (collection_count max_named_values r)
        λ n r. find_named n parameter_name type_name r)

unfoldable pub named_payload : List ℕ → List ℕ → List ℕ → Result (List ℕ) OnlinePacketError
named_payload input parameter_name type_name =
    and_then (read_named parameter_name type_name (new input)).0
      λ found. elim found [ none ↦ err packet_error | some body ↦ ok body ]
