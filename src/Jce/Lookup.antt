-- ===== src/Jce/Lookup.antt =====
-- What the lookup of a named payload returns.
use mathlib.Core.List.{append_assoc}
use lirvena.Base.{
  Bool-cases, Option-cases, inl, inr, ap, ◌∙◌, if◌then◌else◌, ◌∷◌, ℕ, suc, ◌^◌, ◌<◌, ◌≤◌, ◌≡◌, refl,
  sym, Bool, true, false, ◌&&◌, Option, none, some, List, [], ◌++◌, length, arith, Result, ok, err,
  run_on,
}
use lirvena.Base.Bytes.{same_bytes}
use lirvena.Base.Int.{pos}
use lirvena.Jce.Written.{Value, kind_of, body_of, IsValue, kind_of-lt}
use lirvena.Jce.Skip.{Reads-skip_levels}
use lirvena.Jce.Named.{find_type, find_named, read_named, named_payload}
use lirvena.Jce.{OnlinePacketError, packet_error, new, skip, max_named_values}
use lirvena.Jce.Kind
use lirvena.Jce.Cursor.{Reads, Reads-then}
use lirvena.Jce.RoundTrip.{head_bytes, field_of, Reads-head}
use lirvena.Jce.Strings.{Reads-count}
use lirvena.Jce.Parameters.{
  Parameter, string_layout, payload_layout, types_layout, parameters_layout, named_layout,
  first_type, or_else, first_named, AreTypes, AreParameters, typed, other,
}
use lirvena.Jce.Gives.{
  Reads-headed_string, Reads-headed_bytes, Gives, Gives-then, Gives-last, Gives-at,
}

-- What the inner loop is to find.
abbrev seen : Bool → List ℕ → List (List ℕ × List ℕ) → Option (List ℕ)
seen wanted type_name types = if wanted then first_type type_name types else none

seen_hit :
    (wanted : Bool) (type_name name body b : List ℕ) (types : List (List ℕ × List ℕ))
    → (wanted && same_bytes name type_name) ≡ true
    → seen wanted type_name ((name, body) ∷ types) ≡ some body
seen_hit wanted type_name name body b types h = ground arith

seen_miss :
    (wanted : Bool) (type_name name body : List ℕ) (types : List (List ℕ × List ℕ))
    → (wanted && same_bytes name type_name) ≡ false
    → seen wanted type_name ((name, body) ∷ types) ≡ seen wanted type_name types
seen_miss wanted type_name name body types h = ground arith

module _ (wanted : Bool) (type_name : List ℕ) where
  Reads-missing :
      (types : List (List ℕ × List ℕ)) (rest : List ℕ)
      → AreTypes types
      → seen wanted type_name types ≡ none
      → Reads (find_type (length types) wanted type_name) (types_layout types) none rest
  unfolding find_type
  Reads-missing [] rest a n = λ r h e. record { result = refl; left = e; valid = h }
  Reads-missing ((name, body) ∷ types) rest ((t, b), a) n =
      elim (Bool-cases (wanted && same_bytes name type_name)) [
        | inl hit ↦ absurd (ground (arith, seen_hit wanted type_name name body body types hit))
        | inr miss ↦
            Reads-then _ (string_layout name) (payload_layout body ++ types_layout types) rest name
              none (Reads-headed_string name _ t.0 t.1)
              (Reads-then _ (payload_layout body) (types_layout types) rest body none
                (Reads-headed_bytes body _ b)
                (rw miss (
                  Reads-missing types rest a
                    (sym (seen_miss wanted type_name name body types miss) ∙ n))))
      ]

  Gives-found :
      (types : List (List ℕ × List ℕ)) (rest found : List ℕ)
      → AreTypes types
      → seen wanted type_name types ≡ some found
      → Gives (find_type (length types) wanted type_name) (types_layout types ++ rest) (some found)
  unfolding find_type
  Gives-found [] rest found a s = absurd (ground arith)
  Gives-found ((name, body) ∷ types) rest found ((t, b), a) s =
      let there : types_layout ((name, body) ∷ types) ++ rest
          ≡ string_layout name ++ (payload_layout body ++ (types_layout types ++ rest)) =
        append_assoc (string_layout name) (payload_layout body ++ types_layout types) rest
        ∙ ap (λ zs. string_layout name ++ zs)
            (append_assoc (payload_layout body) (types_layout types) rest) in
      Gives-at (find_type (suc (length types)) wanted type_name) _ _ (some found) there (
        Gives-then _ (string_layout name) (payload_layout body ++ (types_layout types ++ rest)) name
          (some found) (Reads-headed_string name _ t.0 t.1)
          (Gives-then _ (payload_layout body) (types_layout types ++ rest) body (some found)
            (Reads-headed_bytes body _ b)
            (elim (Bool-cases (wanted && same_bytes name type_name)) [
              | inl hit ↦
                  rw hit
                    (λ r h e. ap ok (sym (seen_hit wanted type_name name body body types hit) ∙ s))
              | inr miss ↦ rw miss (
                  Gives-found types rest found a
                    (sym (seen_miss wanted type_name name body types miss) ∙ s))
            ])))

unnested :
    (key : List ℕ) (kind : ℕ) (xs ys rest : List ℕ)
    → (string_layout key ++ (head_bytes 0 kind ++ (xs ++ ys))) ++ rest
      ≡ string_layout key ++ (head_bytes 0 kind ++ (xs ++ (ys ++ rest)))
unnested key kind xs ys rest =
    append_assoc (string_layout key) (head_bytes 0 kind ++ (xs ++ ys)) rest
    ∙ ap (λ zs. string_layout key ++ zs)
        (append_assoc (head_bytes 0 kind) (xs ++ ys) rest
          ∙ ap (λ zs. head_bytes 0 kind ++ zs) (append_assoc xs ys rest))

Reads-skip :
    (v : Value) (rest : List ℕ) → IsValue v → Reads (skip (kind_of v) 0) (body_of v) tt rest
unfolding skip
Reads-skip v rest h = Reads-skip_levels 23 v rest h

module _ (parameter_name type_name : List ℕ) where
  abbrev Finds : List Parameter → List ℕ → Type 0
  Finds parameters rest =
      Gives (find_named (length parameters) parameter_name type_name)
        (parameters_layout parameters ++ rest) (first_named parameter_name type_name parameters)

  -- The inner loop of a parameter, and the outer loop behind it.
  Gives-types :
      (wanted : Bool) (types : List (List ℕ × List ℕ)) (parameters : List Parameter) (rest : List ℕ)
      (n : ℕ) (later : Option (List ℕ))
      → AreTypes types
      → Gives (find_named n parameter_name type_name) rest later
      → Gives
          (λ r. run_on (find_type (length types) wanted type_name r) λ found r. elim found [
            | some body ↦ (ok (some body), r)
            | none ↦ find_named n parameter_name type_name r
          ])
          (types_layout types ++ rest)
          (or_else (seen wanted type_name types) later)
  Gives-types wanted types parameters rest n later a p =
      elim (Option-cases (seen wanted type_name types)) [
        | inl e ↦ rw e (
            Gives-then _ (types_layout types) rest none later
              (Reads-missing wanted type_name types rest a e) p)
        | inr (b, e) ↦ rw e (
            Gives-last _ _ _ (some b) (some b) (Gives-found wanted type_name types rest b a e)
              (λ r. refl))
      ]

  Gives-named :
      (parameters : List Parameter) (rest : List ℕ)
      → AreParameters parameters
      → Finds parameters rest
  unfolding find_named
  Gives-named [] rest a = λ r h e. refl
  Gives-named ((key, typed types) ∷ parameters) rest ((t, (n, c)), a) =
      let later = parameters_layout parameters ++ rest in
      let count = field_of 0 (pos (length types)) in
      let there : parameters_layout ((key, typed types) ∷ parameters) ++ rest
          ≡ string_layout key
            ++ (head_bytes 0 Kind.map ++ (count ++ (types_layout types ++ later))) =
        unnested key Kind.map (count ++ types_layout types) (parameters_layout parameters) rest
        ∙ ap (λ zs. string_layout key ++ (head_bytes 0 Kind.map ++ zs))
            (append_assoc count (types_layout types) later) in
      Gives-at (find_named (suc (length parameters)) parameter_name type_name) _ _
        (first_named parameter_name type_name ((key, typed types) ∷ parameters)) there
        (Gives-then _ (string_layout key) _ key _ (Reads-headed_string key _ t.0 t.1) (
          Gives-then _ (head_bytes 0 Kind.map) _ (record { tag = 0; kind = Kind.map }) _
            (Reads-head 0 Kind.map _ (omega arith) (omega arith))
            (Gives-then _ count _ (length types) _
              (Reads-count max_named_values (length types) _ n (omega (arith, n)))
              (Gives-types (same_bytes key parameter_name) types parameters later
                (length parameters) (first_named parameter_name type_name parameters) c
                (Gives-named parameters rest a)))))
  Gives-named ((key, other v) ∷ parameters) rest ((t, (c, k)), a) =
      let later = parameters_layout parameters ++ rest in
      Gives-at (find_named (suc (length parameters)) parameter_name type_name) _ _
        (first_named parameter_name type_name parameters)
        (unnested key (kind_of v) (body_of v) (parameters_layout parameters) rest)
        (Gives-then _ (string_layout key) _ key _ (Reads-headed_string key _ t.0 t.1) (
          Gives-then _ (head_bytes 0 (kind_of v)) _ (record { tag = 0; kind = kind_of v }) _
            (Reads-head 0 (kind_of v) _ (omega arith) (kind_of-lt v))
            (rw k (
              Gives-then _ (body_of v) later tt _ (Reads-skip v later c)
                (Gives-named parameters rest a)))))

  Gives-read_named :
      (parameters : List Parameter) (rest : List ℕ)
      → length parameters ≤ max_named_values
      → AreParameters parameters
      → Gives
          (read_named parameter_name type_name)
          (named_layout parameters ++ rest)
          (first_named parameter_name type_name parameters)
  unfolding read_named
  Gives-read_named parameters rest n a =
      let count = field_of 0 (pos (length parameters)) in
      let there : named_layout parameters ++ rest
          ≡ head_bytes 0 Kind.map ++ (count ++ (parameters_layout parameters ++ rest)) =
        append_assoc (head_bytes 0 Kind.map) (count ++ parameters_layout parameters) rest
        ∙ ap (λ zs. head_bytes 0 Kind.map ++ zs)
            (append_assoc count (parameters_layout parameters) rest) in
      Gives-at (read_named parameter_name type_name) _ _
        (first_named parameter_name type_name parameters) there
        (Gives-then _ (head_bytes 0 Kind.map) _ (record { tag = 0; kind = Kind.map }) _
          (Reads-head 0 Kind.map _ (omega arith) (omega arith))
          (Gives-then _ count _ (length parameters) _
            (Reads-count max_named_values (length parameters) _ n (omega (arith, n)))
            (Gives-named parameters rest a)))

abbrev pub answer : Option (List ℕ) → Result (List ℕ) OnlinePacketError
answer none = err packet_error
answer (some body) = ok body

-- The payload of a parameter is found by its name and its type. In a map of parameters, whatever
-- stands behind it, the body is the first one under the type's name among the parameters of the
-- name. Other types, other parameters and those that hold a number, a text, bytes or a list of numbers
-- are stepped over. If there is none, the lookup fails. The texts are UTF-8, the texts, values and
-- counts are within the reader's bounds, and the whole is a Rust slice.
pub named_payload-layout :
    (parameter_name type_name : List ℕ) (parameters : List Parameter) (rest : List ℕ)
    → length parameters ≤ 32
    → AreParameters parameters
    → length (named_layout parameters ++ rest) < 2 ^ 63
    → named_payload (named_layout parameters ++ rest) parameter_name type_name
      ≡ answer (first_named parameter_name type_name parameters)
unfolding named_payload
named_payload-layout parameter_name type_name parameters rest n a size =
    let got =
      Gives-read_named parameter_name type_name parameters rest n a
        (new (named_layout parameters ++ rest)) (record { within = omega arith; sized = size })
        refl in
    rw got (elim (Option-cases (first_named parameter_name type_name parameters)) [
      | inl e ↦ rw e refl
      | inr (b, e) ↦ rw e refl
    ])
