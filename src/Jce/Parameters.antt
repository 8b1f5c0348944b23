-- ===== src/Jce/Parameters.antt =====
-- The parameters of a push as a peer lays them out, and the body that a name and a type select.
use lirvena.Base.{
  All, if◌then◌else◌, ◌∷◌, ℕ, ◌≤◌, ◌≡◌, true, false, ◌==◌, Option, none, some, List, [], ◌++◌,
  length,
}
use lirvena.Base.Bytes.{same_bytes}
use lirvena.Base.Int.{pos}
use lirvena.Base.Text.{is_utf8}
use lirvena.Jce.Written.{Value, kind_of, body_of, IsValue}
use lirvena.Jce.{max_value_len}
use lirvena.Jce.Kind
use lirvena.Jce.RoundTrip.{head_bytes, field_of}
use lirvena.Jce.Values.{simple_bytes}
use lirvena.Jce.Strings.{string_kind, length_bytes}

-- What a parameter holds: bodies under the names of their types, or another value.
pub data Contents : Type 0 where
  typed : List (List ℕ × List ℕ) → Contents
  other : Value → Contents

abbrev pub Parameter : Type 0
Parameter = List ℕ × Contents

abbrev pub string_layout : List ℕ → List ℕ
string_layout xs = head_bytes 0 (string_kind xs) ++ (length_bytes xs ++ xs)

abbrev pub payload_layout : List ℕ → List ℕ
payload_layout xs = head_bytes 0 Kind.simple_list ++ (simple_bytes xs ++ xs)

abbrev pub types_layout : List (List ℕ × List ℕ) → List ℕ
types_layout [] = []
types_layout ((name, body) ∷ types) =
    string_layout name ++ (payload_layout body ++ types_layout types)

abbrev pub contents_layout : Contents → List ℕ
contents_layout (typed types) = field_of 0 (pos (length types)) ++ types_layout types
contents_layout (other v) = body_of v

abbrev pub contents_kind : Contents → ℕ
contents_kind (typed types) = Kind.map
contents_kind (other v) = kind_of v

abbrev pub parameters_layout : List Parameter → List ℕ
parameters_layout [] = []
parameters_layout ((key, contents) ∷ parameters) =
    string_layout key
    ++ (head_bytes 0 (contents_kind contents)
        ++ (contents_layout contents ++ parameters_layout parameters))

abbrev pub named_layout : List Parameter → List ℕ
named_layout parameters =
    head_bytes 0 Kind.map ++ (field_of 0 (pos (length parameters)) ++ parameters_layout parameters)

-- The first body under a type's name.
abbrev pub first_type : List ℕ → List (List ℕ × List ℕ) → Option (List ℕ)
first_type type_name [] = none
first_type type_name ((name, body) ∷ types) =
    if same_bytes name type_name then some body else first_type type_name types

abbrev pub or_else : Option (List ℕ) → Option (List ℕ) → Option (List ℕ)
or_else none b = b
or_else (some a) b = some a

-- The first body under a type's name among the parameters of a name.
abbrev pub first_named : List ℕ → List ℕ → List Parameter → Option (List ℕ)
first_named parameter_name type_name [] = none
first_named parameter_name type_name ((key, typed types) ∷ parameters) =
    or_else (if same_bytes key parameter_name then first_type type_name types else none)
      (first_named parameter_name type_name parameters)
first_named parameter_name type_name ((key, other v) ∷ parameters) =
    first_named parameter_name type_name parameters

abbrev pub IsText : List ℕ → Type 0
IsText xs = (length xs ≤ max_value_len) × (is_utf8 xs ≡ true)

abbrev pub AreTypes : List (List ℕ × List ℕ) → Type 0
AreTypes types = All (λ t. IsText t.0 × (length t.1 ≤ max_value_len)) types

-- Within the reader's bounds; another value is not a map.
abbrev pub IsContents : Contents → Type 0
IsContents (typed types) = (length types ≤ 32) × AreTypes types
IsContents (other v) = IsValue v × ((kind_of v == Kind.map) ≡ false)

abbrev pub AreParameters : List Parameter → Type 0
AreParameters parameters = All (λ p. IsText p.0 × IsContents p.1) parameters
