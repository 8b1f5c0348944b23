-- ===== src/Account/Grant/Entries.antt =====
-- The ordered list of entries as a map, and the requests collected into one.
use lirvena.Base.{
  ◌≡◌, inl, inr, refl, Bool, false, ◌==◌, Option, none, some, List, [], ◌∷◌, arith, ok, Bool-cases,
  Option-cases, if◌then◌else◌,
}
use lirvena.Account.Grant.{
  AccountId, AccountGrantMode, AccountGrantRequest, BTreeMap, lookup, insert, contains, keys_where,
  map_values, collect_into, collect_unique,
}

abbrev pub option_test : {V : Type 0} → (V → Bool) → Option V → Bool
option_test test none = false
option_test test (some v) = test v

abbrev pub option_map : {V W : Type 0} → (V → W) → Option V → Option W
option_map f none = none
option_map f (some v) = some (f v)

abbrev pub or_else : {V : Type 0} → Option V → Option V → Option V
or_else none b = b
or_else (some v) b = some v

-- No two entries have the same key.
abbrev pub Distinct : {V : Type 0} → BTreeMap V → Type 0
Distinct [] = Unit {0}
Distinct ((key, value) ∷ entries) = (lookup key entries ≡ none) × Distinct entries

-- The mode that is configured for the account.
abbrev pub mode_of : AccountId → List AccountGrantRequest → Option AccountGrantMode
mode_of id [] = none
mode_of id (request ∷ requests) =
    if id == request.local_id then some request.mode else mode_of id requests

abbrev pub NoRepeat : List AccountGrantRequest → Type 0
NoRepeat [] = Unit {0}
NoRepeat (request ∷ requests) = (mode_of request.local_id requests ≡ none) × NoRepeat requests

module _ {V : Type 0} where
  pub lookup-insert :
      (id key : AccountId) (value : V) (m : BTreeMap V)
      → lookup id (insert key value m) ≡ (if id == key then some value else lookup id m)
  lookup-insert id key value [] = refl
  lookup-insert id key value ((k, v) ∷ m) = ground (arith, lookup-insert id key value m)

  pub insert-Distinct :
      (key : AccountId) (value : V) (m : BTreeMap V)
      → Distinct m
      → lookup key m ≡ none
      → Distinct (insert key value m)
  insert-Distinct key value [] d h = (refl, tt)
  insert-Distinct key value ((k, v) ∷ m) d h =
      ground (arith, d, insert-Distinct key value m d.1, lookup-insert k key value m)

  contains-none :
      (test : V → Bool) (id : AccountId) (m : BTreeMap V)
      → lookup id m ≡ none
      → contains id (keys_where test m) ≡ false
  contains-none test id [] h = refl
  contains-none test id ((k, v) ∷ m) h = ground (arith, contains-none test id m)

  pub contains-keys_where :
      (test : V → Bool) (id : AccountId) (m : BTreeMap V)
      → Distinct m
      → contains id (keys_where test m) ≡ option_test test (lookup id m)
  contains-keys_where test id [] d = refl
  contains-keys_where test id ((k, v) ∷ m) d =
      ground (arith, d, contains-keys_where test id m d.1, contains-none test id m)

  pub keys_where_same :
      (f g : V → Bool) (m : BTreeMap V) → ((v : V) → f v ≡ g v) → keys_where f m ≡ keys_where g m
  keys_where_same f g [] h = refl
  keys_where_same f g ((k, v) ∷ m) h = rw (h v, keys_where_same f g m h)

module _ {V W : Type 0} (f : V → W) where
  pub lookup-map_values :
      (id : AccountId) (m : BTreeMap V) → lookup id (map_values f m) ≡ option_map f (lookup id m)
  lookup-map_values id [] = refl
  lookup-map_values id ((k, v) ∷ m) = ground (arith, lookup-map_values id m)

  pub keys_where-map_values :
      (test : W → Bool) (m : BTreeMap V)
      → keys_where test (map_values f m) ≡ keys_where (λ v. test (f v)) m
  keys_where-map_values test [] = refl
  keys_where-map_values test ((k, v) ∷ m) = rw (keys_where-map_values test m)

pub collect-Distinct :
    (m n : BTreeMap AccountGrantMode) (requests : List AccountGrantRequest)
    → Distinct m
    → collect_into m requests ≡ ok n
    → Distinct n
unfolding collect_into
collect-Distinct m n [] d h = ground arith
collect-Distinct m n (r ∷ requests) d h = elim (Option-cases (lookup r.local_id m)) [
  | inr (old, e) ↦ absurd (ground arith)
  | inl e ↦
      collect-Distinct (insert r.local_id r.mode m) n requests
        (insert-Distinct r.local_id r.mode m d e) (ground arith)
]

pub lookup-collect :
    (id : AccountId) (m n : BTreeMap AccountGrantMode) (requests : List AccountGrantRequest)
    → collect_into m requests ≡ ok n
    → lookup id n ≡ or_else (lookup id m) (mode_of id requests)
unfolding collect_into
lookup-collect id m n [] h = ground arith
lookup-collect id m n (r ∷ requests) h = elim (Option-cases (lookup r.local_id m)) [
  | inr (old, e) ↦ absurd (ground arith)
  | inl e ↦
      let later = lookup-collect id (insert r.local_id r.mode m) n requests (ground arith) in
      ground (arith, later, lookup-insert id r.local_id r.mode m)
]

-- The requests name each account once, and none that the map already holds.
abbrev pub Fresh : BTreeMap AccountGrantMode → List AccountGrantRequest → Type 0
Fresh m [] = Unit {0}
Fresh m (request ∷ requests) =
    (lookup request.local_id m ≡ none) × Fresh (insert request.local_id request.mode m) requests

pub collect-Fresh :
    (m : BTreeMap AccountGrantMode) (requests : List AccountGrantRequest)
    → Fresh m requests
    → (n : BTreeMap AccountGrantMode) × (collect_into m requests ≡ ok n)
unfolding collect_into
collect-Fresh m [] h = (m, refl)
collect-Fresh m (r ∷ requests) h =
    rw (collect_into, h.0) (collect-Fresh (insert r.local_id r.mode m) requests h.1)

NoRepeat_apart :
    (m : BTreeMap AccountGrantMode) (r : AccountGrantRequest) (requests : List AccountGrantRequest)
    → mode_of r.local_id requests ≡ none
    → ((id : AccountId) (v : AccountGrantMode) → mode_of id requests ≡ some v → lookup id m ≡ none)
    → (id : AccountId) (v : AccountGrantMode) → mode_of id requests ≡ some v
    → lookup id (insert r.local_id r.mode m) ≡ none
NoRepeat_apart m r requests h f id v e =
    ground (arith, lookup-insert id r.local_id r.mode m, f id v e)

mode_apart :
    (r : AccountGrantRequest) (requests : List AccountGrantRequest) (id : AccountId)
    (v : AccountGrantMode)
    → mode_of r.local_id requests ≡ none
    → mode_of id requests ≡ some v
    → (id == r.local_id) ≡ false
mode_apart r requests id v h e = elim (Bool-cases (id == r.local_id)) [
  | inr apart ↦ apart
  | inl found ↦
      let same : id ≡ r.local_id = ground arith in
      let none_found : mode_of id requests ≡ none = rw same h in absurd (ground arith)
]

NoRepeat-shift :
    (m : BTreeMap AccountGrantMode) (requests : List AccountGrantRequest)
    → NoRepeat requests
    → ((id : AccountId) (v : AccountGrantMode) → mode_of id requests ≡ some v → lookup id m ≡ none)
    → Fresh m requests
NoRepeat-shift m [] h f = tt
NoRepeat-shift m (r ∷ requests) h f = (
  f r.local_id r.mode (ground arith),
  NoRepeat-shift (insert r.local_id r.mode m) requests h.1 (
      NoRepeat_apart m r requests h.0
        (λ id v e. f id v (ground (arith, mode_apart r requests id v h.0 e)))),
)

-- Requests that name each account once are collected.
pub collect-NoRepeat :
    (requests : List AccountGrantRequest)
    → NoRepeat requests
    → (n : BTreeMap AccountGrantMode) × (collect_unique requests ≡ ok n)
collect-NoRepeat requests h =
    collect-Fresh [] requests (NoRepeat-shift [] requests h (λ id v e. refl))
