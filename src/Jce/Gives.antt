-- ===== src/Jce/Gives.antt =====
-- What a call returns, wherever it leaves the reader.
use lirvena.Base.{◌∙◌, ℕ, ◌≤◌, ◌≡◌, true, List, ◌++◌, length, arith, ok, run_on, run_on_ok}
use lirvena.Base.Text.{is_utf8}
use lirvena.Jce.Named.{headed_string, headed_bytes}
use lirvena.Jce.{Reader, Reading, max_value_len}
use lirvena.Jce.Kind
use lirvena.Jce.Cursor.{Reads, IsReader, rest_of}
use lirvena.Jce.Values.{simple_bytes, Reads-blob}
use lirvena.Jce.Strings.{Reads-headed, string_kind, length_bytes, Reads-string, string_kind-lt}
use lirvena.Jce.Parameters.{string_layout, payload_layout}

pub Reads-headed_string :
    (xs rest : List ℕ)
    → length xs ≤ max_value_len
    → is_utf8 xs ≡ true
    → Reads headed_string (string_layout xs) xs rest
Reads-headed_string xs rest b u =
    Reads-headed _ 0 (string_kind xs) (length_bytes xs ++ xs) rest xs (omega arith)
      (string_kind-lt xs) (Reads-string xs rest b u)

pub Reads-headed_bytes :
    (xs rest : List ℕ) → length xs ≤ max_value_len → Reads headed_bytes (payload_layout xs) xs rest
Reads-headed_bytes xs rest b =
    Reads-headed _ 0 Kind.simple_list (simple_bytes xs ++ xs) rest xs (omega arith) (omega arith)
      (Reads-blob xs rest b)

-- What a call returns in front of these bytes, wherever it stops.
abbrev pub Gives : {A : Type 0} → Reading A → List ℕ → A → Type 0
Gives read xs a = (r : Reader) → IsReader r → rest_of r ≡ xs → (read r).0 ≡ ok a

pub Gives-then :
    {A B : Type 0} {m : Reading A} (k : A → Reading B) (xs ys : List ℕ) (a : A) (b : B)
    → Reads m xs a ys
    → Gives (k a) ys b
    → Gives (λ r. run_on (m r) k) (xs ++ ys) b
Gives-then {m = m} k xs ys a b p q r h e =
    let got = p r h e in rw (run_on_ok (m r) k a got.result) (q (m r).1 got.valid got.left)

pub Gives-last :
    {A B : Type 0} (m : Reading A) (k : A → Reading B) (xs : List ℕ) (a : A) (b : B)
    → Gives m xs a
    → ((r : Reader) → (k a r).0 ≡ ok b)
    → Gives (λ r. run_on (m r) k) xs b
Gives-last m k xs a b p q r h e = rw (run_on_ok (m r) k a (p r h e)) (q (m r).1)

pub Gives-at :
    {A : Type 0} (m : Reading A) (xs ys : List ℕ) (a : A) → xs ≡ ys → Gives m ys a → Gives m xs a
Gives-at m xs ys a e p r h f = p r h (f ∙ e)
