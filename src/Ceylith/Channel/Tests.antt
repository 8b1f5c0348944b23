-- ===== src/Ceylith/Channel/Tests.antt =====
-- A session over a cipher that writes its nonce into the tag.
use lirvena.Base.{
  ℕ, suc, ◌≡◌, refl, ap, ◌==◌, ==_refl, if◌then◌else◌, Option, none, some, List, [], ◌∷◌, ◌++◌,
  length-append, drop, replicate, arith, ok,
}
use lirvena.Ceylith.Channel.{NoiseCipher, SecureSession, new}
use lirvena.Ceylith.Channel.Order.{Call, sealing, opening, calls, Consecutive, calls-Consecutive}
use lirvena.Ceylith.Channel.Pair.{Message, transmit, transmit-payloads}

-- The tag is the nonce and fifteen zeros, in front of the payload.
abbrev tag : ℕ → List ℕ
tag n = n ∷ replicate 15 0

abbrev untag : ℕ → List ℕ → Option (List ℕ)
untag n [] = none
untag n (t ∷ rest) = if t == n then some (drop 15 rest) else none

abbrev open_state : ℕ → Option (List ℕ) → ℕ
open_state n none = n
open_state n (some p) = suc n

abbrev tagging : NoiseCipher
tagging = record {
  State = ℕ;
  get_next_n = λ n. n;
  encrypt_ad = λ ad p n. (tag n ++ p, suc n);
  decrypt_ad = λ ad c n. (untag n c, open_state n (untag n c));
  Paired = λ m n. m ≡ n;
  length-encrypt_ad = λ ad p n. omega (arith, length-append (tag n) p);
  encrypt_ad-next = λ ad p n. refl;
  decrypt_ad-next = λ ad c n p h. ap (open_state n) h;
  paired_next = λ m n h. h;
  decrypt-encrypt_ad = λ ad p m n h. rw (h, ==_refl n);
  encrypt_ad-Paired = λ ad p m n h. rw (h, ==_refl n);
}

abbrev messages : List Message
messages = (1 ∷ [], 2 ∷ 3 ∷ []) ∷ (4 ∷ [], []) ∷ []

abbrev alice : SecureSession tagging
alice = new tagging 0 7

abbrev bob : SecureSession tagging
bob = new tagging 7 0

transmit-payloads_example : transmit tagging 0 messages alice bob ≡ ok ((2 ∷ 3 ∷ []) ∷ [] ∷ [])
transmit-payloads_example =
    transmit-payloads tagging messages 0 alice bob
      (record {
        sender_open = refl;
        receiver_open = refl;
        counter = refl;
        paired = refl;
        sender_limit = omega arith;
        receiver_limit = omega arith;
      })
      (omega arith)

-- A repeated counter closes the session.
abbrev traffic : List Call
traffic = sealing 0 [] (9 ∷ []) ∷ opening 7 [] (tag 7) ∷ sealing 0 [] [] ∷ sealing 1 [] [] ∷ []

calls-Consecutive_example :
    let t = calls tagging traffic alice in
    Consecutive 1048576 0 t.sealed × Consecutive 1048576 7 t.opened
calls-Consecutive_example = calls-Consecutive tagging traffic alice
