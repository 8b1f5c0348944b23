-- ===== src/Ceylith/Channel/Pair.antt =====
-- The two ends of one direction.
use lirvena.Base.{
  ℕ, suc, ◌+◌, ◌-◌, ◌≤◌, ◌≡◌, refl, ap, ◌∙◌, true, false, ◌||◌, ◌==◌, ltb, leb, List, [], ◌∷◌,
  length, All, Result, ok, and_then, arith,
}
use lirvena.Ceylith.Channel.{
  NoiseCipher, SecureSession, SecureSessionError, seal, open_message, noise_tag_len,
  max_noise_message_len,
}

-- A header and the payload behind it.
abbrev pub Message : Type 0
Message = List ℕ × List ℕ

abbrev pub payloads : List Message → List (List ℕ)
payloads [] = []
payloads (m ∷ ms) = m.1 ∷ payloads ms

module _ (cipher : NoiseCipher) where
  -- Each message is sealed at one end and opened at the other, under the same counter.
  unfoldable pub transmit :
      ℕ
      → List Message
      → SecureSession cipher
      → SecureSession cipher
      → Result (List (List ℕ)) SecureSessionError
  transmit n [] s r = ok []
  transmit n ((header, plaintext) ∷ ms) s r =
      let sealed = seal cipher n header plaintext s in
      and_then sealed.0 λ ciphertext.
        let opened = open_message cipher n header ciphertext r in
        and_then opened.0 λ payload.
          let rest = transmit (suc n) ms sealed.1 opened.1 in
          and_then rest λ payloads. ok (payload ∷ payloads)

  -- Both ends are open and at the counter `n`, and below their limits for `k` messages more.
  pub record Ready (n k : ℕ) (s r : SecureSession cipher) : Type 0 where
    pub sender_open : s.closed ≡ false
    pub receiver_open : r.closed ≡ false
    pub counter : cipher.get_next_n s.send ≡ n
    pub paired : cipher.Paired s.send r.receive
    pub sender_limit : n + k ≤ s.message_limit
    pub receiver_limit : n + k ≤ r.message_limit

  seal-Ready :
      (n k : ℕ) (header plaintext : List ℕ) (s r : SecureSession cipher)
      → Ready n (suc k) s r
      → length plaintext ≤ max_noise_message_len - noise_tag_len
      → seal cipher n header plaintext s ≡ (
        ok (cipher.encrypt_ad header plaintext s.send).0,
        record s { send = (cipher.encrypt_ad header plaintext s.send).1 },
      )
  unfolding seal
  seal-Ready n k header plaintext s r h fits =
      let due : (n == cipher.get_next_n s.send) ≡ true = ground (arith, h.counter) in
      let timely : leb s.message_limit n ≡ false = ground (arith, h.sender_limit) in
      let small : ltb (max_noise_message_len - noise_tag_len) (length plaintext) ≡ false =
        ground arith in
      rw (h.sender_open, due, timely, small)

  open-Ready :
      (n k : ℕ) (header plaintext : List ℕ) (s r : SecureSession cipher)
      → Ready n (suc k) s r
      → length plaintext ≤ max_noise_message_len - noise_tag_len
      → let c = (cipher.encrypt_ad header plaintext s.send).0 in
        open_message cipher n header c r
        ≡ (ok plaintext, record r { receive = (cipher.decrypt_ad header c r.receive).1 })
  unfolding open_message
  open-Ready n k header plaintext s r h fits =
      let c = (cipher.encrypt_ad header plaintext s.send).0 in
      let due : (n == cipher.get_next_n r.receive) ≡ true =
        ground (arith, h.counter, cipher.paired_next s.send r.receive h.paired) in
      let timely : leb r.message_limit n ≡ false = ground (arith, h.receiver_limit) in
      let small : (ltb (length c) noise_tag_len || ltb max_noise_message_len (length c)) ≡ false =
        ground (arith, cipher.length-encrypt_ad header plaintext s.send) in
      let back = cipher.decrypt-encrypt_ad header plaintext s.send r.receive h.paired in
      rw (h.receiver_open, due, timely, small, back)

  -- What one end seals the other opens: the payloads of a sequence of messages arrive as they were,
  -- in order. Both ends are open, paired, at the same counter and below their limits for all the
  -- messages, and each payload is within the suite's bound.
  pub transmit-payloads :
      (ms : List Message) (n : ℕ) (s r : SecureSession cipher)
      → Ready n (length ms) s r
      → All (λ m. length m.1 ≤ max_noise_message_len - noise_tag_len) ms
      → transmit n ms s r ≡ ok (payloads ms)
  unfolding transmit
  transmit-payloads [] n s r h a = refl
  transmit-payloads ((header, plaintext) ∷ ms) n s r h a =
      let c = (cipher.encrypt_ad header plaintext s.send).0 in
      let s' : SecureSession cipher = record s {
        send = (cipher.encrypt_ad header plaintext s.send).1;
      } in
      let r' : SecureSession cipher = record r {
        receive = (cipher.decrypt_ad header c r.receive).1;
      } in
      let next : Ready (suc n) (length ms) s' r' = record {
        sender_open = h.sender_open;
        receiver_open = h.receiver_open;
        counter = cipher.encrypt_ad-next header plaintext s.send ∙ ap suc h.counter;
        paired = cipher.encrypt_ad-Paired header plaintext s.send r.receive h.paired;
        sender_limit = omega (arith, h.sender_limit);
        receiver_limit = omega (arith, h.receiver_limit);
      } in
      rw (
        seal-Ready n (length ms) header plaintext s r h a.0,
        open-Ready n (length ms) header plaintext s r h a.0,
        transmit-payloads ms (suc n) s' r' next a.1,
      )
