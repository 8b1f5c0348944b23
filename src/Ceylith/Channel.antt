-- ===== src/Ceylith/Channel.antt =====
-- crates/ceylith-crypto/src/session.rs: both directions of a secure session, each with its counter.
-- The Noise cipher state is a parameter.
pub mod Order
pub mod Pair
mod Tests
use lirvena.Base.{
  ℕ, suc, ◌+◌, ◌-◌, ◌≤◌, ◌≡◌, Bool, true, false, not, ◌||◌, ◌==◌, ltb, leb, if◌then◌else◌, Option,
  none, some, List, length, Result, ok, err, ensure, Method, run_on,
}

abbrev pub noise_tag_len : ℕ
noise_tag_len = 16

abbrev pub max_noise_message_len : ℕ
max_noise_message_len = 65535

abbrev pub default_session_message_limit : ℕ
default_session_message_limit = 1048576

pub data SecureSessionError : Type 0 where
  entropy_unavailable invalid_public_key handshake_failed message_too_large counter_mismatch :
      SecureSessionError
  session_expired authentication_failed session_closed invalid_limit : SecureSessionError

-- `CipherState` of the noise_protocol crate: `get_next_n` is the nonce of the next message, which a
-- call that succeeds adds one to. `Paired` holds of the two ends of one direction: they have the
-- same key and the same nonce.
pub record NoiseCipher : Type 1 where
  pub State : Type 0
  pub get_next_n : State → ℕ
  pub encrypt_ad : List ℕ → List ℕ → State → List ℕ × State
  pub decrypt_ad : List ℕ → List ℕ → State → Option (List ℕ) × State
  pub Paired : State → State → Type 0
  pub length-encrypt_ad :
      (ad plaintext : List ℕ) (c : State)
      → length (encrypt_ad ad plaintext c).0 ≡ length plaintext + noise_tag_len
  pub encrypt_ad-next :
      (ad plaintext : List ℕ) (c : State)
      → get_next_n (encrypt_ad ad plaintext c).1 ≡ suc (get_next_n c)
  pub decrypt_ad-next :
      (ad ciphertext : List ℕ) (c : State) (plaintext : List ℕ)
      → (decrypt_ad ad ciphertext c).0 ≡ some plaintext
      → get_next_n (decrypt_ad ad ciphertext c).1 ≡ suc (get_next_n c)
  pub paired_next : (c d : State) → Paired c d → get_next_n c ≡ get_next_n d
  pub decrypt-encrypt_ad :
      (ad plaintext : List ℕ) (c d : State)
      → Paired c d
      → (decrypt_ad ad (encrypt_ad ad plaintext c).0 d).0 ≡ some plaintext
  pub encrypt_ad-Paired :
      (ad plaintext : List ℕ) (c d : State)
      → Paired c d
      → Paired (encrypt_ad ad plaintext c).1 (decrypt_ad ad (encrypt_ad ad plaintext c).0 d).1

module _ (cipher : NoiseCipher) where
  pub record SecureSession : Type 0 where
    pub send : cipher.State
    pub receive : cipher.State
    pub message_limit : ℕ
    pub closed : Bool

  abbrev pub new : cipher.State → cipher.State → SecureSession
  new send receive = record {
    send = send;
    receive = receive;
    message_limit = default_session_message_limit;
    closed = false;
  }

  unfoldable pub with_message_limit : ℕ → SecureSession → Result SecureSession SecureSessionError
  with_message_limit limit s =
      if limit == 0 || ltb default_session_message_limit limit
      then err invalid_limit
      else ok (record s { message_limit = limit })

  abbrev pub check_open : SecureSession → Result (Unit {0}) SecureSessionError
  check_open s = ensure (not s.closed) session_closed

  abbrev pub close : SecureSession → SecureSession
  close s = record s { closed = true }

  unfoldable pub seal : ℕ → List ℕ → List ℕ → Method SecureSession SecureSessionError (List ℕ)
  seal counter associated_header plaintext s =
      run_on (check_open s, s)
        λ _ s.
          if not (counter == cipher.get_next_n s.send)
          then (err counter_mismatch, close s)
          else if leb s.message_limit counter
          then (err session_expired, close s)
          else if ltb (max_noise_message_len - noise_tag_len) (length plaintext)
          then (err message_too_large, s)
          else let (ciphertext, send) = cipher.encrypt_ad associated_header plaintext s.send in
            (ok ciphertext, record s { send = send })

  unfoldable pub open_message :
      ℕ → List ℕ → List ℕ → Method SecureSession SecureSessionError (List ℕ)
  open_message counter associated_header ciphertext s =
      run_on (check_open s, s)
        λ _ s.
          if not (counter == cipher.get_next_n s.receive)
          then (err counter_mismatch, close s)
          else if leb s.message_limit counter
          then (err session_expired, close s)
          else if ltb (length ciphertext) noise_tag_len
              || ltb max_noise_message_len (length ciphertext)
          then (err message_too_large, s)
          else let (result, receive) = cipher.decrypt_ad associated_header ciphertext s.receive in
            elim result [
              | none ↦ (err authentication_failed, close (record s { receive = receive }))
              | some plaintext ↦ (ok plaintext, record s { receive = receive })
            ]
