-- ===== src/Ratchet/Session.antt =====
-- crates/core/src/ratchet.rs: sealing, opening, and the one-shot ratchet step.
use Prim.Native.String.{String}
use novachannel.Common.{
  ℕ, ◌+◌, ◌^◌, Bool, true, false, not, Option, none, some, [], ◌∷◌, ◌++◌, Result, ok, err, panic,
  and_then, ◌>>=◌, ◌>>◌, pure, fail, lift, gets, if◌then◌else◌, ltb, ◌==◌, length, take, drop,
  Bytes,
}
use novachannel.Errors.{
  Error, Call, malformed, sequence_exhausted, ratchet_in_progress, wrong_state, unknown_epoch,
}
use novachannel.Crypto.{Aead, Kdf, Exchange}
use novachannel.Wire.{
  Reader, new_reader, get_fixed, get_var, finished, new_writer, put_fixed, put_var, into_bytes,
  from_be_bytes,
}
use novachannel.Kex.{
  Draw, InitiatorKex, then_else, x25519_public_from_bytes, ml_kem_public_from_bytes,
  ml_kem_ciphertext_from_bytes, generate, finish, responder_exchange,
}
use novachannel.Ratchet.{
  RatchetedSession, RecvChain, advance, hmac32, seal_with_message_key, header_bytes,
  label_init_send, label_init_recv, label_step_root, label_step_i2r, label_step_r2i,
  msg_application, msg_ratchet_step1, msg_ratchet_step2,
}
use novachannel.Ratchet.Receive.{open_on}

pub data Opened : Type 0 where
  application : Bytes → Opened
  ratchet_advanced : Option Bytes → Opened

pub record EpochKeys : Type 0 where
  pub new_root : Bytes
  pub new_send : Bytes
  pub new_recv : Bytes

-- `expect`.
abbrev pub expected : {A : Type 0} → Option A → Result Error A
expected none = panic
expected (some a) = ok a

unfoldable pub new_recv_chain : ℕ → Bytes → RecvChain
new_recv_chain epoch chain = record { epoch = epoch; chain = chain; expected_seq = 0; skipped = [] }

-- `old_epoch + 1` overflows a `u32` at its largest value.
unfoldable pub advance_epoch : ℕ → EpochKeys → Call RatchetedSession (Unit {0})
unfolding new_recv_chain
advance_epoch old_epoch keys s = if old_epoch + 1 == 2 ^ 32 then (panic, s) else (
  ok tt,
  record s {
    root_key = keys.new_root;
    send_epoch = old_epoch + 1;
    send_chain = keys.new_send;
    send_seq = 0;
    recv_current = new_recv_chain (old_epoch + 1) keys.new_recv;
    recv_previous = some s.recv_current;
  },
)

-- The key and the ciphertext, or key, of a step's payload, which must have nothing behind them.
unfoldable pub read_keys : (Bytes → Result Error Bytes) → String → Call Reader (Bytes × Bytes)
read_keys from_bytes trailing = do
  x25519_bytes ← get_fixed 32
  peer_x25519 ← lift (x25519_public_from_bytes x25519_bytes)
  ml_kem_bytes ← get_var
  ml_kem ← lift (from_bytes ml_kem_bytes)
  at_end ← gets finished
  if at_end then pure (peer_x25519, ml_kem) else fail (malformed trailing)

unfoldable pub write_keys : Bytes → Bytes → Bytes
write_keys x25519_public ml_kem = into_bytes (put_var (put_fixed new_writer x25519_public) ml_kem)

module _ (aead : Aead) (kdf : Kdf) (x : Exchange) where
  unfoldable pub derive_next_epoch : Bytes → Bytes → Bool → Result Error EpochKeys
  derive_next_epoch root_key shared_secret is_initiator =
      then_else (expected (kdf.from_prk (kdf.extract root_key shared_secret))) (λ hk.
        then_else (expected (kdf.expand hk label_step_root 32)) (λ new_root.
          then_else (expected (kdf.expand hk label_step_i2r 32)) (λ i2r.
            then_else (expected (kdf.expand hk label_step_r2i 32)) (λ r2i.
              if is_initiator
              then ok (record { new_root = new_root; new_send = i2r; new_recv = r2i })
              else ok (record { new_root = new_root; new_send = r2i; new_recv = i2r })))))

  unfoldable pub new_session : Bytes → Bool → RatchetedSession
  unfolding new_recv_chain
  new_session ratchet_root is_initiator =
      let send_label = if is_initiator then label_init_send else label_init_recv in
      let recv_label = if is_initiator then label_init_recv else label_init_send in
      record {
        root_key = ratchet_root;
        send_epoch = 0;
        send_chain = hmac32 kdf ratchet_root send_label;
        send_seq = 0;
        recv_current = new_recv_chain 0 (hmac32 kdf ratchet_root recv_label);
        recv_previous = none;
        pending = none;
        pending_epoch = 0;
        incoming_step1_chunks = none;
        incoming_step2_chunks = none;
        last_completed_step1_attempt = none;
        last_completed_step2_attempt = none;
      }

  unfoldable pub seal_payload : Bytes → Call RatchetedSession Bytes
  seal_payload payload s =
      let a = advance kdf s.send_chain in
      let aad = header_bytes s.send_epoch s.send_seq in
      if s.send_seq + 1 == 2 ^ 64
      then (err sequence_exhausted, s)
      else and_then
          (
            seal_with_message_key aead a.message_key aad payload,
            record s { send_seq = s.send_seq + 1 },
          )
          (λ ciphertext s1. (ok (aad ++ ciphertext), record s1 { send_chain = a.next_chain }))

  unfoldable pub seal : Bytes → Call RatchetedSession Bytes
  seal plaintext = seal_payload (msg_application ∷ plaintext)

  unfoldable pub initiate_ratchet : Draw → Call RatchetedSession Bytes
  initiate_ratchet drawn s =
      let kex = generate x drawn in
      elim s.pending [
        | some _ ↦ (err ratchet_in_progress, s)
        | none ↦
            and_then
              (seal_payload (msg_ratchet_step1 ∷ write_keys kex.x25519_public kex.ml_kem_public) s)
              (λ rec s1. (ok rec, record s1 { pending = some kex; pending_epoch = s1.send_epoch }))
      ]

  -- The responder's answer, once nothing speaks against the step.
  unfoldable pub answer_step1 : ℕ → Bytes → Draw → Call RatchetedSession Bytes
  answer_step1 epoch payload drawn = do
    keys ←
        lift
          (read_keys (ml_kem_public_from_bytes x) "trailing bytes in ratchet step1"
            (new_reader payload)).0
    kex_out ← lift (responder_exchange x drawn keys.0 keys.1)
    reply ←
        seal_payload
          (msg_ratchet_step2 ∷ write_keys kex_out.x25519_public kex_out.ml_kem_ciphertext)
    root_key ← gets (λ s. s.root_key)
    next ← lift (derive_next_epoch root_key kex_out.shared_secret false)
    advance_epoch epoch next
    pure reply

  unfoldable pub handle_step1 : ℕ → Bytes → Draw → Call RatchetedSession Bytes
  handle_step1 epoch payload drawn s = elim s.pending [
    | some _ ↦ (err ratchet_in_progress, s)
    | none ↦
        if not (epoch == s.send_epoch)
        then (err wrong_state, s)
        else answer_step1 epoch payload drawn s
  ]

  -- The initiator's end of the step, with the pending key taken out of the session.
  unfoldable pub finish_step2 : InitiatorKex → ℕ → Bytes → Call RatchetedSession (Unit {0})
  finish_step2 kex epoch payload = do
    keys ←
        lift
          (read_keys (ml_kem_ciphertext_from_bytes x) "trailing bytes in ratchet step2"
            (new_reader payload)).0
    shared_secret ← lift (finish x kex keys.0 keys.1)
    root_key ← gets (λ s. s.root_key)
    next ← lift (derive_next_epoch root_key shared_secret true)
    advance_epoch epoch next

  unfoldable pub handle_step2 : ℕ → Bytes → Call RatchetedSession (Unit {0})
  handle_step2 epoch payload s = elim s.pending [
    | none ↦ (err wrong_state, s)
    | some kex ↦
        if s.pending_epoch == epoch
        then finish_step2 kex epoch payload (record s { pending = none })
        else (err wrong_state, s)
  ]

  unfoldable pub open_on_current : (seq : ℕ) (aad ciphertext : Bytes) → Call RatchetedSession Bytes
  open_on_current seq aad ciphertext s =
      let r = open_on aead kdf seq aad ciphertext s.recv_current in
      (r.0, record s { recv_current = r.1 })

  unfoldable pub open_on_previous :
      (seq : ℕ) (aad ciphertext : Bytes) → RecvChain → Call RatchetedSession Bytes
  open_on_previous seq aad ciphertext previous s =
      let r = open_on aead kdf seq aad ciphertext previous in
      (r.0, record s { recv_previous = some r.1 })

  -- The chain of the record's epoch opens it.
  unfoldable pub open_in_epoch :
      (epoch seq : ℕ) (aad ciphertext : Bytes) → Call RatchetedSession Bytes
  open_in_epoch epoch seq aad ciphertext s =
      if epoch == s.recv_current.epoch
      then open_on_current seq aad ciphertext s
      else elim s.recv_previous [
        | none ↦ (err unknown_epoch, s)
        | some previous ↦
            if previous.epoch == epoch
            then open_on_previous seq aad ciphertext previous s
            else (err unknown_epoch, s)
      ]

  unfoldable pub dispatch : ℕ → Bytes → Draw → Call RatchetedSession Opened
  dispatch epoch [] drawn = fail (malformed "empty ratchet payload")
  dispatch epoch (message_type ∷ body) drawn =
      if message_type == msg_application
      then pure (application body)
      else if message_type == msg_ratchet_step1
      then (do reply ← handle_step1 epoch body drawn; pure (ratchet_advanced (some reply)))
      else if message_type == msg_ratchet_step2
      then (do handle_step2 epoch body; pure (ratchet_advanced none))
      else fail (malformed "unknown ratchet message type")

  unfoldable pub open_record : Bytes → Draw → Call RatchetedSession Opened
  open_record rec drawn =
      if ltb (length rec) 12 then fail (malformed "ratchet record shorter than header") else (do
        let epoch = from_be_bytes (take 4 rec)
        let seq = from_be_bytes (take 8 (drop 4 rec))
        plaintext ← open_in_epoch epoch seq (take 12 rec) (drop 12 rec)
        dispatch epoch plaintext drawn)
