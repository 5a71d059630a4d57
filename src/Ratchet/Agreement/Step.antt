-- ===== src/Ratchet/Agreement/Step.antt =====
-- crates/core/src/ratchet.rs: after a one-shot ratchet step both sessions are in the next epoch.
use novachannel.Common.{
  ◌+◌, ◌^◌, ◌<◌, ◌≡◌, refl, ap, sym, ◌∙◌, true, false, none, some, ◌∷◌, ◌++◌, Result, ok, err,
  and_then, arith, Bytes,
}
use novachannel.Errors.{Error, ratchet_in_progress}
use novachannel.Crypto.{Aead, IsAead, Kdf, IsKdf, Exchange, IsExchange}
use novachannel.Kex.{Draw, generate}
use novachannel.Kex.Agreement.{answer}
use novachannel.Ratchet.{RecvChain, RatchetedSession, header_bytes}
use novachannel.Ratchet.Session.{
  ratchet_advanced, EpochKeys, new_recv_chain, write_keys, derive_next_epoch, seal_payload,
  initiate_ratchet, dispatch, open_record,
}
use novachannel.Ratchet.Delivery.{
  Linked, sealed_with, sent, seal_payload-sealed, open_record-dispatch,
}
use novachannel.Ratchet.Agreement.Keys.{other_side, derive_next_epoch-other_side}
use novachannel.Ratchet.Agreement.{
  Synced, next_epoch, step1_payload, step2_payload, dispatch_step1, dispatch_step2,
}
use novachannel.Ratchet.Chain.Skipped.{chain_at}

module _ {aead : Aead} {kdf : Kdf} {x : Exchange} (aead_law : IsAead aead) (kdf_law : IsKdf kdf)
    (x_law : IsExchange x) where
  abbrev pub begun : Draw → Bytes → RatchetedSession → RatchetedSession
  begun drawn ra a = record (sent aead_law kdf x ra a) {
    pending = some (generate x drawn);
    pending_epoch = a.send_epoch;
  }

  initiate_ratchet-begun :
      (drawn : Draw) (ra : Bytes) (a : RatchetedSession) (c : Bytes)
      → a.pending ≡ none
      → a.send_seq + 1 < 2 ^ 64
      → sealed_with aead_law kdf x ra a (1 ∷ step1_payload aead_law kdf_law x_law drawn) ≡ some c
      → initiate_ratchet aead kdf x drawn a
        ≡ (ok (header_bytes a.send_epoch a.send_seq ++ c), begun drawn ra a)
  unfolding initiate_ratchet
  initiate_ratchet-begun drawn ra a c idle fits e =
      let kex = generate x drawn in
      ap
        (λ o. elim o as (λ _. Result Error Bytes × RatchetedSession) [
          | some _ ↦ (err ratchet_in_progress, a)
          | none ↦
              and_then
                (seal_payload aead kdf x (1 ∷ write_keys kex.x25519_public kex.ml_kem_public) a)
                (λ rec s1.
                  (ok rec, record s1 { pending = some kex; pending_epoch = s1.send_epoch }))
        ])
        idle
      ∙ rw
          (seal_payload-sealed aead_law kdf x ra a (1 ∷ step1_payload aead_law kdf_law x_law drawn)
            c fits e)
          refl

  -- Both sessions after the step.
  pub record Renewed (a a2 b1 : RatchetedSession) : Type 0 where
    pub a_epoch : a2.send_epoch ≡ a.send_epoch + 1
    pub b_epoch : b1.send_epoch ≡ a.send_epoch + 1
    pub same_root : b1.root_key ≡ a2.root_key
    pub there : Linked kdf a2.send_chain a2 b1
    pub back : Linked kdf b1.send_chain b1 a2
    pub a_idle : a2.pending ≡ none
    pub b_idle : b1.pending ≡ none

  next_epoch-Linked :
      (keys other : EpochKeys) (s t : RatchetedSession)
      → s.send_epoch + 1 < 2 ^ 32
      → t.send_epoch ≡ s.send_epoch
      → other.new_recv ≡ keys.new_send
      → Linked kdf keys.new_send
          (next_epoch aead_law kdf_law x_law keys s)
          (next_epoch aead_law kdf_law x_law other t)
  unfolding chain_at new_recv_chain
  next_epoch-Linked keys other s t room e same = record {
    epoch_fits = room;
    seq_fits = omega arith;
    sending = refl;
    epochs = omega arith;
    receiving = record { at = same; keys = tt; bounded = omega arith };
  }

  -- The session of the responder, and of the initiator, after the step.
  abbrev answered : EpochKeys → Bytes → RatchetedSession → RecvChain → RatchetedSession
  answered keys rb b cb =
      next_epoch aead_law kdf_law x_law (other_side keys)
        (sent aead_law kdf x rb (record b { recv_current = cb }))

  abbrev finished : EpochKeys → Bytes → RatchetedSession → RecvChain → RatchetedSession
  finished keys ra a ca =
      next_epoch aead_law kdf_law x_law keys (record (sent aead_law kdf x ra a) {
        recv_current = ca;
        pending = none;
        pending_epoch = a.send_epoch;
      })

  module _ (ra rb : Bytes) (a b : RatchetedSession) (da db : Draw) (s : Synced kdf ra rb a b)
      (fine : x.was_contributory (x.diffie_hellman db.secret (x.x25519_public da.secret)) ≡ true)
      (c1 c2 : Bytes)
      (first_sealed : sealed_with aead_law kdf x ra a (1 ∷ step1_payload aead_law kdf_law x_law da)
        ≡ some c1)
      (reply_sealed : sealed_with aead_law kdf x rb b
          (2 ∷ step2_payload aead_law kdf_law x_law da db)
        ≡ some c2)
      (keys : EpochKeys) where
    open_record-step1 :
        derive_next_epoch aead kdf x a.root_key (answer x_law da db).shared_secret false
          ≡ ok (other_side keys)
        → (cb : RecvChain) × (open_record aead kdf x
              (header_bytes a.send_epoch a.send_seq ++ c1)
              db
              b
            ≡ (
              ok (ratchet_advanced (some (header_bytes b.send_epoch b.send_seq ++ c2))),
              answered keys rb b cb,
            ))
    open_record-step1 theirs =
        let p1 = 1 ∷ step1_payload aead_law kdf_law x_law da in
        let ss = (answer x_law da db).shared_secret in
        let (cb, run, _) =
          open_record-dispatch aead_law kdf x ra a b p1 c1 db s.there first_sealed s.a_new
            s.a_near in
        let t = record b { recv_current = cb } in
        (
          cb,
          run
              ∙ ap (λ n. dispatch aead kdf x n p1 db t) (sym s.same_epoch)
              ∙ dispatch_step1 aead_law kdf_law x_law da db rb t c2 (other_side keys) (record {
                fine = fine;
                idle = s.b_idle;
                fits = s.back.seq_fits;
                room = omega (arith, s.room, s.same_epoch);
                reply = reply_sealed;
                derived = ap (λ r. derive_next_epoch aead kdf x r ss false) s.same_root ∙ theirs;
              }),
        )

    open_record-step2 :
        (drawn : Draw)
        → derive_next_epoch aead kdf x a.root_key (answer x_law da db).shared_secret true ≡ ok keys
        → (ca : RecvChain) × (open_record aead kdf x
              (header_bytes b.send_epoch b.send_seq ++ c2)
              drawn
              (begun da ra a)
            ≡ (ok (ratchet_advanced none), finished keys ra a ca))
    open_record-step2 drawn mine =
        let p2 = 2 ∷ step2_payload aead_law kdf_law x_law da db in
        let back : Linked kdf rb b (begun da ra a) = record {
          epoch_fits = s.back.epoch_fits;
          seq_fits = s.back.seq_fits;
          sending = s.back.sending;
          epochs = s.back.epochs;
          receiving = s.back.receiving;
        } in
        let (ca, run, _) =
          open_record-dispatch aead_law kdf x rb b (begun da ra a) p2 c2 drawn back reply_sealed
            s.b_new s.b_near in
        (
          ca,
          run
              ∙ ap
                  (λ n.
                    dispatch aead kdf x n p2 drawn (record (begun da ra a) { recv_current = ca }))
                  s.same_epoch
              ∙ dispatch_step2 aead_law kdf_law x_law da db drawn
                  (record (sent aead_law kdf x ra a) { recv_current = ca }) keys fine s.room mine,
        )

  finished-Renewed :
      (ra rb : Bytes) (a b : RatchetedSession) (ca cb : RecvChain) (keys : EpochKeys)
      → Synced kdf ra rb a b
      → Renewed a (finished keys ra a ca) (answered keys rb b cb)
  finished-Renewed ra rb a b ca cb keys s = record {
    a_epoch = refl;
    b_epoch = omega (arith, s.same_epoch);
    same_root = refl;
    there =
        next_epoch-Linked keys (other_side keys)
          (record (sent aead_law kdf x ra a) {
            recv_current = ca;
            pending = none;
            pending_epoch = a.send_epoch;
          })
          (sent aead_law kdf x rb (record b { recv_current = cb })) s.room s.same_epoch refl;
    back =
        next_epoch-Linked (other_side keys) keys
          (sent aead_law kdf x rb (record b { recv_current = cb }))
          (record (sent aead_law kdf x ra a) {
            recv_current = ca;
            pending = none;
            pending_epoch = a.send_epoch;
          })
          (omega (arith, s.room, s.same_epoch)) (sym s.same_epoch) refl;
    a_idle = refl;
    b_idle = s.b_idle;
  }

  -- Two sessions that are in step and can reach each other, with no step pending: the initiator begins a
  -- ratchet step, the peer answers it, and the initiator takes the answer. No call fails, and then both
  -- are in the next epoch with one root key, each receives on the chain that the other sends on, and no
  -- step is pending. The cipher seals every message, and the X25519 secret has a contribution.
  pub open_record-initiate_ratchet :
      (ra rb : Bytes) (a b : RatchetedSession) (da db drawn : Draw)
      → Synced kdf ra rb a b
      → x.was_contributory (x.diffie_hellman db.secret (x.x25519_public da.secret)) ≡ true
      → ((key nonce aad msg : Bytes) → (c : Bytes) × (aead.encrypt key nonce aad msg ≡ some c))
      → (first reply : Bytes) × (a1 a2 b1 : RatchetedSession) × (initiate_ratchet aead kdf x da a
          ≡ (ok first, a1))
        × (open_record aead kdf x first db b ≡ (ok (ratchet_advanced (some reply)), b1))
        × (open_record aead kdf x reply drawn a1 ≡ (ok (ratchet_advanced none), a2))
        × Renewed a a2 b1
  open_record-initiate_ratchet ra rb a b da db drawn s fine seals =
      let (c1, e1) = seals _ _ _ (1 ∷ step1_payload aead_law kdf_law x_law da) in
      let (c2, e2) = seals _ _ _ (2 ∷ step2_payload aead_law kdf_law x_law da db) in
      let (keys, mine, theirs) =
        derive_next_epoch-other_side kdf_law aead x a.root_key (answer x_law da db).shared_secret in
      let (cb, answered_run) = open_record-step1 ra rb a b da db s fine c1 c2 e1 e2 keys theirs in
      let (ca, finished_run) =
        open_record-step2 ra rb a b da db s fine c1 c2 e1 e2 keys drawn mine in
      (
        header_bytes a.send_epoch a.send_seq ++ c1,
        header_bytes b.send_epoch b.send_seq ++ c2,
        begun da ra a,
        finished keys ra a ca,
        answered keys rb b cb,
        initiate_ratchet-begun da ra a c1 s.a_idle s.there.seq_fits e1,
        answered_run,
        finished_run,
        finished-Renewed ra rb a b ca cb keys s,
      )
