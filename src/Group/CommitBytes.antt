-- ===== src/Group/CommitBytes.antt =====
-- crates/core/src/group.rs: a commit is read back from its bytes.
use mathlib.Core.List.{append_assoc, append-nil}
use novachannel.Common.{
  ◌^◌, ◌≤◌, ◌<◌, ◌≡◌, refl, ap, sym, ◌∙◌, true, [], ◌++◌, arith, length, length-append, All, ok,
  Bytes, ◌==◌, ◌>>=◌, pure, and_then, fail, gets, if◌then◌else◌,
}
use novachannel.Errors.{Error, Call}
use novachannel.Crypto.{Primitives}
use novachannel.Identity.{write_signature}
use novachannel.Identity.Codec.{
  signature_bytes, write_signature-Writes, IsSignature, read_signature-Reads,
}
use novachannel.Wire.{
  Reader, new_reader, put_fixed, put_var, finished, to_be_bytes, length-to_be_bytes,
}
use novachannel.Wire.Codec.{
  Writes, Reads, Writes-then, Writes-into_bytes, Reads-bind, Reads-end, Reads-lift, Reads-pure,
  Reads-whole, finished_whole, put_fixed-Writes, put_var-Writes, get_fixed-Reads, get_var-Reads,
  get_number-Reads, prefixed,
}
use novachannel.Group.Messages.{
  UpdatePathNode, Commit, commit_signature_context, put_u32, write_op, write_path_node, write_each,
  write_commit_signed, commit_signed_bytes, write_commit, commit_to_bytes, read_path_node,
  read_commit_signed, read_commit, commit_from_bytes,
}
use novachannel.Group.Sealing.{SealedToNode, write_sealed, read_sealed}
use novachannel.Group.Keys.{write_key}
use novachannel.Group.Encoding.{
  u32_bytes, u32-Reads, key_bytes, write_key-Writes, sealed_bytes, write_sealed-Writes, op_bytes,
  write_op-Writes, each_bytes, write_each-Writes, read_counted-Reads, IsKey, IsSealed, IsOp,
  read_key-Reads, read_sealed-Reads, read_op-Reads,
}

abbrev path_node_bytes : UpdatePathNode → Bytes
path_node_bytes n =
    key_bytes n.public_key
    ++ (u32_bytes (length n.ciphertexts) ++ each_bytes sealed_bytes n.ciphertexts)

write_path_node-Writes : (n : UpdatePathNode) → Writes (write_path_node n) (path_node_bytes n)
unfolding write_path_node
write_path_node-Writes n =
    Writes-then (write_key n.public_key)
      (λ w. write_each write_sealed n.ciphertexts (put_u32 w (length n.ciphertexts))) _ _
      (write_key-Writes n.public_key)
      (Writes-then (λ w. put_u32 w (length n.ciphertexts)) (write_each write_sealed n.ciphertexts) _
        _ (put_fixed-Writes (u32_bytes (length n.ciphertexts)))
        (write_each-Writes sealed_bytes write_sealed write_sealed-Writes n.ciphertexts))

-- The fields behind the context.
abbrev pub fields_bytes : Commit → Bytes
fields_bytes c =
    c.group_id
    ++ (to_be_bytes 8 c.from_epoch
        ++ (u32_bytes c.sender_leaf
            ++ (op_bytes c.op ++ (u32_bytes (length c.path) ++ each_bytes path_node_bytes c.path))))

commit_signed_bytes_lem :
    (c : Commit)
    → commit_signed_bytes c.group_id c.from_epoch c.sender_leaf c.op c.path
      ≡ commit_signature_context ++ fields_bytes c
unfolding commit_signed_bytes write_commit_signed
commit_signed_bytes_lem c =
    let tail =
      Writes-then (λ w. put_u32 w (length c.path)) (write_each write_path_node c.path) _ _
        (put_fixed-Writes (u32_bytes (length c.path)))
        (write_each-Writes path_node_bytes write_path_node write_path_node-Writes c.path) in
    let op =
      Writes-then (write_op c.op)
        (λ w. write_each write_path_node c.path (put_u32 w (length c.path))) _ _
        (write_op-Writes c.op) tail in
    let leaf =
      Writes-then (λ w. put_u32 w c.sender_leaf)
        (λ w. write_each write_path_node c.path (put_u32 (write_op c.op w) (length c.path))) _ _
        (put_fixed-Writes (u32_bytes c.sender_leaf)) op in
    let epoch =
      Writes-then (λ w. put_fixed w (to_be_bytes 8 c.from_epoch))
        (λ w.
          write_each write_path_node c.path
            (put_u32 (write_op c.op (put_u32 w c.sender_leaf)) (length c.path)))
        _ _ (put_fixed-Writes (to_be_bytes 8 c.from_epoch)) leaf in
    let id =
      Writes-then (λ w. put_fixed w c.group_id)
        (λ w. write_each write_path_node c.path (
          put_u32 (write_op c.op (put_u32 (put_fixed w (to_be_bytes 8 c.from_epoch)) c.sender_leaf))
            (length c.path)))
        _ _ (put_fixed-Writes c.group_id) epoch in
    Writes-into_bytes (write_commit_signed c.group_id c.from_epoch c.sender_leaf c.op c.path) _ (
      Writes-then (λ w. put_fixed w commit_signature_context)
        (λ w. write_each write_path_node c.path (
          put_u32
            (write_op c.op (
              put_u32 (put_fixed (put_fixed w c.group_id) (to_be_bytes 8 c.from_epoch))
                c.sender_leaf))
            (length c.path)))
        _ _ (put_fixed-Writes commit_signature_context) id)

new_reader_buf : (b : Bytes) → (new_reader b).buf ≡ b
unfolding new_reader
new_reader_buf b = refl

new_reader_pos : (b : Bytes) → (new_reader b).pos ≡ 0
unfolding new_reader
new_reader_pos b = refl

length-prefixed : (b : Bytes) → 8 ≤ length (prefixed b)
length-prefixed b =
    omega (arith, length-append (to_be_bytes 8 (length b)) b, length-to_be_bytes 8 (length b))

length-sealed_bytes : (s : SealedToNode) → 1 ≤ length (sealed_bytes s)
length-sealed_bytes s = omega (
  arith,
  length-append s.eph_dh_public (prefixed s.kem_ct ++ prefixed s.ciphertext),
  length-append (prefixed s.kem_ct) (prefixed s.ciphertext),
  length-prefixed s.kem_ct,
)

length-path_node_bytes : (n : UpdatePathNode) → 1 ≤ length (path_node_bytes n)
length-path_node_bytes n = omega (
  arith,
  length-append (key_bytes n.public_key)
      (u32_bytes (length n.ciphertexts) ++ each_bytes sealed_bytes n.ciphertexts),
  length-append n.public_key.dh_public (prefixed n.public_key.kem_public),
  length-prefixed n.public_key.kem_public,
)

-- A reader whose result on the bytes `printed`, with nothing behind them, is `a`.
abbrev ReadsAll {ℓ} : {A : Type ℓ} → Call Reader A → Bytes → A → Type ℓ
ReadsAll read printed a =
    (r : Reader) (pre : Bytes) → r.buf ≡ pre ++ printed → r.pos ≡ length pre → (read r).0 ≡ ok a

ReadsAll-bind {ℓ κ} :
    {A : Type ℓ} {B : Type κ} (m : Call Reader A) (k : A → Call Reader B) (p q : Bytes) (a : A)
    (b : B)
    → Reads m p a
    → ReadsAll (k a) q b
    → ReadsAll (m >>= k) (p ++ q) b
ReadsAll-bind m k p q a b h t r pre e at =
    ap (λ res. (and_then res k).0) (h r pre q e at)
    ∙ t (record { buf = r.buf; pos = length (pre ++ p) }) (pre ++ p)
        (e ∙ sym (append_assoc pre p q)) refl

ReadsAll-end {ℓ κ} :
    {A : Type ℓ} {B : Type κ} (m : Call Reader A) (k : A → Call Reader B) (p : Bytes) (a : A)
    (b : B)
    → Reads m p a
    → ReadsAll (k a) [] b
    → ReadsAll (m >>= k) p b
ReadsAll-end m k p a b h t r pre e at =
    ReadsAll-bind m k p [] a b h t r pre (e ∙ ap (λ y. pre ++ y) (sym (append-nil p))) at

module _ (prim : Primitives) where
  pub record IsPathNode (n : UpdatePathNode) : Type 0 where
    pub public_key : IsKey prim n.public_key
    pub ciphertexts : All (IsSealed prim) n.ciphertexts
    pub count : length n.ciphertexts < 2 ^ 32

  -- A commit of which each part is within its width and was read or made by the crates.
  pub record IsCommit (c : Commit) : Type 0 where
    pub group_id : length c.group_id ≡ 16
    pub from_epoch : c.from_epoch < 2 ^ 64
    pub sender_leaf : c.sender_leaf < 2 ^ 32
    pub op : IsOp prim c.op
    pub path : All IsPathNode c.path
    pub levels : length c.path < 2 ^ 32
    pub signature : IsSignature prim.signatures c.signature
    pub fits :
        length (commit_signed_bytes c.group_id c.from_epoch c.sender_leaf c.op c.path) < 2 ^ 64

  read_path_node-Reads :
      (n : UpdatePathNode) → IsPathNode n → Reads (read_path_node prim) (path_node_bytes n) n
  unfolding read_path_node
  read_path_node-Reads n h =
      Reads-bind _ _ (key_bytes n.public_key)
        (u32_bytes (length n.ciphertexts) ++ each_bytes sealed_bytes n.ciphertexts) n.public_key n
        (read_key-Reads prim n.public_key h.public_key)
        (Reads-bind _ _ (u32_bytes (length n.ciphertexts)) (each_bytes sealed_bytes n.ciphertexts)
          (length n.ciphertexts) n (u32-Reads (length n.ciphertexts) h.count)
          (Reads-end _ _ (each_bytes sealed_bytes n.ciphertexts) n.ciphertexts n
            (read_counted-Reads sealed_bytes (read_sealed prim) (IsSealed prim) _
              (read_sealed-Reads prim) length-sealed_bytes n.ciphertexts h.ciphertexts)
            (Reads-pure n)))

  -- With nothing left to read, the commit is returned.
  ends :
      (c : Commit) (e : Error)
      → ReadsAll (gets finished >>= (λ at_end. if at_end then pure c else fail e)) [] c
  unfolding finished
  ends c e r pre whole at =
      let done : (r.pos == length r.buf) ≡ true =
        ground (arith, at, ap length (whole ∙ append-nil pre)) in
      rw done refl

  read_commit_signed-fields :
      (context : Bytes)
      → length context ≡ length commit_signature_context
      → (c : Commit) → IsCommit c
      → ReadsAll (read_commit_signed prim c.signature) (context ++ fields_bytes c) c
  unfolding read_commit_signed
  read_commit_signed-fields context size c h =
      ReadsAll-bind _ _ context _ context c
        (get_fixed-Reads context (length commit_signature_context) size)
        (ReadsAll-bind _ _ c.group_id _ c.group_id c (get_fixed-Reads c.group_id 16 h.group_id) (
          ReadsAll-bind _ _ (to_be_bytes 8 c.from_epoch) _ c.from_epoch c
            (get_number-Reads 8 c.from_epoch (omega (arith, h.from_epoch)))
            (ReadsAll-bind _ _ (u32_bytes c.sender_leaf) _ c.sender_leaf c
              (u32-Reads c.sender_leaf h.sender_leaf)
              (ReadsAll-bind _ _ (op_bytes c.op) _ c.op c (read_op-Reads prim c.op h.op) (
                ReadsAll-bind _ _ (u32_bytes (length c.path)) _ (length c.path) c
                  (u32-Reads (length c.path) h.levels)
                  (ReadsAll-end _ _ (each_bytes path_node_bytes c.path) c.path c
                    (read_counted-Reads path_node_bytes (read_path_node prim) IsPathNode _
                      read_path_node-Reads length-path_node_bytes c.path h.path)
                    (ends c _)))))))

  -- Commit_from_bytes reads one and the same commit, if its parts are within their widths and such
  -- as the crates read, whatever bytes stand in the place of the signature context, if they are as
  -- many.
  pub commit_from_bytes-any_context :
      (context : Bytes)
      → length context ≡ length commit_signature_context
      → (c : Commit) → IsCommit c
      → commit_from_bytes prim (prefixed (context ++ fields_bytes c) ++ signature_bytes c.signature)
        ≡ ok c
  unfolding commit_from_bytes read_commit
  commit_from_bytes-any_context context size c h =
      let signed = context ++ fields_bytes c in
      let printed = prefixed signed ++ signature_bytes c.signature in
      let fits : length signed < 2 ^ 64 = omega (
        arith,
        h.fits,
        size,
        ap length (commit_signed_bytes_lem c),
        length-append context (fields_bytes c),
        length-append commit_signature_context (fields_bytes c),
      ) in
      let fields : (read_commit_signed prim c.signature (new_reader signed)).0 ≡ ok c =
        read_commit_signed-fields context size c h (new_reader signed) [] (new_reader_buf signed)
          (new_reader_pos signed) in
      let read : Reads (read_commit prim) printed c =
        Reads-bind _ _ (prefixed signed) (signature_bytes c.signature) signed c
          (get_var-Reads signed fits)
          (Reads-end _ _ (signature_bytes c.signature) c.signature c
            (read_signature-Reads prim.signatures c.signature h.signature)
            (Reads-lift _ c fields)) in
      rw (Reads-whole (read_commit prim) printed c read, finished_whole printed) refl

  -- A commit whose parts are within their widths, and whose keys, ciphertexts and signatures are
  -- such as their crates read, is read back by commit_from_bytes from what commit_to_bytes writes,
  -- an added key package with the check of its proof of possession included; for a signed part
  -- shorter than 2 ^ 64 bytes.
  pub commit_from_bytes-commit_to_bytes :
      (c : Commit) → IsCommit c → commit_from_bytes prim (commit_to_bytes c) ≡ ok c
  unfolding commit_to_bytes write_commit
  commit_from_bytes-commit_to_bytes c h =
      let signed = commit_signed_bytes c.group_id c.from_epoch c.sender_leaf c.op c.path in
      let written : commit_to_bytes c ≡ prefixed signed ++ signature_bytes c.signature =
        Writes-into_bytes (write_commit c) _ (
          Writes-then (λ w. put_var w signed) (write_signature c.signature) _ _
            (put_var-Writes signed) (write_signature-Writes c.signature)) in
      ap (commit_from_bytes prim)
        (written ∙ ap (λ b. prefixed b ++ signature_bytes c.signature) (commit_signed_bytes_lem c))
      ∙ commit_from_bytes-any_context commit_signature_context refl c h
