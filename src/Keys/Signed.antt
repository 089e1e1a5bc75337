-- ===== src/Keys/Signed.antt =====
-- Signed blocks: `checkSignatureBlock` of src/PrivateKey.cpp returns what `makeBlockSign` signed, and
-- nothing that is not signed.
use node_infrastructure_torr.Prelude.{
  ◌^◌, ◌<◌, ◌≡◌, refl, sym, ap, ◌∙◌, ◌⊎◌, inl, inr, true, Bytes, bytes_eq, bytes_eq_iff, [], ◌++◌,
  append-nil, append_assoc, length, Result, ok, ◌>>=◌, chain_ok, check-eq-ok, Result-cases, check,
  not_success,
}
use node_infrastructure_torr.Serialize.{serialize_string, deserialize_string}
use node_infrastructure_torr.Serialize.RoundTrip.{Decodes-string}
use node_infrastructure_torr.Serialize.Cursor.{
  whole, Decodes, Decodes-bind, Decodes-pure, DecodesEnd-whole, DecodesEnd-of_Decodes,
}
use node_infrastructure_torr.Keys.{Crypto, get_address}
use node_infrastructure_torr.Keys.BlockSignature.{
  BlockSignature, make_first_part_block_sign, make_block_sign, read_block_signature,
}
use node_infrastructure_torr.Keys.Signatures.{
  check_sign, make_address_from_secp_key, same_address, check_address, check_signature_block,
}

module _ (block sign pubkey address : Bytes) where
  abbrev pub signed : BlockSignature
  signed = record { block = block; sign = sign; pubkey = pubkey; address = address }

  Decodes-block_signature :
      Decodes read_block_signature
        (serialize_string block
          ++ (serialize_string sign
              ++ (serialize_string pubkey ++ (serialize_string address ++ []))))
        signed
  unfolding read_block_signature
  Decodes-block_signature = Decodes-bind deserialize_string _ (Decodes-string block) (
      Decodes-bind deserialize_string _ (Decodes-string sign) (
        Decodes-bind deserialize_string _ (Decodes-string pubkey)
          (Decodes-bind deserialize_string _ (Decodes-string address) (Decodes-pure signed))))

  first_part : make_first_part_block_sign (length block) ++ block ≡ serialize_string block
  unfolding make_first_part_block_sign serialize_string
  first_part = refl

  -- The whole signed message.
  abbrev pub message : Bytes
  message =
      make_first_part_block_sign (length block) ++ (block ++ make_block_sign sign pubkey address)

  message_parts :
      message
      ≡ serialize_string block
        ++ (serialize_string sign ++ (serialize_string pubkey ++ (serialize_string address ++ [])))
  unfolding make_block_sign
  message_parts =
      sym (append_assoc (make_first_part_block_sign (length block)) block _)
      ∙ rw (first_part, append-nil (serialize_string address)) refl

  read_message : length message < 2 ^ 64 → whole read_block_signature message ≡ ok signed
  unfolding whole
  read_message h =
      rw message_parts
        (DecodesEnd-whole (DecodesEnd-of_Decodes Decodes-block_signature) (rw message_parts at h))

  module _ (crypto : Crypto) where
    -- The message of a block, its signature, the key and the address passes the check, and all four
    -- come back, where the signature is one of the block by the key, the address is the one that the
    -- key has read as a secp256k1 key, and the message is shorter than 2 ^ 64.
    pub check_signature_block-make_block_sign :
        check_sign crypto block sign pubkey ≡ true
        → make_address_from_secp_key crypto pubkey ≡ ok address
        → length message < 2 ^ 64
        → check_signature_block crypto message ≡ ok signed
    unfolding check_signature_block check_address same_address
    check_signature_block-make_block_sign s a h =
        rw (read_message h, s, a, (bytes_eq_iff address address).1 refl) refl

same_address_sound :
    (crypto : Crypto) (r : BlockSignature) (a : Bytes) {r' : BlockSignature}
    → same_address crypto r a ≡ ok r'
    → (r ≡ r') × (a ≡ r.address)
unfolding same_address
same_address_sound crypto r a {r' = r'} e =
    let (u, f, g) = chain_ok (check (bytes_eq a r.address) not_success) (λ _. ok r) e in
    (cc g, (bytes_eq_iff a r.address).0 (check-eq-ok (bytes_eq a r.address) not_success f))

-- An address that was computed and is the one of the result.
found_address :
    (crypto : Crypto) (computed : Result Bytes) (r : BlockSignature) {r' : BlockSignature}
    → (computed >>= same_address crypto r) ≡ ok r'
    → (r ≡ r') × (computed ≡ ok r.address)
found_address crypto computed r e =
    let (a, f, g) = chain_ok computed (same_address crypto r) e in
    let (same, h) = same_address_sound crypto r a g in (same, f ∙ ap ok h)

check_address_sound :
    (crypto : Crypto) (r : BlockSignature) {r' : BlockSignature}
    → check_address crypto r ≡ ok r'
    → (r ≡ r')
      × ((make_address_from_secp_key crypto r.pubkey ≡ ok r.address)
          ⊎ (get_address crypto true r.pubkey ≡ ok r.address))
unfolding check_address
check_address_sound crypto r {r' = r'} e =
    elim (Result-cases (make_address_from_secp_key crypto r.pubkey >>= same_address crypto r)) [
      | inl (s, f) ↦
          let (same, g) = found_address crypto (make_address_from_secp_key crypto r.pubkey) r f in
          (same ∙ cc (rw f at e), inl g)
      | inr (inl (x, f)) ↦
          let (same, g) = found_address crypto (get_address crypto true r.pubkey) r (rw f at e) in
          (same, inr g)
      | inr (inr f) ↦ absurd (cc (rw f at e))
    ]

-- The check accepts no message but one from which it reads a block, a signature of this block by the
-- key in the message, and the address of the key, in one of the two ways to compute it.
pub check_signature_block_sound :
    (crypto : Crypto) (block_dump : Bytes) {r : BlockSignature}
    → check_signature_block crypto block_dump ≡ ok r
    → (whole read_block_signature block_dump ≡ ok r)
      × (check_sign crypto r.block r.sign r.pubkey ≡ true)
      × ((make_address_from_secp_key crypto r.pubkey ≡ ok r.address)
          ⊎ (get_address crypto true r.pubkey ≡ ok r.address))
unfolding check_signature_block
check_signature_block_sound crypto block_dump {r = r} e =
    let (r0, f, g) = chain_ok (whole read_block_signature block_dump) _ e in
    let (u, p, q) =
      chain_ok (check (check_sign crypto r0.block r0.sign r0.pubkey) not_success) _ g in
    let (same, h) = check_address_sound crypto r0 q in
    rw (← same) (f, check-eq-ok _ not_success p, h)
