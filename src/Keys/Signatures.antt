-- ===== src/Keys/Signatures.antt =====
-- The check of the signature of a block: `checkSignatureBlock` of src/PrivateKey.cpp, with
-- `crypto_check_sign_data` and `makeAddressFromSecpKey` of src/BlockchainUtils.cpp. The library is
-- initialized.
use node_infrastructure_torr.Prelude.{
  Bool, true, false, Bytes, none, some, bytes_eq, Result, ok, err, fault, ◌>>=◌, ◌>>◌, check,
  not_success, incorrect_type,
}
use node_infrastructure_torr.Serialize.Cursor.{whole}
use node_infrastructure_torr.Keys.{Crypto, get_address}
use node_infrastructure_torr.Keys.BlockSignature.{BlockSignature, read_block_signature}

module _ (crypto : Crypto) where
  -- check_sign(data, sign, pubk), which `crypto_check_sign_data` calls
  unfoldable pub check_sign : Bytes → Bytes → Bytes → Bool
  check_sign d sign pubk = elim (crypto.d2i_pubkey pubk) [
    | none ↦ false
    | some pubkey ↦ elim (crypto.d2i_ecdsa_sig sign) [
      | none ↦ false
      | some signature ↦ crypto.ecdsa_do_verify (crypto.sha256 d) signature pubkey
    ]
  ]

  unfoldable pub make_address_from_secp_key : Bytes → Result Bytes
  make_address_from_secp_key pubkey = elim (crypto.secp_uncompressed pubkey) [
    | none ↦ err incorrect_type
    | some pubkey_data ↦ get_address crypto true pubkey_data
  ]

  -- CHECK(calculatedAddress == result.address), and the result
  unfoldable pub same_address : BlockSignature → Bytes → Result BlockSignature
  same_address r calculated_address =
      check (bytes_eq calculated_address r.address) not_success >> ok r

  -- catch (const exception &)
  abbrev pub catch_error {ℓ} : {A : Type ℓ} → Result A → Result A → Result A
  catch_error (ok a) handler = ok a
  catch_error (err e) handler = handler
  catch_error fault handler = fault

  unfoldable pub check_address : BlockSignature → Result BlockSignature
  check_address r =
      catch_error (do a ← make_address_from_secp_key r.pubkey; same_address r a)
        (do a ← get_address crypto true r.pubkey; same_address r a)

  unfoldable pub check_signature_block : Bytes → Result BlockSignature
  check_signature_block block_dump = do
    r ← whole read_block_signature block_dump
    check (check_sign r.block r.sign r.pubkey) not_success
    check_address r
