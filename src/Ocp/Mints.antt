-- ===== src/Ocp/Mints.antt =====
-- What OCP/server/mint/index.ts writes to a receipt: by its stub, and for an answer of the worker.
use open_cawt.Base.{String, Option, none, some}
use open_cawt.Ocp.{OcpMintStatus, Attestation, Mint}
use Prim.Native.String.{◌++◌}

-- The response of the worker, or the error of the last attempt to reach it.
pub data MintAnswer : Type 0 where
  minted : Option String → Option String → Option String → MintAnswer
  refused : Option String → Option String → Option String → MintAnswer
  unreachable : String → MintAnswer

unfoldable pub stub_mint : String → Attestation → Mint
stub_mint public_base_url t = record {
  mint_address = some ("STUB_MINT_" ++ t.agreement_code);
  tx_sig = some ("STUB_TX_" ++ t.proposal_id);
  metadata_uri = some (public_base_url ++ ("/v1/agreements/by-code/" ++ t.agreement_code));
  mint_status = OcpMintStatus.stub;
  mint_error = none;
}

-- `o ?? text`
abbrev or_text : Option String → String → String
or_text none text = text
or_text (some s) text = s

abbrev failed_mint : String → String → Mint
failed_mint uri error = record {
  mint_address = some "";
  tx_sig = some "";
  metadata_uri = some uri;
  mint_status = OcpMintStatus.failed;
  mint_error = some error;
}

unfoldable pub mint_of_answer : MintAnswer → Mint
mint_of_answer (minted asset_id tx_sig metadata_uri) = record {
  mint_address = some (or_text asset_id "");
  tx_sig = some (or_text tx_sig "");
  metadata_uri = some (or_text metadata_uri "");
  mint_status = OcpMintStatus.minted;
  mint_error = none;
}
mint_of_answer (refused error_code error_message metadata_uri) =
    failed_mint (or_text metadata_uri "")
      (or_text error_code "MINT_FAILED" ++ (": " ++ or_text error_message "Unknown mint error"))
mint_of_answer (unreachable error) = failed_mint "" error
