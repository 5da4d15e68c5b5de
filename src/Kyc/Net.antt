-- ===== src/Kyc/Net.antt =====
-- What contract/kyc-contract.service.ts uses of the Stellar SDK, of the RPC server and of
-- JavaScript, as a parameter.
use stprivy.Common.{String, Bool, Option, List}
use stprivy.Common.Exec.{Result}
use stprivy.Kyc.Records.{Payload}

pub record ContractConfig : Type 0 where
  pub contract_id : String
  pub rpc_url : String
  pub network_passphrase : String
  pub secret_key : String

-- An argument of a contract call. Bytes are given in hexadecimal; `none` is `undefined`.
pub data Arg : Type 0 where
  text address : String → Arg
  bytes : Option String → Arg
  vec : List String → Arg

pub data TxStatus : Type 0 where
  success failed not_found : TxStatus

-- The SDK and the RPC server over a world `W`. Where they throw there is an error's message.
pub record Net : Type 1 where
  pub W : Type 0
  pub Account : Type 0
  pub Tx : Type 0
  pub public_key : (secret_key : String) → String
  -- `new Contract(id)` does not throw
  pub is_contract : (contract_id : String) → Bool
  pub get_account : (public_key : String) → W → Result Account × W
  pub build : (network_passphrase contract_id method : String) → List Arg → Account → Result Tx
  pub sign : (secret_key : String) → Tx → Tx
  pub to_xdr : Tx → String
  pub from_xdr : (xdr network_passphrase : String) → Result Tx
  pub simulate : Tx → W → Result (Unit {0}) × W
  pub send : Tx → W → Result String × W
  pub get_transaction : (hash : String) → W → Result TxStatus × W
  -- `JSON.parse`, with `none` where it or the first access throws, and `text.toLowerCase()`
  pub parse : String → Option Payload
  pub lower : String → String
