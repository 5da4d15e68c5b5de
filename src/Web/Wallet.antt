-- ===== src/Web/Wallet.antt =====
-- Signing in with a wallet: apps/web/src/hooks/use-wallet.ts, `login` of hooks/use-auth.ts, and the
-- card of components/wallet-connect.tsx. The browser extensions and the server's answers are
-- parameters.
pub mod Login
use Prim.Native.String.{◌++◌}
use stprivy.Common.{String, Bool, true, false, not, Option, none, some, ◌==◌}
use stprivy.Common.Tests.{if◌then◌else◌}
use stprivy.Web.{Tab, AuthUser, set_auth}

-- `WalletType` and `WalletState`
pub data WalletType : Type 0 where
  freighter lobstr xbull : WalletType

pub record WalletState : Type 0 where
  pub address : Option String
  pub wallet_type : Option WalletType
  pub is_connecting : Bool
  pub error : Option String

-- How a call that is awaited ends.
pub data Attempt (A : Type 0) : Type 0 where
  returns : A → Attempt A
  throws : (message : String) → Attempt A

-- a field of the object that Freighter may answer with: absent, a text, or something else
pub data Field : Type 0 where
  absent other : Field
  text : String → Field

-- what `signTransaction` answers with
pub data Signed : Type 0 where
  plain : String → Signed
  object : (signed_tx_xdr xdr result signed_xdr : Field) → Signed
  nothing : Signed

-- The extensions: an SDK that is not installed is none. `hex_to_base64` and `is_hex` are the
-- browser's `btoa` and the test for 128 hexadecimal digits.
pub record Extensions : Type 0 where
  pub freighter_connected : Bool
  pub freighter_access : Attempt String
  pub freighter_sign : (xdr : String) → Attempt Signed
  pub xbull_key : Option (Attempt String)
  pub xbull_sign : Option ((message : String) → Attempt String)
  pub lobstr_key : Option (Attempt String)
  pub lobstr_sign : Option ((message : String) → Attempt String)
  pub hex_to_base64 : String → String
  pub is_hex : String → Bool
  -- the text of `JSON.stringify` of what Freighter answered with
  pub stringify : Signed → String

-- `await` in a function that throws
module _ {A B : Type 0} where
  infixl 5 ◌>>=◌
  abbrev pub ◌>>=◌ : Attempt A → (A → Attempt B) → Attempt B
  returns a >>= k = k a
  throws message >>= k = throws message

module _ (x : Extensions) where
  abbrev non_empty : String → Attempt String
  non_empty address =
      if address == "" then throws "Freighter did not return an address" else returns address

  abbrev sdk : (missing : String) → Option (Attempt String) → Attempt String
  sdk missing none = throws missing
  sdk missing (some answer) = answer

  -- `connectFreighter`, `connectXBull` and `connectLobstr`
  unfoldable pub connect_with : WalletType → Attempt String
  connect_with WalletType.freighter =
      if x.freighter_connected
      then x.freighter_access >>= non_empty
      else throws "Freighter extension not found. Install it at freighter.app"
  connect_with WalletType.xbull = sdk "xBull wallet not found. Install the extension." x.xbull_key
  connect_with WalletType.lobstr =
      sdk "LOBSTR wallet not found. Install the extension." x.lobstr_key

  -- `obj.signedTxXdr ?? obj.xdr ?? obj.result ?? obj.signedXdr`
  abbrev or_else : Field → Field → Field
  or_else absent g = g
  or_else other g = other
  or_else (text t) g = text t

  abbrev read_field : Signed → Field → Attempt String
  read_field s (text t) = returns t
  read_field s _ = throws ("Unexpected response from Freighter signTransaction: " ++ x.stringify s)

  -- what is read of Freighter's answer
  abbrev pub read_signed : Signed → Attempt String
  read_signed (plain t) = returns t
  read_signed (object a b c d) = read_field (object a b c d) (or_else a (or_else b (or_else c d)))
  read_signed nothing = read_field nothing absent

  abbrev signed_by : (missing : String) → Option (String → Attempt String) → String → Attempt String
  signed_by missing none message = throws missing
  signed_by missing (some sign) message = sign message

  -- `signWithFreighter`, `signWithXBull` and `signWithLobstr`
  unfoldable pub sign_with : WalletType → (message : String) → Attempt String
  sign_with WalletType.freighter message = x.freighter_sign message >>= read_signed
  sign_with WalletType.xbull message =
      signed_by "xBull wallet not found." x.xbull_sign message >>= λ s. returns (x.hex_to_base64 s)
  sign_with WalletType.lobstr message =
      signed_by "LOBSTR wallet not found." x.lobstr_sign message >>= λ s.
      returns (if x.is_hex s then x.hex_to_base64 s else s)

  -- `signMessage`, with the wallet type of the rendering that made it
  unfoldable pub sign_message :
      (wallet_type : Option WalletType) → (message : String) → Attempt String
  sign_message none message = throws "No wallet connected"
  sign_message (some w) message = sign_with w message

abbrev pub connecting : WalletState → WalletState
connecting s = record s { is_connecting = true; error = none }

abbrev pub settled : WalletType → Attempt String → WalletState → WalletState
settled w (returns address) s = record {
  address = some address;
  wallet_type = some w;
  is_connecting = false;
  error = none;
}
settled w (throws message) s = record s { is_connecting = false; error = some message }

-- `connect`: the state that it leaves, beside how it ends
unfoldable pub connect : Extensions → WalletType → WalletState → WalletState × Attempt String
connect x w s = (settled w (connect_with x w) (connecting s), connect_with x w)

-- `disconnect`
unfoldable pub disconnect : WalletState → WalletState
disconnect s = record { address = none; wallet_type = none; is_connecting = false; error = none }

-- The server as the page calls it: the challenge for an address, and the answer to a login.
pub record AuthRoutes : Type 0 where
  pub challenge : (address : String) → Attempt String
  pub login : (signed_transaction : String) → Attempt (String × AuthUser)

-- `login` of `useAuth`: the tab after it, beside how it ends
abbrev pub entered : Attempt (String × AuthUser) → Tab → Tab × Attempt AuthUser
entered (returns (token, user)) t = (set_auth token user t, returns user)
entered (throws message) t = (t, throws message)

unfoldable pub log_in :
    AuthRoutes
    → (address : String) → (sign : String → Attempt String) → Tab
    → Tab × Attempt AuthUser
log_in routes address sign t =
    entered (routes.challenge address >>= λ xdr. sign xdr >>= λ signed. routes.login signed) t

pub data Step : Type 0 where
  select signing : Step

-- `WalletConnect`, with the tab and the page that it was sent to
pub record ConnectCard : Type 0 where
  pub wallet : WalletState
  pub step : Step
  pub auth_error : Option String
  pub tab : Tab
  pub sent_to : Option String

abbrev failed : (message : String) → ConnectCard → ConnectCard
failed message c = record c { step = select; auth_error = some message }

abbrev pub finished : Tab × Attempt AuthUser → ConnectCard → ConnectCard
finished (t, returns user) c = record c { tab = t; sent_to = some "/dashboard" }
finished (t, throws message) c = failed message (record c { tab = t })

abbrev pub signed_in :
    AuthRoutes → (sign : String → Attempt String) → Attempt String → ConnectCard → ConnectCard
signed_in routes sign (returns address) c = finished (log_in routes address sign c.tab) c
signed_in routes sign (throws message) c = failed message c

-- `handleConnect`; the `signMessage` that it calls is the one of the rendering that was clicked
unfoldable pub handle_connect : Extensions → AuthRoutes → WalletType → ConnectCard → ConnectCard
handle_connect x routes w c =
    let (s, answer) = connect x w c.wallet in
    signed_in routes (sign_message x c.wallet.wallet_type) answer
      (record c { wallet = s; step = signing; auth_error = none })

-- the error that the card shows
unfoldable pub shown_error : ConnectCard → Option String
shown_error c = elim c.wallet.error [ none ↦ c.auth_error | some message ↦ some message ]
