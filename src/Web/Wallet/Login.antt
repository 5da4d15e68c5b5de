-- ===== src/Web/Wallet/Login.antt =====
-- When the card signs a user in.
use stprivy.Common.{◌≡◌, ◌∙◌, ap, refl, String, true, false, none, some, List, [], ◌∷◌}
use stprivy.Common.Tests.{is_some}
use stprivy.Web.{AuthUser, set_auth}
use stprivy.Web.Wallet.{
  WalletType, WalletState, Attempt, returns, throws, Extensions, connect_with, sign_with,
  sign_message, connect, disconnect, AuthRoutes, log_in, select, signing, ConnectCard,
  handle_connect, shown_error, settled, entered, finished, signed_in,
}

module _ (x : Extensions) (routes : AuthRoutes) where
  abbrev pub connected : WalletType → (address : String) → WalletState
  connected w address = record {
    address = some address;
    wallet_type = some w;
    is_connecting = false;
    error = none;
  }

  -- The first time that a wallet is connected nobody is signed in, although the wallet and the
  -- server answer: the card says that no wallet is connected, while one is.
  first_connect :
      (w : WalletType) (address xdr : String) (c : ConnectCard)
      → c.wallet.wallet_type ≡ none
      → connect_with x w ≡ returns address
      → routes.challenge address ≡ returns xdr
      → handle_connect x routes w c ≡ record c {
        wallet = connected w address;
        step = select;
        auth_error = some "No wallet connected";
      }
  unfolding handle_connect connect log_in sign_message
  first_connect w address xdr c bare opened asked = rw (opened, asked, bare) refl

  -- A later press signs in: with the wallet that the card was rendered with, whichever wallet is
  -- pressed, the challenge of the pressed wallet's address is signed; when the server takes the
  -- signature, the tab holds the token and the user, and goes to the dashboard.
  later_connect :
      (w rendered_with : WalletType) (address xdr signed token : String) (user : AuthUser)
      (c : ConnectCard)
      → c.wallet.wallet_type ≡ some rendered_with
      → connect_with x w ≡ returns address
      → routes.challenge address ≡ returns xdr
      → sign_with x rendered_with xdr ≡ returns signed
      → routes.login signed ≡ returns (token, user)
      → handle_connect x routes w c ≡ record c {
        wallet = connected w address;
        step = signing;
        auth_error = none;
        tab = set_auth token user c.tab;
        sent_to = some "/dashboard";
      }
  unfolding handle_connect connect log_in sign_message
  later_connect w rendered_with address xdr signed token user c bare opened asked sealed taken =
      rw (opened, asked, bare, sealed, taken) refl

  -- With a wallet, a server and an account that work, a card that was never connected signs in at
  -- the second press of the wallet's button, and not at the first.
  pub second_connect :
      (w : WalletType) (address xdr signed token : String) (user : AuthUser) (c : ConnectCard)
      → c.wallet.wallet_type ≡ none
      → connect_with x w ≡ returns address
      → routes.challenge address ≡ returns xdr
      → sign_with x w xdr ≡ returns signed
      → routes.login signed ≡ returns (token, user)
      → let once = handle_connect x routes w c in
        let twice = handle_connect x routes w once in
        (once.tab ≡ c.tab)
        × (shown_error once ≡ some "No wallet connected")
        × (once.wallet ≡ connected w address)
        × (twice.tab ≡ set_auth token user c.tab)
        × (twice.sent_to ≡ some "/dashboard")
  unfolding shown_error
  second_connect w address xdr signed token user c bare opened asked sealed taken =
      let first = first_connect w address xdr c bare opened asked in
      let second =
        later_connect w w address xdr signed token user (handle_connect x routes w c)
          (ap (λ (d : ConnectCard). d.wallet.wallet_type) first) opened asked sealed taken in
      (
        ap (λ (d : ConnectCard). d.tab) first,
        rw first refl,
        ap (λ (d : ConnectCard). d.wallet) first,
        ap (λ (d : ConnectCard). d.tab) second
            ∙ ap (set_auth token user) (ap (λ (d : ConnectCard). d.tab) first),
        ap (λ (d : ConnectCard). d.sent_to) second,
      )

-- What happens to the card: a wallet's button is pressed, or the wallet is disconnected.
pub data Event : Type 0 where
  presses : Extensions → AuthRoutes → WalletType → Event
  disconnects : Event

abbrev pub step_of : Event → ConnectCard → ConnectCard
step_of (presses x routes w) c = handle_connect x routes w c
step_of disconnects c = record c { wallet = disconnect c.wallet }

unfoldable pub after : List Event → ConnectCard → ConnectCard
after [] c = c
after (e ∷ es) c = after es (step_of e c)

-- There is an address exactly if there is a wallet type, and a card that has gone to the dashboard
-- has left a token in the tab.
pub record Paired (c : ConnectCard) : Type 0 where
  pub address : is_some c.wallet.address ≡ is_some c.wallet.wallet_type
  pub token : (path : String) → c.sent_to ≡ some path → is_some c.tab.token ≡ true

settled-address :
    (w : WalletType) (answer : Attempt String) (s : WalletState)
    → is_some s.address ≡ is_some s.wallet_type
    → is_some (settled w answer s).address ≡ is_some (settled w answer s).wallet_type
settled-address w (returns address) s h = refl
settled-address w (throws message) s h = h

finished-Paired :
    (end : Attempt (String × AuthUser)) (c : ConnectCard)
    → Paired c
    → Paired (finished (entered end c.tab) c)
unfolding set_auth
finished-Paired (returns (token, user)) c h = record { address = h.address; token = λ path e. refl }
finished-Paired (throws message) c h = record { address = h.address; token = h.token }

signed_in-Paired :
    (routes : AuthRoutes) (sign : String → Attempt String) (answer : Attempt String)
    (c : ConnectCard)
    → Paired c
    → Paired (signed_in routes sign answer c)
unfolding log_in
signed_in-Paired routes sign (returns address) c h = finished-Paired _ c h
signed_in-Paired routes sign (throws message) c h = record { address = h.address; token = h.token }

step_of-Paired : (e : Event) (c : ConnectCard) → Paired c → Paired (step_of e c)
unfolding handle_connect connect disconnect
step_of-Paired (presses x routes w) c h =
    signed_in-Paired routes (sign_message x c.wallet.wallet_type) (connect_with x w) _
      (record { address = settled-address w (connect_with x w) _ h.address; token = h.token })
step_of-Paired disconnects c h = record { address = refl; token = h.token }

-- Whatever wallets are pressed, with whatever extensions and answers of the server: if the card has
-- an address exactly if it has a wallet type, and has gone to the dashboard only with a token in
-- the tab, then so it is afterwards.
pub after-Paired : (es : List Event) (c : ConnectCard) → Paired c → Paired (after es c)
unfolding after
after-Paired [] c h = h
after-Paired (e ∷ es) c h = after-Paired es (step_of e c) (step_of-Paired e c h)
