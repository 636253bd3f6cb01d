-- ===== src/GameSocket/Gateway/Holds.antt =====
-- What no client of GameSocketServer/src can change.

use mathlib.Core.List.Perm
use socket_communication.GameSocket.Effects.{Leads, Leads-both}
use socket_communication.Common.{◌≡◌, refl, List, [], map}
use socket_communication.Db.{Text}
use socket_communication.DbPool.Slots.{IsValid}
use socket_communication.GameSocket.Store.{Store}
use socket_communication.GameSocket.AuthApi.{Library, handle_request}
use socket_communication.GameSocket.AuthApi.Register.{IsDigest}
use socket_communication.GameSocket.Session.Keeps.{Drained, handle_request-Drained}
use socket_communication.GameSocket.Session.Accounts.{credentials, handle_request-credentials}
use socket_communication.GameSocket.Gateway.{Gateway, Happening, run_gateway}
use socket_communication.GameSocket.Gateway.Keeps.{run_gateway-Served}

-- The pool drained, and the same accounts.
abbrev pub Holds : Store → Store → Type 0
Holds s s' = Drained s.pool s'.pool × (map credentials s'.accounts ≡ map credentials s.accounts)

-- However many clients connect, whatever they send, in whatever order the handlers run and whatever
-- the database does, also where an exception ends the server: no database connection is given back to
-- the pool, so those in use at the end are those in use at the start and others, and where SHA-256
-- gives 32 bytes, no account is made or removed, and none has another id, name or password.
pub run_gateway-Holds :
    (x : Library) (digests : (t : Text) → IsDigest (x.sha256 t)) (hs : List Happening) (g : Gateway)
    → IsValid g.store.pool
    → Leads (λ _ g'. Holds g.store g'.store) (λ _ g'. Holds g.store g'.store) (run_gateway x hs g)
run_gateway-Holds x digests hs g v =
    run_gateway-Served x (Holds g.store)
      (λ q s h.
        Leads-both _ _ _ _ (handle_request x q s) (handle_request-Drained x g.store.pool q s h.0)
          (handle_request-credentials x digests g.store.accounts q s h.1))
      (λ f l s h. h) hs g ((v, ([], Perm.refl _)), refl)
