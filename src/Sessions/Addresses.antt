-- ===== src/Sessions/Addresses.antt =====
-- `connected_ips_` in MatchingServer/src/core/session.cpp: the handshake of a second connection from
-- an address, and its end.

use socket_communication.Common.{
  if◌then◌else◌, ◌==◌, nat_eq, int_eq, bytes_eq, string_eq, ==_iff, is_empty, delete_rows, any_row,
  Ran, ◌>>◌, pure, ran, threw, lookup, erase, lookup-insert, ℕ, String, ◌≡◌, refl, ap, subst, ◌∙◌,
  Bool, true, false, some, List, [], ◌∷◌, ◌++◌, arith,
}
use socket_communication.Db.{Text, room_status_eq, game_status_eq}
use socket_communication.Protocol.{Request, contains, absent, mistyped, given}
use socket_communication.AuthService.{External}
use socket_communication.Server.{
  Session, Server, modify, drop_entry, register_session, remove_mirror_session, allow_connection,
  remove_connection, leave_token, destroy,
}
use socket_communication.Sessions.{World, send, handle_error, set_token, connected, ip_in_use}
use socket_communication.Sessions.Requests.{process_request}
use socket_communication.Sessions.Handshake.{initialize, admit_client, ip_of, client_handshake}
use socket_communication.Sessions.Quiet.{SameRegistries, modify-keeps, handle_error-Quiet}

module _ (x : External) (now s : ℕ) (q : Request) where
  abbrev go_on : World → Server × Bool → Ran World (Unit {0})
  go_on w (server, allowed) =
      ((if allowed then pure tt else (send s ip_in_use >> handle_error s))
          >> admit_client x now s q)
        (record w { server = server })

  asked :
      (w : World)
      → client_handshake x now s q w ≡ go_on w (allow_connection (ip_of s w.server) w.server)
  unfolding client_handshake
  asked w = refl

  refused_address :
      (w : World)
      → any_row (λ i. i == ip_of s w.server) w.server.connected_ips ≡ true
      → allow_connection (ip_of s w.server) w.server ≡ (w.server, false)
  unfolding allow_connection
  refused_address w h = rw h refl

  abbrev told_of : World → World
  told_of w = record w { sent = w.sent ++ (s, ip_in_use) ∷ [] }

  gone_on :
      (w : World)
      → (w' : World) × (go_on w (w.server, false) ≡ admit_client x now s q w')
        × SameRegistries w.server w'.server
        × (w'.server.sessions ≡ w.server.sessions)
  unfolding send
  gone_on w =
      let (w', r, k, same) = handle_error-Quiet s (told_of w) in
      (
        w',
        ap
            (λ v. elim v as (λ _. Ran World (Unit {0})) [
              | ran u w' ↦ admit_client x now s q w'
              | threw w' ↦ threw w'
            ])
            r,
        k,
        same,
      )

  abbrev registered : World → Server
  registered w = (register_session s w.server).0

  abbrev admitted_to : World → World
  admitted_to w = record w {
    server = modify s (set_token w.server.next_token) (registered w);
    sent = w.sent ++ (s, connected) ∷ [];
  }

  -- A client that says the version and no action is admitted.
  admitted :
      (w : World) (v : String)
      → q.version ≡ given v
      → (w.server.version == v) ≡ true
      → q.action ≡ absent
      → admit_client x now s q w ≡ ran tt (admitted_to w)
  unfolding admit_client initialize register_session send
  admitted w v e m a =
      ap
        (λ f. elim f as (λ _. Ran World (Unit {0})) [
          | absent ↦ handle_error s w
          | mistyped ↦ threw w
          | given u ↦
              if w.server.version == u
              then (initialize s
                    >> (if contains q.action then process_request x now s q else send s connected))
                  w
              else handle_error s w
        ])
        e
      ∙ ap
          (λ b.
            if b
            then (initialize s
                  >> (if contains q.action then process_request x now s q else send s connected))
                w
            else handle_error s w)
          m
      ∙ ap
          (λ f.
            (initialize s >> (if contains f then process_request x now s q else send s connected))
              w)
          a

  in_registry : (w : World) → lookup w.server.next_token (admitted_to w).server.sessions ≡ some s
  unfolding register_session
  in_registry w =
      let kept = (modify-keeps s (set_token w.server.next_token) (registered w)).1 in
      let put =
        lookup-insert w.server.next_token w.server.next_token s (drop_entry s w.server.sessions) in
      ap (lookup w.server.next_token) kept
      ∙ put
      ∙ ap (λ b. if b then some s else lookup w.server.next_token (drop_entry s w.server.sessions))
          ((==_iff w.server.next_token w.server.next_token).1 refl)

  -- The handshake of a client from an address that is in use, who says the server's version and no
  -- action, returns with the session in the registry under a new token: it is told that the address is
  -- in use, and then admitted.
  pub used_address_admitted :
      (w : World)
      → any_row (λ i. i == ip_of s w.server) w.server.connected_ips ≡ true
      → q.version ≡ given w.server.version
      → q.action ≡ absent
      → (w' : World) × (client_handshake x now s q w ≡ ran tt w')
        × (lookup w.server.next_token w'.server.sessions ≡ some s)
  used_address_admitted w used v a =
      let (w1, goes, k, same) = gone_on w in
      (
        admitted_to w1,
        asked w
            ∙ ap (go_on w) (refused_address w used)
            ∙ goes
            ∙ admitted w1 w.server.version v
                ((==_iff w1.server.version w.server.version).1 k.version_kept) a,
        subst (λ n. lookup n (admitted_to w1).server.sessions ≡ some s) k.draws_kept
            (in_registry w1),
      )

any_row-delete_rows : (p : Text → Bool) (xs : List Text) → any_row p (delete_rows p xs) ≡ false
unfolding any_row delete_rows
any_row-delete_rows p [] = refl
any_row-delete_rows p (y ∷ xs) = ground (arith, any_row-delete_rows p xs)

removed_free : (ip : Text) (w : Server) → (allow_connection ip (remove_connection ip w)).1 ≡ true
unfolding allow_connection remove_connection
removed_free ip w = ap answer (any_row-delete_rows (λ i. i == ip) w.connected_ips)
  where
    answer : Bool → Bool
    answer b =
        let r : Server × Bool = if b then (remove_connection ip w, false) else (
          record w { connected_ips = ip ∷ delete_rows (λ i. i == ip) w.connected_ips },
          true,
        ) in
        r.1

-- The end of any session of an address, the refused one too, frees the address: whatever other session
-- of it is still connected, the next connection is let in.
pub destroy-frees_address :
    (s : ℕ) (o : Session) (w : Server)
    → is_empty o.remote_ip ≡ false
    → (allow_connection o.remote_ip (destroy s o w)).1 ≡ true
unfolding destroy
destroy-frees_address s o w h =
    ap
      (λ b.
        (allow_connection o.remote_ip (if b then left else remove_connection o.remote_ip left)).1)
      h
    ∙ removed_free o.remote_ip left
  where
    gone : Server
    gone = record w { objects = erase s w.objects }

    left : Server
    left =
        leave_token o.token o.user_id
          (if o.is_mirror then remove_mirror_session o.mirror_port gone else gone)
