-- ===== src/HttpProxy/Tunnel/Reached.antt =====
-- A tunnel and its link, in any order of calls: the bytes keep their order.

use gnyproxy.Prelude.{ℕ, ◌≡◌, refl, true, ◌++◌, Option, none, some, Bytes, ok, Holds-ok}
use gnyproxy.Socket.{Socket, Received}
use gnyproxy.HttpProxy.Tunnel.Ends.{
  Ends, opened, tunnel_write, tunnel_read, link_write, link_read, tunnel_destroy, link_destroy,
}
use gnyproxy.HttpProxy.Tunnel.Order.{
  Follows, InOrder, tunnel_write-InOrder, tunnel_read-InOrder, link_write-InOrder,
  link_read-InOrder, tunnel_destroy-InOrder, link_destroy-InOrder,
}

-- Each side makes its calls while it is there.
pub data Reached : Ends → Type 0 where
  opens : Reached opened
  tunnel_writes :
      (e : Ends) (s : Socket) (max_write : ℕ) (e' : Ends)
      → Reached e
      → e.tunnel ≡ true
      → tunnel_write e s max_write ≡ ok e'
      → Reached e'
  tunnel_reads :
      (e : Ends) (recv : ℕ → Received) (max_read : ℕ) (e' : Ends)
      → Reached e
      → e.tunnel ≡ true
      → tunnel_read e recv max_read ≡ ok e'
      → Reached e'
  link_writes :
      (e : Ends) (s : Socket) (max_write : ℕ) (e' : Ends)
      → Reached e
      → e.link ≡ true
      → link_write e s max_write ≡ ok e'
      → Reached e'
  link_reads :
      (e : Ends) (recv : ℕ → Received) (max_read : ℕ) (e' : Ends)
      → Reached e
      → e.link ≡ true
      → link_read e recv max_read ≡ ok e'
      → Reached e'
  tunnel_destroys :
      (e e' : Ends) → Reached e → e.tunnel ≡ true → tunnel_destroy e ≡ ok e' → Reached e'
  link_destroys : (e e' : Ends) → Reached e → e.link ≡ true → link_destroy e ≡ ok e' → Reached e'

pub Reached-InOrder : (e : Ends) → Reached e → InOrder e
Reached-InOrder e opens = record { upwards = refl; downwards = refl }
Reached-InOrder e (tunnel_writes e0 s max_write e' before there eq) =
    Holds-ok InOrder _ e eq (tunnel_write-InOrder e0 s max_write (Reached-InOrder e0 before))
Reached-InOrder e (tunnel_reads e0 recv max_read e' before there eq) =
    Holds-ok InOrder _ e eq (tunnel_read-InOrder e0 recv max_read (Reached-InOrder e0 before))
Reached-InOrder e (link_writes e0 s max_write e' before there eq) =
    Holds-ok InOrder _ e eq (link_write-InOrder e0 s max_write (Reached-InOrder e0 before))
Reached-InOrder e (link_reads e0 recv max_read e' before there eq) =
    Holds-ok InOrder _ e eq (link_read-InOrder e0 recv max_read (Reached-InOrder e0 before))
Reached-InOrder e (tunnel_destroys e0 e' before there eq) =
    Holds-ok InOrder _ e eq (tunnel_destroy-InOrder e0 (Reached-InOrder e0 before))
Reached-InOrder e (link_destroys e0 e' before there eq) =
    Holds-ok InOrder _ e eq (link_destroy-InOrder e0 (Reached-InOrder e0 before))

-- After any calls of a tunnel and its link, each made while its side is there, the bytes sent to
-- the server are the first of those received from the client, and the bytes sent to the client are
-- the first of those received from the server.
pub to_server-from_client :
    (e : Ends)
    → Reached e
    → (up : Bytes) × (down : Bytes) × (e.to_server ++ up ≡ e.from_client)
      × (e.to_client ++ down ≡ e.from_server)
to_server-from_client e reached = by_strings e.pipe.strings (Reached-InOrder e reached)
  where
    by_strings :
        (o : Option (Bytes × Bytes))
        → Follows o e
        → (up : Bytes) × (down : Bytes) × (e.to_server ++ up ≡ e.from_client)
          × (e.to_client ++ down ≡ e.from_server)
    by_strings none (up, down, b) = (up, down, b.upwards, b.downwards)
    by_strings (some (up, down)) b = (up, down, b.upwards, b.downwards)
