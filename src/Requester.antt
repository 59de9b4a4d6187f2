-- ===== src/Requester.antt =====
-- requester.h and requester.cpp: requests for an endpoint are given to an idle linker, to a connection
-- that takes one more, or to a new connection, of which there are at most `max_connections`.
-- `new` gives addresses that are not in use: they are arguments here.
pub mod Bounds
pub mod Given
pub mod Handing
pub mod Reached
pub mod Direct
use gnyproxy.Prelude.{
  ℕ, ◌-◌, ◌^◌, Bool, true, false, ◌&&◌, List, [], ◌∷◌, ◌++◌, Option, none, some, ltb, ◌==◌,
  if◌then◌else◌, length, Result, ok, ◌>>=◌, ◌>>◌, assert, in_range,
}
use gnyproxy.Prelude.Int.{ℤ, pos, negsuc}
use gnyproxy.HttpMessage.{HttpMessage, is_sent}
use gnyproxy.Socket.{Socket}
use gnyproxy.Codec.{Writers}
use gnyproxy.PointerSet.{insert, erase}
use gnyproxy.Multiconn.{put}
use gnyproxy.Client.{Dial, dial_socket}
use gnyproxy.ReqLinker.{Exchange, Endpoint, put_at, ReqLinker, Links, store}

-- The class Connector: a message is written before the connection `conn` has its turn. `writer` is
-- `none` where it is NULL. The address `conn` is that of another object.
pub record Connector (O : Writers) : Type 0 where
  pub writer : Option O.Writer
  pub conn : ℕ

module _ (O : Writers) where
  -- The constructor.
  unfoldable pub create_connector : Option HttpMessage → ℕ → Connector O
  create_connector none conn = record { writer = none; conn = conn }
  create_connector (some connect_msg) conn = record {
    writer = some (O.create connect_msg);
    conn = conn;
  }

  -- With what `conn->get_write_size()` gives.
  unfoldable pub connector_write_size : ℕ → Connector O → Result (ℕ × Connector O)
  connector_write_size conn_size c = elim c.writer [
    | none ↦ ok (conn_size, c)
    | some w ↦ do
      (amt, w') ← O.get_write_size w
      ok (
          if amt == 0 && is_sent (O.drained w')
          then (conn_size, record c { writer = none })
          else (amt, record c { writer = some w' }))
  ]

  -- Whether `conn->write(s, max_write)` is called, and the connector. What `write` returns is not defined.
  unfoldable pub connector_write : Connector O → Socket → ℕ → Result (Bool × Connector O)
  connector_write c s max_write = elim c.writer [
    | none ↦ ok (true, c)
    | some w ↦ do (amt, w') ← O.write w s max_write; ok (false, record c { writer = some w' })
  ]

-- `req_linker_data`: a request, or a connection with the message that goes before it.
pub data LinkData (X : Exchange) : Type 0 where
  request : X.Gen → LinkData X
  direct : Option HttpMessage → ℕ → LinkData X

-- What `req_linker_creator` makes: the linker at an address, or a connector.
pub data Made (X : Exchange) : Type 0 where
  linker : ℕ → Made X
  connector : Connector X.writer_creator → Made X

module _ (X : Exchange) where
  unfoldable pub req_linker_creator :
      Links X → Endpoint → LinkData X → ℕ → Result (Made X × Links X)
  req_linker_creator r endpoint (request gen) at = do
    l ← gnyproxy.ReqLinker.create X endpoint gen
    ok (linker at, store X r at l)
  req_linker_creator r endpoint (direct connect_msg conn) at =
      ok (connector (create_connector X.writer_creator connect_msg conn), r)

  -- The functions `wrapper_creator` and `connection_maker`. Both may make a linker with `req_linker_creator`,
  -- at the address given.
  pub record Wrapping : Type 1 where
    pub Wrapped : Type 0
    pub wrapper_creator : Links X → Endpoint → LinkData X → ℕ → Result (Wrapped × Links X)
    pub connection_maker :
        Links X → Wrapped → Endpoint → LinkData X → ℕ → Result (Bool × Wrapped × Links X)

  -- identity.h and identity.cpp: one connection on every socket.
  abbrev pub identity_wrap_creator : Links X → Endpoint → LinkData X → ℕ → Result (Made X × Links X)
  identity_wrap_creator r endpoint data_ at = req_linker_creator r endpoint data_ at

  abbrev pub default_connector :
      Links X → Made X → Endpoint → LinkData X → ℕ → Result (Bool × Made X × Links X)
  default_connector r conn endpoint data_ at = ok (false, conn, r)

  abbrev pub identity : Wrapping
  identity = record {
    Wrapped = Made X;
    wrapper_creator = identity_wrap_creator;
    connection_maker = default_connector;
  }

  module _ (W : Wrapping) where
    pub record WrapperWrapper : Type 0 where
      pub endpoint : Endpoint
      pub conn : W.Wrapped

    -- `cli` has the socket and the wrapper's address of every connection.
    pub record Requester : Type 0 where
      pub links : Links X
      pub wrappers : ℕ → Option WrapperWrapper
      pub conn_mp : Endpoint → List ℕ
      pub cli : List (ℕ × ℕ)
      pub max_connections : ℤ

    -- The constructor, with what the generators share.
    unfoldable pub create : X.World → ℤ → Requester
    create world max_connections = record {
      links = record { world = world; linkers = λ _. none; req_mp = λ _. [] };
      wrappers = λ _. none;
      conn_mp = λ _. [];
      cli = [];
      max_connections = max_connections;
    }

    -- `max_connections` as it is compared with a `size_t`.
    unfoldable pub limit : ℤ → ℕ
    limit (pos n) = n
    limit (negsuc n) = 2 ^ 64 - 1 - n

    -- The loop over the connections: the first one that takes it.
    unfoldable pub offer :
        Requester → Endpoint → LinkData X → ℕ → List ℕ → Result (Bool × Requester)
    offer r endpoint data_ at [] = ok (false, r)
    offer r endpoint data_ at (it ∷ cns) = do
      w ← in_range (r.wrappers it)
      (made, conn, links) ← W.connection_maker r.links w.conn endpoint data_ at
      let tried = record r {
        links = links;
        wrappers = put r.wrappers it (some (record w { conn = conn }));
      }
      elim made [ true ↦ ok (true, tried) | false ↦ offer tried endpoint data_ at cns ]

    -- `cli.connect`, which calls `create_wrapper`, and what follows it.
    unfoldable pub connect_new :
        Requester → Endpoint → LinkData X → Dial → ℕ → ℕ → Result (Bool × Requester)
    connect_new r endpoint data_ dial at at_wrapper = elim (dial_socket dial) [
      | none ↦ ok (false, r)
      | some s ↦ do
        (wrapped, made) ← W.wrapper_creator r.links endpoint data_ at
        (taken, conn, links) ← W.connection_maker made wrapped endpoint data_ at
        ok (
          true,
          record r {
            links = links;
            wrappers =
                put r.wrappers at_wrapper (some (record { endpoint = endpoint; conn = conn }));
            conn_mp = put_at r.conn_mp endpoint (insert at_wrapper (r.conn_mp endpoint));
            cli = r.cli ++ (s, at_wrapper) ∷ [];
          },
        )
    ]

    -- The connections that are there, and then a new one, if there may be one more.
    unfoldable pub add_connection :
        Requester → Endpoint → LinkData X → Dial → ℕ → ℕ → Result (Bool × Requester)
    add_connection r endpoint data_ dial at at_wrapper = do
      (taken, tried) ← offer r endpoint data_ at (r.conn_mp endpoint)
      elim taken [
        | true ↦ ok (true, tried)
        | false ↦ elim (ltb (length (tried.conn_mp endpoint)) (limit tried.max_connections)) [
          | true ↦ connect_new tried endpoint data_ dial at at_wrapper
          | false ↦ ok (false, tried)
        ]
      ]

    -- The idle linker `*reqs.begin()` gets the request; `others` are those behind it.
    unfoldable pub reuse : Requester → Endpoint → X.Gen → ℕ → List ℕ → Result (Bool × Requester)
    reuse r endpoint gen first others = do
      l ← in_range (r.links.linkers first)
      let (added, busy) = gnyproxy.ReqLinker.add_request X l gen
      assert added
      ok (
        true,
        record r {
          links = record (r.links) {
            linkers = put r.links.linkers first (some busy);
            req_mp = put_at r.links.req_mp endpoint others;
          };
        },
      )

    unfoldable pub add_request :
        Requester → Endpoint → X.Gen → Dial → ℕ → ℕ → Result (Bool × Requester)
    add_request r endpoint gen dial at at_wrapper = elim (r.links.req_mp endpoint) [
      | first ∷ others ↦ reuse r endpoint gen first others
      | [] ↦ add_connection r endpoint (request gen) dial at at_wrapper
    ]

    -- `~WrapperWrapper`, without the connection that it deletes.
    unfoldable pub destroy_wrapper : Requester → ℕ → Result Requester
    destroy_wrapper r at = do
      w ← in_range (r.wrappers at)
      ok (record r {
        wrappers = put r.wrappers at none;
        conn_mp = put_at r.conn_mp w.endpoint (erase at (r.conn_mp w.endpoint));
      })
