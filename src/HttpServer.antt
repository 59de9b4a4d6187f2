-- ===== src/HttpServer.antt =====
-- http_server.h and http_server.cpp: the server's side of a connection. Requests are read one behind the other,
-- and every one has an EntityGenerator that makes its response; the responses are written in order.
pub mod Serving
pub mod Calls
use gnyproxy.Prelude.{
  ℕ, Bool, true, false, ◌&&◌, List, [], ◌∷◌, ◌++◌, Option, none, some, ◌==◌, if◌then◌else◌, Result,
  ok, ◌>>=◌, in_range,
}
use gnyproxy.Prelude.Int.{ℤ}
use gnyproxy.HttpMessage.{MessageState, rank, HttpMessage, init, is_sent}
use gnyproxy.Socket.{Socket}
use gnyproxy.Codec.{Readers, Writers}

-- The class EntityGenerator, what `entity_gen_creator` makes, and the functions for readers and writers. `process` may
-- change the generator and both messages, the request and the response.
pub record Generation : Type 1 where
  pub Gen : Type 0
  pub created : Gen
  pub process : Gen → HttpMessage → HttpMessage → Result (Gen × HttpMessage × HttpMessage)
  pub reader_creator : Readers
  pub writer_creator : Writers

module _ (G : Generation) where
  open G use {reader_creator, writer_creator}

  -- A generator with its two messages.
  pub record Transaction : Type 0 where
    pub gen : G.Gen
    pub in_msg : HttpMessage
    pub out_msg : HttpMessage

  unfoldable pub is_done : Transaction → Bool
  is_done t = is_sent t.in_msg && is_sent t.out_msg

  -- `writer_msgs` is `waiting` with `reading` behind it, the transaction of `reader_processor` and `reader_msg`;
  -- it is `none` when it has been deleted.
  pub record EntityLinker : Type 0 where
    pub reader : reader_creator.Reader
    pub writer : Option writer_creator.Writer
    pub waiting : List Transaction
    pub reading : Option Transaction

  -- A new request and a new response.
  unfoldable pub new_transaction : Transaction
  new_transaction = record { gen = G.created; in_msg = init true; out_msg = init false }

  -- The constructor.
  unfoldable pub create : EntityLinker
  create = record {
    reader = reader_creator.create (init true);
    writer = some (writer_creator.create (init false));
    waiting = [];
    reading = some new_transaction;
  }

  -- `writer_msgs.front()`.
  abbrev pub front : EntityLinker → Option Transaction
  front l = elim l.waiting as (λ _. Option Transaction) [ [] ↦ l.reading | t ∷ rest ↦ some t ]

  -- The front is changed.
  abbrev pub set_front : EntityLinker → Transaction → EntityLinker
  set_front l t = elim l.waiting as (λ _. EntityLinker) [
    | [] ↦ record l { reading = some t }
    | old ∷ rest ↦ record l { waiting = t ∷ rest }
  ]

  -- `writer_msgs.pop()`, where the front has been deleted.
  abbrev pub pop : EntityLinker → EntityLinker
  pop l = elim l.waiting as (λ _. EntityLinker) [
    | [] ↦ record l { reading = none }
    | old ∷ rest ↦ record l { waiting = rest }
  ]

  abbrev pub process_transaction : Transaction → Result Transaction
  process_transaction t = do
    (gen, in_msg, out_msg) ← G.process t.gen t.in_msg t.out_msg
    ok (record { gen = gen; in_msg = in_msg; out_msg = out_msg })

  -- `writer->get_write_size()`; the writer's message is the response in front.
  unfoldable pub writer_size :
      EntityLinker → writer_creator.Writer → Result (ℕ × Transaction × EntityLinker)
  writer_size l w = do
    t ← in_range (front l)
    (n, w') ← writer_creator.get_write_size (writer_creator.point w t.out_msg)
    let t' = record t { out_msg = writer_creator.drained w' }
    ok (n, t', record (set_front l t') { writer = some w' })

  -- The front is deleted when it is done and written.
  unfoldable pub retire : EntityLinker → Result EntityLinker
  retire l = elim l.writer [
    | none ↦ ok l
    | some w ↦ do
      (n, t, sized) ← writer_size l w
      ok (if n == 0 && is_done t then record (pop sized) { writer = none } else sized)
  ]

  -- A writer for the front, if there is none.
  unfoldable pub renew : EntityLinker → EntityLinker
  renew l = elim l.writer [
    | some w ↦ l
    | none ↦ elim (front l) [
      | none ↦ l
      | some t ↦ record l { writer = some (writer_creator.create t.out_msg) }
    ]
  ]

  unfoldable pub process_front : EntityLinker → Result EntityLinker
  process_front l = do t ← in_range (front l); t' ← process_transaction t; ok (set_front l t')

  -- The size behind `process`.
  unfoldable pub measure : EntityLinker → Result (ℕ × EntityLinker)
  measure l = elim l.writer [
    | none ↦ ok (0, l)
    | some w ↦ do
      processed ← process_front l
      (n, t, sized) ← writer_size processed w
      ok (n, sized)
  ]

  unfoldable pub get_write_size : EntityLinker → Result (ℕ × EntityLinker)
  get_write_size l = do retired ← retire l; measure (renew retired)

  unfoldable pub write : EntityLinker → Socket → ℕ → Result (ℤ × EntityLinker)
  write l s max_write = do
    w ← in_range l.writer
    t ← in_range (front l)
    (ret, w') ← writer_creator.write (writer_creator.point w t.out_msg) s max_write
    processed ←
        process_front (record (set_front l (record t { out_msg = writer_creator.drained w' })) {
          writer = some w';
        })
    ok (ret, processed)

  -- A request that is complete waits for its response, and the next one is read.
  unfoldable pub next_request : EntityLinker → Transaction → EntityLinker
  next_request l t =
      if rank t.in_msg.state == rank MessageState.done
      then record l {
        reader = reader_creator.create (init true);
        waiting = l.waiting ++ t ∷ [];
        reading = some new_transaction;
      }
      else record l { reading = some t }

  unfoldable pub read : EntityLinker → Socket → ℕ → Result (ℤ × EntityLinker)
  read l s max_read = do
    t ← in_range l.reading
    (ret, r) ← reader_creator.read (reader_creator.point l.reader t.in_msg) s max_read
    t' ← process_transaction (record t { in_msg = reader_creator.filled r })
    ok (ret, next_request (record l { reader = r }) t')
