-- ===== src/ReqLinker.antt =====
-- The class ReqLinker of requester.cpp: a virtual connection that sends one request at a time and reads
-- its response. The objects are found by their addresses; a linker with no generator is idle, and
-- the requester keeps its address in `req_mp` then.
pub mod Idle
use gnyproxy.Prelude.{
  ℕ, Bool, true, false, ◌&&◌, List, [], ◌∷◌, Option, none, some, ◌==◌, if◌then◌else◌, Bytes, Result,
  ok, ◌>>=◌, ◌>>◌, assert, in_range,
}
use gnyproxy.Prelude.Int.{ℤ, pos}
use gnyproxy.HttpMessage.{HttpMessage, init, is_sent}
use gnyproxy.Socket.{Socket}
use gnyproxy.Codec.{Readers, Writers}
use gnyproxy.PointerSet.{insert, erase}
use gnyproxy.Multiconn.{put}

-- The class RequestGenerator, with what its objects share and may change, and the two functions that
-- the requester makes its readers and writers with.
pub record Exchange : Type 1 where
  pub World : Type 0
  pub Gen : Type 0
  pub generate_request : World → Gen → HttpMessage → Result (World × Gen × HttpMessage)
  pub read_response : World → Gen → HttpMessage → Result (World × Gen × HttpMessage)
  pub destroy : World → Gen → World
  pub reader_creator : Readers
  pub writer_creator : Writers

-- A host and a service.
abbrev pub Endpoint : Type 0
Endpoint = Bytes × Bytes

unfoldable pub same_bytes : Bytes → Bytes → Bool
same_bytes [] [] = true
same_bytes (a ∷ x) (b ∷ y) = a == b && same_bytes x y
same_bytes [] (b ∷ y) = false
same_bytes (a ∷ x) [] = false

unfoldable pub same_endpoint : Endpoint → Endpoint → Bool
same_endpoint (host, service) (host', service') =
    same_bytes host host' && same_bytes service service'

-- `mp[e] = v`.
unfoldable pub put_at {ℓ} : {A : Type ℓ} → (Endpoint → A) → Endpoint → A → Endpoint → A
put_at mp e v e' = if same_endpoint e' e then v else mp e'

module _ (X : Exchange) where
  open X use {World, Gen, reader_creator, writer_creator}

  -- What a linker has while it is not idle; `in_msg` and `out_msg` are what `reader` and `writer` point to.
  pub record Work : Type 0 where
    pub gen : Gen
    pub reader : reader_creator.Reader
    pub writer : writer_creator.Writer

  -- `work` is `none` where `gen` is NULL.
  pub record ReqLinker : Type 0 where
    pub endpoint : Endpoint
    pub work : Option Work

  -- The requester as the linkers use it.
  pub record Links : Type 0 where
    pub world : World
    pub linkers : ℕ → Option ReqLinker
    pub req_mp : Endpoint → List ℕ

  unfoldable pub add_request : ReqLinker → Gen → Bool × ReqLinker
  add_request l gen = elim l.work [
    | some k ↦ (false, l)
    | none ↦ (
      true,
      record l {
        work = some (record {
          gen = gen;
          reader = reader_creator.create (init false);
          writer = writer_creator.create (init true);
        });
      },
    )
  ]

  -- The constructor.
  unfoldable pub create : Endpoint → Gen → Result ReqLinker
  create endpoint gen = do
    let (added, l) = add_request (record { endpoint = endpoint; work = none }) gen
    assert added
    ok l

  abbrev pub store : Links → ℕ → ReqLinker → Links
  store r at l = record r { linkers = put r.linkers at (some l) }

  -- The linker at `at` becomes idle.
  unfoldable pub finish : Links → ℕ → ReqLinker → Gen → Links
  finish r at l gen = record r {
    world = X.destroy r.world gen;
    linkers = put r.linkers at (some (record l { work = none }));
    req_mp = put_at r.req_mp l.endpoint (insert at (r.req_mp l.endpoint));
  }

  -- `check_done`, where there is a generator.
  unfoldable pub check_work : Links → ℕ → ReqLinker → Work → Result Links
  check_work r at l k = do
    (size, writer) ← writer_creator.get_write_size k.writer
    let done =
        size == 0
        && (is_sent (reader_creator.filled k.reader) && is_sent (writer_creator.drained writer))
    ok (
        if done
        then finish r at l k.gen
        else store r at (record l { work = some (record k { writer = writer }) }))

  unfoldable pub check_done : Links → ℕ → Result Links
  check_done r at = do
    l ← in_range (r.linkers at)
    elim l.work [ none ↦ ok r | some k ↦ check_work r at l k ]

  unfoldable pub get_write_size : Links → ℕ → Result (ℕ × Links)
  get_write_size r at = do
    l ← in_range (r.linkers at)
    elim l.work [
      | none ↦ ok (0, r)
      | some k ↦ do
        (world, gen, out_msg) ← X.generate_request r.world k.gen (writer_creator.drained k.writer)
        (ret, writer) ← writer_creator.get_write_size (writer_creator.point k.writer out_msg)
        r' ← check_work (record r { world = world }) at l (record k { gen = gen; writer = writer })
        ok (ret, r')
    ]

  unfoldable pub write : Links → ℕ → Socket → ℕ → Result (ℤ × Links)
  write r at s max_write = do
    l ← in_range (r.linkers at)
    elim l.work [
      | none ↦ ok (pos 0, r)
      | some k ↦ do
        (ret, writer) ← writer_creator.write k.writer s max_write
        r' ← check_work r at l (record k { writer = writer })
        ok (ret, r')
    ]

  unfoldable pub read : Links → ℕ → Socket → ℕ → Result (ℤ × Links)
  read r at s max_read = do
    l ← in_range (r.linkers at)
    elim l.work [
      | none ↦ ok (pos 0, r)
      | some k ↦ do
        (ret, reader) ← reader_creator.read k.reader s max_read
        (world, gen, in_msg) ← X.read_response r.world k.gen (reader_creator.filled reader)
        r' ←
            check_work (record r { world = world }) at l
              (record k { gen = gen; reader = reader_creator.point reader in_msg })
        ok (ret, r')
    ]

  -- The destructor, and the end of the object.
  unfoldable pub destroy : Links → ℕ → Result Links
  destroy r at = do
    l ← in_range (r.linkers at)
    let gone = record r { linkers = put r.linkers at none }
    elim l.work [
      | some k ↦ ok (record gone { world = X.destroy r.world k.gen })
      | none ↦
          ok (record gone { req_mp = put_at r.req_mp l.endpoint (erase at (r.req_mp l.endpoint)) })
    ]
