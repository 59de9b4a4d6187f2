-- ===== src/HttpProxy/Linker/Retires.antt =====
-- How transactions are to leave the queue of a link, described apart from the code.
use gnyproxy.Prelude.{
  ℕ, ◌≡◌, Bool, true, false, List, [], ◌∷◌, Option, none, some, ◌==◌, length, ok,
}
use gnyproxy.HttpMessage.{HttpMessage, is_sent}
use gnyproxy.Multiconn.{put}
use gnyproxy.HttpProxy.Copier.{Heap}
use gnyproxy.HttpProxy.Linker.{Proxy, ALinker, Situation}

-- A request does not hold its transaction back: there is a tunnel, or it is sent.
pub data IsReleased : Bool → Heap → ℕ → Type 0 where
  tunnelled : (heap : Heap) (msg_req : ℕ) → IsReleased true heap msg_req
  gone_out :
      (tunneler : Bool) (heap : Heap) (msg_req : ℕ) (m : HttpMessage)
      → heap msg_req ≡ some m
      → is_sent m ≡ true
      → IsReleased tunneler heap msg_req

-- What keeps a transaction in front: bytes of its response to write, a request that is not sent, where there
-- is no tunnel, or, where the request is released, a response that is not sent.
pub data Waits : ℕ → Bool → Heap → ℕ → HttpMessage → Type 0 where
  unwritten :
      (ret : ℕ) (tunneler : Bool) (heap : Heap) (msg_req : ℕ) (res : HttpMessage)
      → (ret == 0) ≡ false
      → Waits ret tunneler heap msg_req res
  unasked :
      (ret : ℕ) (heap : Heap) (msg_req : ℕ) (res m : HttpMessage)
      → heap msg_req ≡ some m
      → is_sent m ≡ false
      → Waits ret false heap msg_req res
  unanswered :
      (ret : ℕ) (tunneler : Bool) (heap : Heap) (msg_req : ℕ) (res : HttpMessage)
      → IsReleased tunneler heap msg_req
      → is_sent res ≡ false
      → Waits ret tunneler heap msg_req res

module _ (P : Proxy) where
  -- The writer for the response in front: a new one, or the one that is there, on the response as it is now.
  pub data Asks
      : Option P.a_writer_creator.Writer → HttpMessage → P.a_writer_creator.Writer → Type 0 where
    made : (m : HttpMessage) → Asks none m (P.a_writer_creator.create m)
    kept :
        (w : P.a_writer_creator.Writer) (m : HttpMessage)
        → Asks (some w) m (P.a_writer_creator.point w m)

  -- The messages, the writer and the queue before, and the result, the messages, the writer and the queue
  -- afterwards. The writer is asked about the front response: where the transaction waits, it stays, with
  -- that writer, and its bytes are the result. It leaves when the writer has nothing left, the response
  -- as the writer has drained it is sent, and the request is released; both messages are deleted then.
  pub data Retires (a : ALinker P)
      : Heap
        → Option P.a_writer_creator.Writer
        → List (ℕ × ℕ)
        → ℕ
        → Heap
        → Option P.a_writer_creator.Writer
        → List (ℕ × ℕ)
        → Type 0 where
    is_idle :
        (heap : Heap) (writer : Option P.a_writer_creator.Writer)
        → a.tunneler ≡ false
        → Retires a heap writer [] 0 heap writer []
    is_tunnel :
        (heap : Heap) (writer : Option P.a_writer_creator.Writer)
        → a.tunneler ≡ true
        → Retires a heap writer [] (length a.data_res) heap writer []
    stays :
        (heap : Heap) (writer : Option P.a_writer_creator.Writer) (msg_req msg_res : ℕ)
        (queue : List (ℕ × ℕ)) (m : HttpMessage) (ret : ℕ) (v w : P.a_writer_creator.Writer)
        → heap msg_res ≡ some m
        → Asks writer m v
        → P.a_writer_creator.get_write_size v ≡ ok (ret, w)
        → Waits ret a.tunneler
            (put heap msg_res (some (P.a_writer_creator.drained w)))
            msg_req
            (P.a_writer_creator.drained w)
        → Retires a heap writer
            ((msg_req, msg_res) ∷ queue)
            ret
            (put heap msg_res (some (P.a_writer_creator.drained w)))
            (some w)
            ((msg_req, msg_res) ∷ queue)
    leaves :
        (heap : Heap) (writer : Option P.a_writer_creator.Writer) (msg_req msg_res : ℕ)
        (queue : List (ℕ × ℕ)) (m : HttpMessage) (v w : P.a_writer_creator.Writer) (n : ℕ)
        (heap' : Heap) (writer' : Option P.a_writer_creator.Writer) (queue' : List (ℕ × ℕ))
        → heap msg_res ≡ some m
        → Asks writer m v
        → P.a_writer_creator.get_write_size v ≡ ok (0, w)
        → IsReleased a.tunneler (put heap msg_res (some (P.a_writer_creator.drained w))) msg_req
        → is_sent (P.a_writer_creator.drained w) ≡ true
        → Retires a
            (put
              (put (put heap msg_res (some (P.a_writer_creator.drained w))) msg_req none)
              msg_res
              none)
            none
            queue
            n
            heap'
            writer'
            queue'
        → Retires a heap writer ((msg_req, msg_res) ∷ queue) n heap' writer' queue'

  -- Behind `get_write_size`, which changes no more than the messages, the writer and the queue.
  abbrev pub InOrder : Situation P → ℕ × Situation P → Type 0
  InOrder s (n, t) =
      Retires s.link s.heap s.link.writer s.link.response_queue n t.heap t.link.writer
        t.link.response_queue
      × (t ≡ record s {
        link = record (s.link) { writer = t.link.writer; response_queue = t.link.response_queue };
        heap = t.heap;
      })
