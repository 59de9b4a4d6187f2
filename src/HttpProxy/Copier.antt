-- ===== src/HttpProxy/Copier.antt =====
-- The class MessageCopier of http_proxy.cpp as a request generator. Its two messages are those of
-- a link, and are found by their addresses.
use gnyproxy.Prelude.{ℕ, Option, some, Result, ok, ◌>>=◌, in_range}
use gnyproxy.HttpMessage.{HttpMessage}
use gnyproxy.HttpProxy.{dump_message}
use gnyproxy.Codec.{Readers, Writers}
use gnyproxy.Multiconn.{put}
use gnyproxy.ReqLinker.{Exchange}

-- The messages that are in use.
abbrev pub Heap : Type 0
Heap = ℕ → Option HttpMessage

pub record MessageCopier : Type 0 where
  pub msg_req : ℕ
  pub msg_res : ℕ

unfoldable pub generate_request :
    Heap → MessageCopier → HttpMessage → Result (Heap × MessageCopier × HttpMessage)
generate_request heap copier msg = do
  src ← in_range (heap copier.msg_req)
  (src', msg') ← dump_message src msg
  ok (put heap copier.msg_req (some src'), copier, msg')

unfoldable pub read_response :
    Heap → MessageCopier → HttpMessage → Result (Heap × MessageCopier × HttpMessage)
read_response heap copier msg = do
  dst ← in_range (heap copier.msg_res)
  (msg', dst') ← dump_message msg dst
  ok (put heap copier.msg_res (some dst'), copier, msg')

abbrev pub copies : Readers → Writers → Exchange
copies reader_creator writer_creator = record {
  World = Heap;
  Gen = MessageCopier;
  generate_request = generate_request;
  read_response = read_response;
  destroy = λ heap copier. heap;
  reader_creator = reader_creator;
  writer_creator = writer_creator;
}
