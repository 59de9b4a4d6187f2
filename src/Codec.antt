-- ===== src/Codec.antt =====
-- The classes ConnectionReader and ConnectionWriter of connection.h, as the links use them: a reader
-- fills the message that it points to, and a writer drains it; and the two pairs of classes
-- that are there. The message belongs to somebody else, who may change it between two calls.
use gnyproxy.Prelude.{ℕ, Result}
use gnyproxy.Prelude.Int.{ℤ}
use gnyproxy.HttpMessage.{HttpMessage}
use gnyproxy.Socket.{Socket}
use gnyproxy.MessageSourceGny.{MessageSourceGny}
use gnyproxy.MessageSinkGny.{MessageSinkGny}
use gnyproxy.MessageSource11.{MessageSource11}
use gnyproxy.MessageSink11.{MessageSink11}

-- A class of readers, with the function that makes one (`reader_create_func_t`).
pub record Readers : Type 1 where
  pub Reader : Type 0
  pub create : HttpMessage → Reader
  pub filled : Reader → HttpMessage
  pub point : Reader → HttpMessage → Reader
  pub read : Reader → Socket → ℕ → Result (ℤ × Reader)

-- A class of writers, with the function that makes one (`writer_create_func_t`).
pub record Writers : Type 1 where
  pub Writer : Type 0
  pub create : HttpMessage → Writer
  pub drained : Writer → HttpMessage
  pub point : Writer → HttpMessage → Writer
  pub get_write_size : Writer → Result (ℕ × Writer)
  pub write : Writer → Socket → ℕ → Result (ℤ × Writer)

abbrev pub message_source_gny_creator : Readers
message_source_gny_creator = record {
  Reader = MessageSourceGny;
  create = gnyproxy.MessageSourceGny.create;
  filled = λ r. r.msg;
  point = λ r msg. record r { msg = msg };
  read = gnyproxy.MessageSourceGny.read;
}

abbrev pub message_sink_gny_creator : Writers
message_sink_gny_creator = record {
  Writer = MessageSinkGny;
  create = gnyproxy.MessageSinkGny.create;
  drained = λ s. s.msg;
  point = λ s msg. record s { msg = msg };
  get_write_size = gnyproxy.MessageSinkGny.get_write_size;
  write = gnyproxy.MessageSinkGny.write;
}

abbrev pub message_source_11_creator : Readers
message_source_11_creator = record {
  Reader = MessageSource11;
  create = gnyproxy.MessageSource11.create;
  filled = λ r. r.msg;
  point = λ r msg. record r { msg = msg };
  read = gnyproxy.MessageSource11.read;
}

abbrev pub message_sink_11_creator : Writers
message_sink_11_creator = record {
  Writer = MessageSink11;
  create = gnyproxy.MessageSink11.create;
  drained = λ s. s.msg;
  point = λ s msg. record s { msg = msg };
  get_write_size = gnyproxy.MessageSink11.get_write_size;
  write = gnyproxy.MessageSink11.write;
}
