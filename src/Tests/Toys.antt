-- ===== src/Tests/Toys.antt =====
-- Classes with short methods, and helpers for the runs.
use gnyproxy.Prelude.{[], ◌∷◌, Bytes, codes, Result, ok, fault, take}
use gnyproxy.Prelude.Int.{pos}
use gnyproxy.Socket.{Socket, received}
use gnyproxy.Codec.{Readers, Writers}
use gnyproxy.HttpMessage.{MessageState, HttpMessage}

-- A socket that has these bytes to read, and takes all bytes.
abbrev pub socket : Bytes → Socket
socket bytes = record {
  peek = λ n. received (take n bytes);
  consume = λ n. pos n;
  send = λ n. pos n;
}

-- The value of a call, or what is given in its place.
abbrev pub value {ℓ} : {A : Type ℓ} → A → Result A → A
value d (ok a) = a
value d (fault e) = d

-- A reader that takes every byte for a CONNECT request to h, and a writer that has 5 bytes for every message.
abbrev pub toy_readers : Readers
toy_readers = record {
  Reader = HttpMessage;
  create = λ msg. msg;
  filled = λ r. r;
  point = λ r msg. msg;
  read = λ r s n. ok (pos 1, record r { url = b'h' ∷ []; verb = 0 });
}

abbrev pub toy_writers : Writers
toy_writers = record {
  Writer = HttpMessage;
  create = λ msg. msg;
  drained = λ w. w;
  point = λ w msg. msg;
  get_write_size = λ w. ok (5, w);
  write = λ w s n. ok (s.send n, w);
}

-- A reader whose messages are complete at once, and a writer that has nothing to write.
abbrev pub quick_readers : Readers
quick_readers = record {
  Reader = HttpMessage;
  create = λ msg. msg;
  filled = λ r. r;
  point = λ r msg. msg;
  read = λ r s n. ok (pos 1, record r { state = MessageState.done });
}

abbrev pub quiet_writers : Writers
quiet_writers = record {
  Writer = HttpMessage;
  create = λ msg. msg;
  drained = λ w. w;
  point = λ w msg. msg;
  get_write_size = λ w. ok (0, w);
  write = λ w s n. ok (pos 0, w);
}

-- A writer that has sent everything at once.
abbrev pub draining_writers : Writers
draining_writers = record {
  Writer = HttpMessage;
  create = λ msg. msg;
  drained = λ w. w;
  point = λ w msg. msg;
  get_write_size = λ w. ok (0, record w { headers = []; body = []; footers = [] });
  write = λ w s n. ok (pos 0, w);
}

-- A reader of one complete request, GET / with the header host: h.
abbrev pub request_readers : Readers
request_readers = record {
  Reader = HttpMessage;
  create = λ msg. msg;
  filled = λ r. r;
  point = λ r msg. msg;
  read = λ r s n. ok (
    pos 1,
    record r {
      url = b'/' ∷ [];
      verb = 2;
      headers = (codes "host", b'h' ∷ []) ∷ [];
      state = MessageState.done;
    },
  );
}
