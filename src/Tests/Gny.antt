-- ===== src/Tests/Gny.antt =====
-- The GNY format and the relay of messages on concrete messages.
use gnyproxy.Prelude.{◌>>=◌, ◌≡◌, refl, true, false, List, [], ◌∷◌, Bytes, codes, ok, arith}
use gnyproxy.Prelude.Int.{pos, negsuc}
use gnyproxy.Http.{header_unknown}
use gnyproxy.HttpMessage.{
  MessageState, rank, KeyValue, HttpMessage, init, set_verb, set_url, end_header,
}
use gnyproxy.HttpMessage
use gnyproxy.HttpMessage.Life.{
  Call, run, none_drained, gather, new_headers, new_body, new_footers, is_sent-drained, adds_header,
  ends_header, appends_entity, gets_headers, ends_entity, gets_entity, ends_footer, Situation,
}
use gnyproxy.HttpMessage.Life
use gnyproxy.HttpProxy.{dump_message, generate_message}
use gnyproxy.HttpProxy.Handed.{relayed}
use gnyproxy.HttpProxy.Kept.{Kept}
use gnyproxy.HttpProxy.Relay.{dump_message-Kept}
use gnyproxy.HttpProxy.Generated.{response, generate_message-IsWritable}
use gnyproxy.Socket.{Socket, received}
use gnyproxy.GnyWire.{PairsWire, end, known, EntityWire, stop, MessageWire}
use gnyproxy.GnyWire
use gnyproxy.MessageSinkGny.{MessageSinkGny, check_for_update, write_chunks}
use gnyproxy.MessageSinkGny
use gnyproxy.MessageSinkGny.Chunks.{Chunked, write_chunks-EntityWire}
use gnyproxy.MessageSinkGny.Encode.{closed, IsWritable, SameContent, Encoded, encoded}
use gnyproxy.MessageSourceGny.Spec.{parse, parse_byte}
use gnyproxy.MessageSourceGny.Config.{Config, view}
use gnyproxy.MessageSourceGny.Closing.{base, idle}
use gnyproxy.MessageSourceGny.Reads.{Reads, read_bytes-parse}
use gnyproxy.MessageSourceGny.Pieces.{concat, read_pieces, ReadsAll, read_pieces-parse}
use gnyproxy.MessageSourceGny.{
  MessageSourceGny, create, loop, close_read, flush, trim_stream, step_in, init_verb, done,
  read_bytes,
}
use gnyproxy.RoundTrip.{
  read_pieces-MessageWire, written-read, SettledCuts-whole, SettledCuts-encoded, concat-whole,
}

-- A socket that delivers what it has shown.
abbrev socket : Socket
socket = record { peek = λ n. received []; consume = λ n. pos n; send = λ n. pos n }

abbrev sample : HttpMessage
sample = record {
  is_request = true;
  url = b'/' ∷ [];
  verb = 2;
  status = negsuc 0;
  headers = (codes "Host", b'h' ∷ []) ∷ (b'X' ∷ [], b'1' ∷ []) ∷ [];
  footers = (codes "Via", []) ∷ [];
  body = b'a' ∷ b'b' ∷ [];
  state = MessageState.done;
}

sample_writable : IsWritable sample
sample_writable = record {
  headers_clean = ((refl, (refl, (refl, (refl, tt)))), (refl, tt), ((refl, tt), (refl, tt), tt));
  footers_clean = ((refl, (refl, (refl, tt))), tt, tt);
  url_clean = (refl, tt);
  line_known = (refl, omega arith);
}

encoded_example : Encoded sample
encoded_example = encoded sample sample_writable

written-read_example :
    (sink : MessageSinkGny) × (r : MessageSourceGny) × (check_for_update
        (MessageSinkGny.create (closed sample))
      ≡ ok sink)
    × (sink.data_stream ≡ concat ((encoded sample sample_writable).wire ∷ []))
    × (read_pieces (create (init true)) socket ((encoded sample sample_writable).wire ∷ []) ≡ ok r)
    × SameContent sample r.msg
    × (r.state ≡ done)
written-read_example =
    written-read sample sample_writable socket ((encoded sample sample_writable).wire ∷ [])
      (λ n. refl) (concat-whole (encoded sample sample_writable).wire)
      (SettledCuts-encoded sample sample_writable)

-- A request with a known header.
abbrev small_message : HttpMessage
small_message = record {
  is_request = true;
  url = b'/' ∷ [];
  verb = 2;
  status = negsuc 0;
  headers = [];
  footers = [];
  body = [];
  state = MessageState.done;
}

abbrev small_wire : Bytes
small_wire = 2 ∷ b'/' ∷ 0 ∷ 54 ∷ 0 ∷ 0 ∷ 54 ∷ []

small_format : MessageWire small_wire small_message
small_format = GnyWire.request 2 (b'/' ∷ []) (refl, tt) end stop end

read_pieces-MessageWire_example :
    (r : MessageSourceGny) × (read_pieces (create (init true)) socket (small_wire ∷ []) ≡ ok r)
    × (r.msg ≡ small_message)
    × (r.state ≡ done)
read_pieces-MessageWire_example =
    read_pieces-MessageWire small_format socket (small_wire ∷ []) (λ n. refl)
      (concat-whole small_wire) (SettledCuts-whole small_format)

abbrev new_reader : Config
new_reader = record {
  msg = init true;
  state = init_verb;
  substate = 0;
  key = header_unknown;
  gone = [];
  token = [];
}

read_bytes-parse_example :
    Reads
      (2 ∷ b'/' ∷ [])
      (read_bytes (idle new_reader) socket (2 ∷ b'/' ∷ []))
      (parse (2 ∷ b'/' ∷ []) (view (base new_reader)))
unfolding parse parse_byte
read_bytes-parse_example = read_bytes-parse new_reader socket (2 ∷ b'/' ∷ []) tt (λ n h. refl) tt

read_pieces-parse_example :
    ReadsAll
      (read_pieces (idle new_reader) socket ((2 ∷ b'/' ∷ []) ∷ (0 ∷ []) ∷ []))
      (parse (concat ((2 ∷ b'/' ∷ []) ∷ (0 ∷ []) ∷ [])) (view (base new_reader)))
unfolding parse parse_byte
read_pieces-parse_example =
    read_pieces-parse ((2 ∷ b'/' ∷ []) ∷ (0 ∷ []) ∷ []) new_reader socket tt (λ n. refl)
      (tt, (tt, tt))

write_chunks-EntityWire_example : Chunked 2 (b'a' ∷ b'b' ∷ [])
write_chunks-EntityWire_example = write_chunks-EntityWire 2 (b'a' ∷ b'b' ∷ []) (omega arith)

dump_message-Kept_example :
    (dump_message sample (init true)
      ≡ ok (record sample { headers = []; body = []; footers = [] }, sample))
    × Kept (sample, init true) (relayed sample (init true))
    × ((relayed sample (init true)).1.state ≡ MessageState.done)
unfolding init
dump_message-Kept_example = dump_message-Kept sample (init true) (omega arith)

generate_message-IsWritable_example :
    (generate_message (init false) (pos 404) (codes "no") ≡ ok (response 404 (codes "no")))
    × IsWritable (response 404 (codes "no"))
generate_message-IsWritable_example = generate_message-IsWritable 404 (codes "no") (omega arith)

abbrev calls : List Call
calls =
    adds_header (b'k' ∷ []) (b'v' ∷ [])
    ∷ ends_header
    ∷ gets_headers
    ∷ appends_entity (b'a' ∷ [])
    ∷ ends_entity
    ∷ gets_entity
    ∷ ends_footer
    ∷ []

abbrev after_calls : Situation
after_calls = (
  record (init true) { state = MessageState.done },
  record { headers = (b'k' ∷ [], b'v' ∷ []) ∷ []; body = b'a' ∷ []; footers = [] },
)

calls-run : run (init true, none_drained) calls ≡ ok after_calls
unfolding run Life.step init HttpMessage.add_header HttpMessage.append_entity HttpMessage.end_header
    HttpMessage.end_entity HttpMessage.end_footer HttpMessage.get_headers HttpMessage.get_entity
calls-run = refl

is_sent-drained_example :
    (after_calls.0.state ≡ MessageState.done)
    × (after_calls.1.headers ≡ gather new_headers calls)
    × (after_calls.1.body ≡ gather new_body calls)
    × (after_calls.1.footers ≡ gather new_footers calls)
unfolding init HttpMessage.is_sent
is_sent-drained_example = is_sent-drained true calls after_calls calls-run refl

-- The value `12` of a header with its own name, cut between two calls of `read`, is lost.
cut_value :
    (read_pieces
        (create (init true))
        socket
        ((2 ∷ b'/' ∷ 0 ∷ 53 ∷ b'X' ∷ 0 ∷ b'1' ∷ []) ∷ (b'2' ∷ 0 ∷ 54 ∷ 0 ∷ 0 ∷ 54 ∷ []) ∷ [])
      >>= λ r. ok r.msg.headers)
    ≡ ok ((b'X' ∷ [], []) ∷ [])
unfolding read_pieces read_bytes create init loop close_read flush trim_stream step_in
    gnyproxy.MessageSourceGny.c_string_at gnyproxy.MessageSourceGny.add_pair set_url set_verb
    end_header gnyproxy.Common.read_short HttpMessage.end_entity HttpMessage.end_footer
    gnyproxy.Http.c_str
cut_value = refl
