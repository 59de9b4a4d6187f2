-- ===== src/MessageSinkGny/Encode.antt =====
-- What a new sink writes of a complete message.
use mathlib.Core.Path.{subst}
use gnyproxy.Prelude.{
  ◌⊎◌, inl, inr, ℕ, ◌/◌, ◌%◌, ◌<◌, ◌≡◌, refl, sym, ap, Bool, true, false, [], ◌∷◌, ◌++◌, ◌==◌,
  Bytes, Free, ok, ◌>>=◌, append_assoc, arith, if◌then◌else◌, length, some,
}
use gnyproxy.Prelude.Int.{ℤ, pos, negsuc}
use gnyproxy.Common.{write_string, write_short}
use gnyproxy.Http.{header_end, http_request_verb_unknown}
use gnyproxy.HttpMessage.{MessageState, HttpMessage, is_empty}
use gnyproxy.GnyWire.{MessageWire, request, response}
use gnyproxy.MessageSinkGny.Pairs.{IsClean, SameNames, AllWritten, written_pairs}
use gnyproxy.MessageSinkGny.Chunks.{Chunked, write_chunks-EntityWire, write_short_lem}
use gnyproxy.MessageSinkGny.{
  MessageSinkGny, create, first_line, begin, header_part, later_parts, check_for_update,
}

begin_first :
    (m : HttpMessage) (d : Bytes)
    → first_line (create m) ≡ some d
    → begin (create m) ≡ some (record (create m) { data_stream = d; init = true })
unfolding create begin
begin_first m d e = rw (begin, e)

-- The message in its last state, and without its contents.
abbrev pub closed : HttpMessage → HttpMessage
closed m = record m { state = MessageState.done }

abbrev pub emptied : HttpMessage → HttpMessage
emptied m = record m { headers = []; body = []; footers = []; state = MessageState.done }

-- The parts behind the first line.
module _ (m : HttpMessage) (h : AllWritten m.headers) (f : AllWritten m.footers)
    (b : Chunked (length m.body) m.body) (d : Bytes) where
  abbrev parts : Bytes
  parts = (h.bytes ++ header_end ∷ []) ++ ((b.bytes ++ 0 ∷ 0 ∷ []) ++ (f.bytes ++ header_end ∷ []))

  abbrev begun : MessageSinkGny
  begun = record { msg = closed m; write_state = MessageState.header; data_stream = d; init = true }

  parts_assoc :
      write_short (d ++ h.bytes ++ header_end ∷ [] ++ b.bytes) 0 ++ f.bytes ++ header_end ∷ []
      ≡ d ++ parts
  parts_assoc =
      rw (write_short_lem (d ++ h.bytes ++ header_end ∷ [] ++ b.bytes) 0) (simp append_assoc)

  abbrev finished_sink : MessageSinkGny
  finished_sink = record {
    msg = emptied m;
    write_state = MessageState.done;
    data_stream = d ++ parts;
    init = true;
  }

  parts_written : (header_part begun >>= later_parts) ≡ ok finished_sink
  unfolding header_part later_parts
  parts_written =
      rw
        (
          h.all_written d,
          b.written (d ++ h.bytes ++ header_end ∷ []),
          f.all_written (write_short (d ++ h.bytes ++ header_end ∷ [] ++ b.bytes) 0),
        )
        (ap (λ s. ok (record finished_sink { data_stream = s })) parts_assoc)

  -- An update of a new sink, by its first line.
  update_written :
      begin (create (closed m)) ≡ some begun
      → check_for_update (create (closed m)) ≡ ok finished_sink
  unfolding check_for_update create
  update_written e = rw e parts_written

-- The verb and the URL of a request, or the status of a response.
abbrev pub line : HttpMessage → (ℕ × Bytes) ⊎ ℤ
line m = if m.is_request then inl (m.verb, m.url) else inr m.status

-- What is read back of a message: its header names may differ in case.
pub record SameContent (m m' : HttpMessage) : Type 0 where
  pub same_kind : m.is_request ≡ m'.is_request
  pub same_line : line m ≡ line m'
  pub same_headers : SameNames m.headers m'.headers
  pub same_footers : SameNames m.footers m'.footers
  pub same_body : m.body ≡ m'.body
  pub is_closed : m'.state ≡ MessageState.done

-- A sink writes the whole message at once, empties it, and what it writes is in the wire format.
pub record Encoded (m : HttpMessage) : Type 0 where
  pub wire : Bytes
  pub decoded : HttpMessage
  pub updates :
      check_for_update (create (closed m))
      ≡ ok (record {
        msg = emptied m;
        write_state = MessageState.done;
        data_stream = wire;
        init = true;
      })
  pub in_format : MessageWire wire decoded
  pub same_content : SameContent m decoded

-- A known verb with a URL, or a status that has 16 bits and is not the one of an unset status.
abbrev pub KnownLine : Bool → HttpMessage → Type 0
KnownLine true m = (is_empty m.url ≡ false) × (m.verb < http_request_verb_unknown)
KnownLine false m = (n : ℕ) × (n < 65535) × (m.status ≡ pos n)

-- A message that the format can express.
pub record IsWritable (m : HttpMessage) : Type 0 where
  pub headers_clean : IsClean m.headers
  pub footers_clean : IsClean m.footers
  pub url_clean : Free 0 m.url
  pub line_known : KnownLine m.is_request m

module _ (m : HttpMessage) (c : IsWritable m) where
  headers_out : AllWritten m.headers
  headers_out = written_pairs m.headers c.headers_clean

  footers_out : AllWritten m.footers
  footers_out = written_pairs m.footers c.footers_clean

  body_out : Chunked (length m.body) m.body
  body_out = write_chunks-EntityWire (length m.body) m.body (omega arith)

  first_line_request :
      m.is_request ≡ true → first_line (create (closed m)) ≡ some (m.verb ∷ (m.url ++ 0 ∷ []))
  unfolding first_line create write_string
  first_line_request r =
      let (there, known) = subst (λ b. KnownLine b m) r c.line_known in
      let other : (m.verb == http_request_verb_unknown) ≡ false = ground arith in
      let one_byte : m.verb % 256 ≡ m.verb = omega arith in rw (r, there, other, one_byte)

  begin_line :
      (d : Bytes)
      → first_line (create (closed m)) ≡ some d
      → begin (create (closed m)) ≡ some (begun m headers_out footers_out body_out d)
  unfolding create
  begin_line d e = begin_first (closed m) d e

  abbrev request_read : HttpMessage
  request_read = record {
    is_request = true;
    url = m.url;
    verb = m.verb;
    status = negsuc 0;
    headers = headers_out.names;
    footers = footers_out.names;
    body = m.body;
    state = MessageState.done;
  }

  encoded_request : m.is_request ≡ true → Encoded m
  encoded_request r = record {
    wire = _;
    decoded = request_read;
    updates =
        update_written m headers_out footers_out body_out _ (begin_line _ (first_line_request r));
    in_format =
        subst (λ w. MessageWire (m.verb ∷ w) request_read) (sym (append_assoc m.url (0 ∷ []) _))
          (request m.verb m.url c.url_clean headers_out.all_read body_out.reads
            footers_out.all_read);
    same_content = record {
      same_kind = r;
      same_line = rw r refl;
      same_headers = headers_out.same_names;
      same_footers = footers_out.same_names;
      same_body = refl;
      is_closed = refl;
    };
  }

  first_line_response :
      (n : ℕ)
      → m.is_request ≡ false
      → n < 65535
      → m.status ≡ pos n
      → first_line (create (closed m)) ≡ some (n / 256 ∷ n % 256 ∷ [])
  unfolding first_line create write_short
  first_line_response n r small st =
      let bits : n % 65536 ≡ n = omega arith in
      let high : n / 256 % 256 ≡ n / 256 = omega arith in
      let other : (n == 65535) ≡ false = ground arith in rw (r, st, bits, other, high)

  encoded_response : m.is_request ≡ false → Encoded m
  encoded_response r =
      let (n, small, st) = subst (λ b. KnownLine b m) r c.line_known in
      record {
        wire = _;
        decoded = record {
          is_request = false;
          url = [];
          verb = http_request_verb_unknown;
          status = pos n;
          headers = headers_out.names;
          footers = footers_out.names;
          body = m.body;
          state = MessageState.done;
        };
        updates =
            update_written m headers_out footers_out body_out _
              (begin_line _ (first_line_response n r small st));
        in_format =
            response n (omega arith) headers_out.all_read body_out.reads footers_out.all_read;
        same_content = record {
          same_kind = r;
          same_line = rw r (ap inr st);
          same_headers = headers_out.same_names;
          same_footers = footers_out.same_names;
          same_body = refl;
          is_closed = refl;
        };
      }

  -- A new writer writes every complete message that the format can express in one update and empties
  -- it; what it writes is in the wire format of a message with the same content.
  pub encoded : Encoded m
  encoded = by_kind m.is_request refl
    where
      by_kind : (b : Bool) → m.is_request ≡ b → Encoded m
      by_kind true r = encoded_request r
      by_kind false r = encoded_response r
