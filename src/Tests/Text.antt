-- ===== src/Tests/Text.antt =====
-- The tables, the text functions and the HTTP/1.1 chunks on concrete strings.
use gnyproxy.Prelude.{
  true, false, ℕ, ◌≡◌, refl, [], ◌∷◌, ◌++◌, Bytes, codes, ok, length, arith, if◌then◌else◌,
}
use gnyproxy.Common.{isspace, parse_host, trim, url_encode, url_decode}
use gnyproxy.Common.Host.{parse_host_lem}
use gnyproxy.Common.Trim.{IsTrimmed, trim_lem}
use gnyproxy.Common.Url.{url_decode-url_encode}
use gnyproxy.Http.{
  atoheader, atoverb, headertoa, verbtoa, lower, string_bin_search, http_header_strings,
  http_request_verb_unknown,
}
use gnyproxy.Http.Search.{index_of, string_bin_search-index_of}
use gnyproxy.Http.Tables.{
  header_strings-IsSorted, HeaderCode, atoheader-HeaderCode, atoheader-headertoa, atoverb-verbtoa,
  is_found,
}
use gnyproxy.Http.Verbs.{VerbCode, atoverb-VerbCode}
use gnyproxy.HttpMessage.{init}
use gnyproxy.MessageSink11.{MessageSink11, add_entity, entity_chunked}
use gnyproxy.MessageSink11
use gnyproxy.MessageSource11.{MessageSource11, in_size, loop}
use gnyproxy.MessageSource11
use gnyproxy.Http11.Chunks.{chunked, add_entity-loop}

string_bin_search-index_of_example :
    string_bin_search (codes "Via") http_header_strings (length http_header_strings)
    ≡ ok (index_of (codes "Via") http_header_strings)
string_bin_search-index_of_example =
    string_bin_search-index_of (codes "Via") http_header_strings header_strings-IsSorted

atoheader-HeaderCode_example :
    (code : ℕ) × (atoheader (codes "Host") ≡ ok code) × HeaderCode (codes "Host") code
atoheader-HeaderCode_example = atoheader-HeaderCode (codes "Host")

atoheader-headertoa_example : atoheader (codes "HOST") ≡ ok 24
unfolding headertoa http_header_strings lower
atoheader-headertoa_example = atoheader-headertoa 24 (codes "HOST") (codes "host") refl refl

atoverb-verbtoa_example :
    atoverb (codes "post") ≡ ok (if is_found 5 then 5 else http_request_verb_unknown)
unfolding verbtoa lower
atoverb-verbtoa_example = atoverb-verbtoa 5 (codes "post") (codes "POST") refl refl

atoverb-VerbCode_example :
    (code : ℕ) × (atoverb (codes "Trace") ≡ ok code) × VerbCode (codes "Trace") code
atoverb-VerbCode_example = atoverb-VerbCode (codes "Trace")

url_decode-url_encode_example : url_decode (url_encode (codes "/a b%20")) ≡ codes "/a b%20"
url_decode-url_encode_example = url_decode-url_encode (codes "/a b%20")

parse_host_lem_example :
    (parse_host (codes "h:1" ++ b':' ∷ codes "80") ≡ (codes "h:1", codes "80"))
    × (parse_host (codes "80") ≡ (codes "80", b'8' ∷ b'0' ∷ []))
parse_host_lem_example = parse_host_lem (codes "h:1") (codes "80") (refl, (refl, tt))

add_entity-loop_example :
    (chunk : Bytes) × (l' : ℕ) × (s' : ℕ) × (j : ℕ) × ((add_entity
        (record (MessageSink11.create (init true)) { entity_mode = entity_chunked })
        (codes "abc")).packet_str
      ≡ (MessageSink11.create (init true)).packet_str ++ chunk)
    × (loop (chunk ++ codes "0") 7 (chunked (MessageSource11.create (init false)) in_size 0 10 7 [])
        ≡ loop
            (codes "0")
            j
            (chunked (MessageSource11.create (init false)) in_size 0 l' s' ([] ++ codes "abc")))
add_entity-loop_example =
    add_entity-loop (MessageSink11.create (init true)) (MessageSource11.create (init false))
      (codes "abc") (codes "0") 7 10 7 [] (omega arith) (omega arith)

word : IsTrimmed (codes "a b")
unfolding isspace
word = record {
  first = b'a';
  behind = codes " b";
  starts = refl;
  first_solid = refl;
  before = codes "a ";
  last = b'b';
  ends = refl;
  last_solid = refl;
}

trim_lem_example :
    (trim (codes " " ++ (codes "a b" ++ codes "  ")) ≡ codes "a b") × (trim (codes " ") ≡ [])
unfolding isspace
trim_lem_example =
    trim_lem (codes " ") (codes "a b") (codes "  ") (refl, tt) word (refl, (refl, tt))
