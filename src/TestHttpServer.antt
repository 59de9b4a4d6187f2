-- ===== src/TestHttpServer.antt =====
-- The class MyHttpServer of test_http_server.cpp: it answers a request with a file, with the names in a
-- directory, or with a text. The file system is a parameter.
pub mod Paths
pub mod Filling
pub mod Process
use gnyproxy.Prelude.{
  ℕ, zero, suc, ◌+◌, Bool, true, false, not, ◌&&◌, List, [], ◌∷◌, ◌++◌, map, Option, none, some,
  ltb, ◌==◌, if◌then◌else◌, Bytes, codes, length, Result, ok, fault, out_of_fuel, ◌>>=◌,
}
use gnyproxy.Prelude.Int.{pos}
use gnyproxy.Http.{c_str, tolower}
use gnyproxy.HttpMessage.{
  MessageState, header, entity, footer, rank, KeyValue, HttpMessage, set_status, add_header,
  end_header, append_entity, end_entity, end_footer, get_headers, get_entity, get_footers, is_empty,
}
use gnyproxy.Socket.{Received, received, failed}
use gnyproxy.ReqLinker.{same_bytes}
use gnyproxy.Codec.{Readers, Writers}
use gnyproxy.HttpServer.{Generation}

-- `realpath`, the names that `opendir` and `readdir` give, `open`, and what the n-th `read` of a file gives; and the
-- program `file` behind `mime_type`.
pub record FileSystem : Type 0 where
  pub realpath : Bytes → Option Bytes
  pub opendir : Bytes → Option (List Bytes)
  pub open_file : Bytes → Option ℕ
  pub read_file : ℕ → ℕ → Received
  pub mime_type : Bytes → Bytes

-- `fd` is `none` where it is -1; `reads` counts the calls of `read`.
pub record MyHttpServer : Type 0 where
  pub fd : Option ℕ
  pub reads : ℕ
  pub header_mp : Bytes → Bytes

-- The constructor.
unfoldable pub create : MyHttpServer
create = record { fd = none; reads = 0; header_mp = λ name. [] }

-- The URL in front of its first question mark.
unfoldable pub strip_query : Bytes → Bytes
strip_query [] = []
strip_query (c ∷ url) = let rest = strip_query url in if c == b'?' then [] else c ∷ rest

-- The URL with no slash at its end.
unfoldable pub trim_slashes : Bytes → Bytes
trim_slashes [] = []
trim_slashes (c ∷ url) =
    let rest = trim_slashes url in if is_empty rest && c == b'/' then [] else c ∷ rest

-- The loop over the headers, with their names in lower case.
unfoldable pub take_headers : List KeyValue → (Bytes → Bytes) → Bytes → Bytes
take_headers [] mp = mp
take_headers ((name, value) ∷ headers) mp =
    let lower = map tolower name in
    take_headers headers (λ key. if same_bytes key lower then value else mp key)

-- The loop that compares `base_path` with the path; no byte of `base_path` is 0.
unfoldable pub is_under : Bytes → Bytes → Bool
is_under [] canon_path = true
is_under (b ∷ base_path) [] = false
is_under (b ∷ base_path) (c ∷ canon_path) = b == c && is_under base_path canon_path

-- The loop over the names of a directory; those that begin with a point are left out.
unfoldable pub list_names : Bytes → Bytes → List Bytes → Bytes
list_names host url [] = []
list_names host url (name ∷ names) =
    let rest = list_names host url names in
    let line =
      codes "<a href='http://"
      ++ (host ++ (url ++ (b'/' ∷ (name ++ (codes "'>" ++ (name ++ codes "</a><br/>")))))) in
    elim name [ [] ↦ line ++ rest | c ∷ cs ↦ if c == b'.' then rest else line ++ rest ]

-- What a path leads to: a text, the names in a directory, or a file.
pub data Resource : Type 0 where
  text : Bytes → Resource
  names_in : Bytes → List Bytes → Resource
  file_at : Bytes → ℕ → Resource

unfoldable pub open_path : FileSystem → Bytes → Resource
open_path fs canon_path = elim (fs.opendir canon_path) [
  | some names ↦ names_in canon_path names
  | none ↦ elim (fs.open_file canon_path) [
    | none ↦ text (codes "Could not find specified file or path")
    | some fd ↦ file_at canon_path fd
  ]
]

-- The path below `base_path`, where it leads to.
unfoldable pub find_resource : FileSystem → Bytes → Bytes → Resource
find_resource fs base_path url = elim (fs.realpath (c_str (base_path ++ (b'/' ∷ url)))) [
  | none ↦ text (codes "Could not find specified file or path")
  | some canon_path ↦ elim (is_under base_path canon_path) [
    | false ↦ text (codes "You do not have permission to access this resource.")
    | true ↦ open_path fs canon_path
  ]
]

-- The type is that of HTML where a name is listed. The header of the response, and its entity if there is no file.
unfoldable pub send_header :
    FileSystem → MyHttpServer → Bytes → Resource → HttpMessage → Result (MyHttpServer × HttpMessage)
send_header fs g url resource out_msg = do
  let content_type = elim resource as (λ _. Bytes) [
    | text t ↦ codes "text/plain"
    | names_in path names ↦
        (if is_empty (list_names [] [] names) then codes "text/plain" else codes "text/html")
    | file_at path fd ↦ fs.mime_type path
  ]
  a ← add_header out_msg (codes "Server") (codes "Test Server")
  b ← add_header a (codes "Content-Type") content_type
  c ← add_header b (codes "Cache-Control") (codes "private")
  d ← end_header c
  elim resource [
    | file_at path fd ↦ ok (record g { fd = some fd }, d)
    | text t ↦ do e ← append_entity d t; f ← end_entity e; ok (g, f)
    | names_in path names ↦ do
      e ← append_entity d (list_names (g.header_mp (codes "host")) url names)
      f ← end_entity e
      ok (g, f)
  ]

-- The first part of `process`, once the request's headers are there.
unfoldable pub respond :
    FileSystem
    → Bytes
    → MyHttpServer
    → HttpMessage
    → HttpMessage
    → Result (MyHttpServer × HttpMessage × HttpMessage)
respond fs base_path g in_msg out_msg = do
  let url = strip_query in_msg.url
  (if not (is_empty url)
        && (ltb (rank header) (rank in_msg.state) && rank out_msg.state == rank header)
      then (do
        let (headers, drained) = get_headers in_msg
        let known = record g { header_mp = take_headers headers g.header_mp }
        let path = trim_slashes url
        (g', out) ←
            send_header fs known path (find_resource fs base_path path)
              (set_status out_msg (pos 200))
        ok (g', drained, out))
      else ok (g, in_msg, out_msg))

-- The loop that reads the file; without a file, `read` fails.
unfoldable pub fill :
    FileSystem → ℕ → MyHttpServer → HttpMessage → Result (MyHttpServer × HttpMessage)
fill fs zero g out_msg = fault out_of_fuel
fill fs (suc fuel) g out_msg =
    let come = elim g.fd as (λ _. Received) [ none ↦ failed | some fd ↦ fs.read_file fd g.reads ] in
    let counted = record g { reads = suc g.reads } in
    elim (rank out_msg.state == rank entity && ltb (length out_msg.body) 1024) [
      | false ↦ ok (g, out_msg)
      | true ↦ elim come [
        | failed ↦ do m ← end_entity out_msg; ok (record counted { fd = none }, m)
        | received [] ↦ do m ← end_entity out_msg; ok (record counted { fd = none }, m)
        | received (b ∷ buf) ↦ do m ← append_entity out_msg (b ∷ buf); fill fs fuel counted m
      ]
    ]

unfoldable pub process :
    FileSystem
    → Bytes
    → MyHttpServer
    → HttpMessage
    → HttpMessage
    → Result (MyHttpServer × HttpMessage × HttpMessage)
process fs base_path g in_msg out_msg = do
  (g1, in1, out1) ← respond fs base_path g in_msg out_msg
  (g2, out2) ← fill fs 1025 g1 out1
  out3 ← if rank out2.state == rank footer then end_footer out2 else ok out2
  let (edrain, in2) = get_entity in1
  let (footer_drain, in3) = get_footers in2
  ok (g2, in3, out3)

-- The server's generators, with `my_http_server_gen_creator`.
abbrev pub my_http_server : FileSystem → Bytes → Readers → Writers → Generation
my_http_server fs base_path reader_creator writer_creator = record {
  Gen = MyHttpServer;
  created = create;
  process = process fs base_path;
  reader_creator = reader_creator;
  writer_creator = writer_creator;
}
