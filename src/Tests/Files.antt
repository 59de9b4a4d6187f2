-- ===== src/Tests/Files.antt =====
-- The servers of files and the maker of requests on concrete calls.
use gnyproxy.Prelude.{
  ◌≡◌, refl, true, false, [], ◌∷◌, none, some, ◌==◌, if◌then◌else◌, codes, ok, ◌>>=◌, arith,
}
use gnyproxy.Prelude.Int.{pos}
use gnyproxy.Socket.{received}
use gnyproxy.HttpMessage.{MessageState, HttpMessage, init}
use gnyproxy.MessageSinkGny.{MessageSinkGny, check_for_update}
use gnyproxy.MessageSinkGny
use gnyproxy.HttpServer.Serving.{KeepsState}
use gnyproxy.TestHttpServer.{
  FileSystem, MyHttpServer, file_at, find_resource, open_path, is_under, my_http_server,
}
use gnyproxy.TestHttpServer.Paths.{Below, find_resource-Below}
use gnyproxy.TestHttpServer.Filling.{Filled, fill-Filled}
use gnyproxy.TestHttpServer.Process.{process-KeepsState}
use gnyproxy.RequestGen.{generate_request}
use gnyproxy.RequestGen.Once.{generate_request-check_for_update}
use gnyproxy.Tests.Toys.{quick_readers, quiet_writers}

-- Every path is that of a file beside the directory /a, whose first read gives two bytes.
abbrev files : FileSystem
files = record {
  realpath = λ path. some (codes "/ab/f");
  opendir = λ path. none;
  open_file = λ path. some 7;
  read_file = λ fd n. if n == 0 then received (1 ∷ 2 ∷ []) else received [];
  mime_type = λ path. codes "text/plain";
}

find_resource-Below_example : Below (codes "/ab") (find_resource files (codes "/ab") (codes "/f"))
find_resource-Below_example = find_resource-Below files (codes "/ab") (codes "/f")

-- The base path /a lets files of /ab be served.
beside_served : find_resource files (codes "/a") (codes "/../ab/f") ≡ file_at (codes "/ab/f") 7
unfolding find_resource open_path is_under
beside_served = refl

abbrev opened : MyHttpServer
opened = record { fd = some 7; reads = 0; header_mp = λ name. [] }

abbrev half_sent : HttpMessage
half_sent = record {
  is_request = false;
  url = [];
  verb = 9;
  status = pos 200;
  headers = [];
  footers = [];
  body = [];
  state = MessageState.entity;
}

fill-Filled_example : Filled files 1025 opened half_sent
fill-Filled_example = fill-Filled files 1025 opened half_sent (omega arith)

process-KeepsState_example :
    KeepsState (my_http_server files (codes "/a") quick_readers quiet_writers)
process-KeepsState_example = process-KeepsState files (codes "/a") quick_readers quiet_writers

generate_request-check_for_update_example :
    (u : MessageSinkGny) × ((generate_request (b'/' ∷ []) (init true) >>= λ m.
    check_for_update (gnyproxy.MessageSinkGny.create m))
      ≡ ok u)
    × (generate_request (b'/' ∷ []) u.msg ≡ ok u.msg)
generate_request-check_for_update_example = generate_request-check_for_update b'/' [] (refl, tt)
