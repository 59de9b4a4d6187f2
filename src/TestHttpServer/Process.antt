-- ===== src/TestHttpServer/Process.antt =====
-- A call of `process` leaves the request as far as it has been read.
use gnyproxy.Prelude.{
  ◌≡◌, refl, ap, not, ◌&&◌, ltb, ◌==◌, if◌then◌else◌, Bytes, ok, Holds, Holds-bind, Holds-ok,
  Holds-map, Bool-cases, inl, inr,
}
use gnyproxy.Prelude.Int.{pos}
use gnyproxy.HttpMessage.{
  MessageState, header, footer, rank, HttpMessage, set_status, end_footer, get_headers, get_entity,
  get_footers, is_empty,
}
use gnyproxy.Codec.{Readers, Writers}
use gnyproxy.HttpServer.Serving.{KeepsState, is_complete}
use gnyproxy.TestHttpServer.{
  FileSystem, MyHttpServer, my_http_server, strip_query, trim_slashes, find_resource, send_header,
  respond, fill, process,
}

module _ (fs : FileSystem) (base_path : Bytes) where
  -- The request is in its state.
  abbrev Same : HttpMessage → MyHttpServer × HttpMessage × HttpMessage → Type 0
  Same in_msg p = p.1.state ≡ in_msg.state

  respond-Same :
      (g : MyHttpServer) (in_msg out_msg : HttpMessage)
      → Holds (Same in_msg) (respond fs base_path g in_msg out_msg)
  unfolding respond get_headers
  respond-Same g in_msg out_msg =
      elim (Bool-cases (
        not (is_empty (strip_query in_msg.url))
        && (ltb (rank header) (rank in_msg.state) && rank out_msg.state == rank header))) [
          | inr waits ↦ rw (respond, waits) refl
          | inl starts ↦
              rw (respond, starts)
                (Holds-bind (Same in_msg)
                  (send_header fs _ (trim_slashes (strip_query in_msg.url))
                    (find_resource fs base_path (trim_slashes (strip_query in_msg.url)))
                    (set_status out_msg (pos 200)))
                  _ (λ p eq. refl))
        ]

  process-Same :
      (g : MyHttpServer) (in_msg out_msg : HttpMessage)
      → Holds (Same in_msg) (process fs base_path g in_msg out_msg)
  unfolding process get_entity get_footers
  process-Same g in_msg out_msg =
      Holds-bind (Same in_msg) (respond fs base_path g in_msg out_msg) _ (λ (g1, in1, out1) eq.
        let same = Holds-ok (Same in_msg) _ (g1, in1, out1) eq (respond-Same g in_msg out_msg) in
        Holds-bind (Same in_msg) (fill fs 1025 g1 out1) _ (λ (g2, out2) eq'.
          Holds-bind (Same in_msg)
            (if rank out2.state == rank footer then end_footer out2 else ok out2) _
            (λ out3 eq''. same)))

  -- A call of MyHttpServer's process with no fault leaves the request as complete as it was, which
  -- the server's link relies on.
  pub process-KeepsState :
      (R : Readers) (W : Writers) → KeepsState (my_http_server fs base_path R W)
  process-KeepsState R W gen in_msg out_msg =
      Holds-map (Same in_msg)
        (λ (p : MyHttpServer × HttpMessage × HttpMessage).
          is_complete (my_http_server fs base_path R W) p.1
          ≡ is_complete (my_http_server fs base_path R W) in_msg)
        (process fs base_path gen in_msg out_msg)
        (λ p same. ap (λ (s : MessageState). rank s == rank MessageState.done) same)
        (process-Same gen in_msg out_msg)
