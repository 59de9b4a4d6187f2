-- ===== src/HttpProxy/Generated.antt =====
-- The responses that the proxy makes itself, and the GNY writer.
use gnyproxy.Prelude.{ℕ, ◌<◌, ◌≡◌, refl, [], ◌∷◌, Bytes, codes, ok, false}
use gnyproxy.Prelude.Int.{pos}
use gnyproxy.HttpMessage.{
  MessageState, HttpMessage, init, add_header, append_entity, end_header, end_entity, end_footer,
  set_status,
}
use gnyproxy.HttpProxy.{generate_message}
use gnyproxy.MessageSinkGny.Encode.{IsWritable}

-- The response in its last state.
abbrev pub response : ℕ → Bytes → HttpMessage
response status info = record (init false) {
  status = pos status;
  headers = (codes "Proxy-Agent", codes "gny-proxy") ∷ [];
  body = info;
  state = MessageState.done;
}

-- From a new response, `generate_message` makes a complete one: the status, one header, the text as
-- its body; and with a status below 65535, the GNY format can express it.
pub generate_message-IsWritable :
    (status : ℕ) (info : Bytes)
    → status < 65535
    → (generate_message (init false) (pos status) info ≡ ok (response status info))
      × IsWritable (response status info)
unfolding generate_message init add_header append_entity end_header end_entity end_footer set_status
generate_message-IsWritable status info small = (
  refl,
  record {
    headers_clean = (
      (refl, (refl, (refl, (refl, (refl, (refl, (refl, (refl, (refl, (refl, (refl, tt))))))))))),
      (refl, (refl, (refl, (refl, (refl, (refl, (refl, (refl, (refl, tt))))))))),
      tt,
    );
    footers_clean = tt;
    url_clean = tt;
    line_known = (status, small, refl);
  },
)
