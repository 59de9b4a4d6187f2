-- ===== src/HttpProxy/Relay.antt =====
-- `dump_message` as a whole: what goes over, and that no part of the message is lost or written twice.
use gnyproxy.Prelude.{◌≤◌, List, ◌++◌, ◌≡◌, refl, Bool, true, false, ok, append-nil, arith}
use gnyproxy.HttpMessage.{rank, HttpMessage}
use gnyproxy.HttpProxy.{dump_message}
use gnyproxy.HttpProxy.Handed.{pass, relayed, dump_message-relayed}
use gnyproxy.HttpProxy.Kept.{Kept}

pass_kept {ℓ} :
    {A : Type ℓ} (b : Bool) (left there : List A)
    → (pass b left there).1 ++ (pass b left there).0 ≡ there ++ left
pass_kept true left there = append-nil _
pass_kept false left there = refl

Kept-relayed :
    (src dst : HttpMessage) → rank dst.state ≤ rank src.state → Kept (src, dst) (relayed src dst)
Kept-relayed src dst h = record {
  headers_kept = pass_kept _ src.headers dst.headers;
  body_kept = pass_kept _ src.body dst.body;
  footers_kept = pass_kept _ src.footers dst.footers;
  source_state = refl;
  not_ahead = omega arith;
  not_back = h;
}

-- Where the copy is not ahead of its source, dump_message succeeds and leaves the two messages
-- that relayed describes: headers, body and footers each go over whole, behind what the copy has
-- of them, where the copy has not ended that part and the source has come to it, and are then
-- empty in the source, and else both messages keep theirs; a request takes the verb, and the URL
-- where it has none, a response takes the status, and the copy is afterwards in its source's
-- state. So each part of the copy followed by that left in the source is what the two were before.
pub dump_message-Kept :
    (src dst : HttpMessage)
    → rank dst.state ≤ rank src.state
    → (dump_message src dst ≡ ok (relayed src dst))
      × Kept (src, dst) (relayed src dst)
      × ((relayed src dst).1.state ≡ src.state)
dump_message-Kept src dst h = (dump_message-relayed src dst h, Kept-relayed src dst h, refl)
