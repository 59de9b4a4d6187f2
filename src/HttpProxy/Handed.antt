-- ===== src/HttpProxy/Handed.antt =====
-- What `dump_message` hands on, described by itself, and that it does so.
use gnyproxy.Prelude.{
  if◌then◌else◌, ℕ, ◌≤◌, List, [], ◌++◌, ◌≡◌, refl, ap, ◌∙◌, leb, ltb, Bool, true, false, ◌&&◌, ok,
  ◌>>=◌, >>=_assoc, sym, arith,
}
use gnyproxy.HttpMessage.{
  MessageState, header, entity, footer, done, rank, HttpMessage, is_empty, set_url, set_verb,
  set_status, end_header, end_entity, end_footer, get_headers, get_entity, get_footers,
}
use gnyproxy.HttpProxy.{dump_line, dump_headers, dump_entity, dump_footers, dump_message, end_if}
use gnyproxy.HttpProxy.Kept.{add_headers_lem, append_entity_lem, add_footers_lem}

-- The part number k goes over where the copy has not ended it and the source has come to it.
abbrev passes : ℕ → HttpMessage → HttpMessage → Bool
passes k src dst = leb (rank dst.state) k && leb k (rank src.state)

-- What is left in the source and what the copy has then.
abbrev pub pass {ℓ} : {A : Type ℓ} → Bool → List A → List A → List A × List A
pass true left there = ([], there ++ left)
pass false left there = (left, there)

-- The headers, the body and the footers, and the state.
abbrev pub parts_relayed : HttpMessage → HttpMessage → HttpMessage × HttpMessage
parts_relayed src dst =
    let headers = pass (passes 0 src dst) src.headers dst.headers in
    let body = pass (passes 1 src dst) src.body dst.body in
    let footers = pass (passes 2 src dst) src.footers dst.footers in
    (
      record src { headers = headers.0; body = body.0; footers = footers.0 },
      record dst { state = src.state; headers = headers.1; body = body.1; footers = footers.1 },
    )

-- The verb and the URL that a request has not, or the status of a response.
abbrev pub line_relayed : HttpMessage → HttpMessage → HttpMessage
line_relayed src dst = record dst {
  verb = if dst.is_request then src.verb else dst.verb;
  url = if dst.is_request && is_empty dst.url then src.url else dst.url;
  status = if dst.is_request then dst.status else src.status;
}

-- The source and the copy afterwards.
abbrev pub relayed : HttpMessage → HttpMessage → HttpMessage × HttpMessage
relayed src dst = parts_relayed src (line_relayed src dst)

dump_line-line_relayed : (src dst : HttpMessage) → dump_line src dst ≡ line_relayed src dst
unfolding dump_line set_verb set_url set_status
dump_line-line_relayed src dst = by_kind dst.is_request (is_empty dst.url)
  where
    by_kind :
        (b e : Bool)
        → (if b
            then (if e then set_url (set_verb dst src.verb) src.url else set_verb dst src.verb)
            else set_status dst src.status)
          ≡ record dst {
            verb = if b then src.verb else dst.verb;
            url = if b && e then src.url else dst.url;
            status = if b then dst.status else src.status;
          }
    by_kind true true = refl
    by_kind true false = refl
    by_kind false e = refl

footers_pass :
    (s : MessageState) (src dst : HttpMessage)
    → 2 ≤ rank s
    → dump_footers (record src { state = s }, record dst { state = footer })
      ≡ ok (parts_relayed (record src { state = s }) (record dst { state = footer }))
footers_pass s src dst h = adds ∙ by_state s h
  where
    copied : HttpMessage
    copied = record dst { state = footer; footers = dst.footers ++ src.footers }

    adds : dump_footers (record src { state = s }, record dst { state = footer }) ≡ (
        end_if (ltb 2 (rank s)) end_footer copied >>= λ e.
        ok (record src { state = s; footers = [] }, e))
    adds =
        unfold dump_footers get_footers in
        ap
          (λ r. r >>= λ d. end_if (ltb 2 (rank s)) end_footer d >>= λ e.
            ok (record src { state = s; footers = [] }, e))
          (add_footers_lem (record dst { state = footer }) src.footers refl)

    by_state :
        (s : MessageState)
        → 2 ≤ rank s
        → (end_if (ltb 2 (rank s)) end_footer copied >>= λ e.
            ok (record src { state = s; footers = [] }, e))
          ≡ ok (parts_relayed (record src { state = s }) (record dst { state = footer }))
    by_state header l = absurd (omega arith)
    by_state entity l = absurd (omega arith)
    by_state footer l = refl
    by_state done l = unfold end_footer in refl

entity_pass :
    (s : MessageState) (src dst : HttpMessage)
    → 1 ≤ rank s
    → (dump_entity (record src { state = s }, record dst { state = entity }) >>= dump_footers)
      ≡ ok (parts_relayed (record src { state = s }) (record dst { state = entity }))
entity_pass s src dst h = ap (λ r. r >>= dump_footers) adds ∙ by_state s h
  where
    drained : MessageState → HttpMessage
    drained s = record src { state = s; body = [] }

    copied : MessageState → HttpMessage
    copied s = record dst { state = s; body = dst.body ++ src.body }

    adds :
        dump_entity (record src { state = s }, record dst { state = entity })
        ≡ (end_if (ltb 1 (rank s)) end_entity (copied entity) >>= λ e. ok (drained s, e))
    adds =
        unfold dump_entity get_entity in
        ap (λ r. r >>= λ d. end_if (ltb 1 (rank s)) end_entity d >>= λ e. ok (drained s, e))
          (append_entity_lem (record dst { state = entity }) src.body refl)

    by_state :
        (s : MessageState)
        → 1 ≤ rank s
        → ((end_if (ltb 1 (rank s)) end_entity (copied entity) >>= λ e. ok (drained s, e))
            >>= dump_footers)
          ≡ ok (parts_relayed (record src { state = s }) (record dst { state = entity }))
    by_state header l = absurd (omega arith)
    by_state entity l = unfold dump_footers in refl
    by_state footer l =
        unfold end_entity in footers_pass footer (drained footer) (copied footer) (omega arith)
    by_state done l =
        unfold end_entity in footers_pass done (drained done) (copied footer) (omega arith)

headers_pass :
    (s : MessageState) (src dst : HttpMessage)
    → ((dump_headers (record src { state = s }, record dst { state = header }) >>= dump_entity)
        >>= dump_footers)
      ≡ ok (parts_relayed (record src { state = s }) (record dst { state = header }))
headers_pass s src dst = ap (λ r. (r >>= dump_entity) >>= dump_footers) adds ∙ by_state s
  where
    drained : MessageState → HttpMessage
    drained s = record src { state = s; headers = [] }

    copied : MessageState → HttpMessage
    copied s = record dst { state = s; headers = dst.headers ++ src.headers }

    adds :
        dump_headers (record src { state = s }, record dst { state = header })
        ≡ (end_if (ltb 0 (rank s)) end_header (copied header) >>= λ e. ok (drained s, e))
    adds =
        unfold dump_headers get_headers in
        ap (λ r. r >>= λ d. end_if (ltb 0 (rank s)) end_header d >>= λ e. ok (drained s, e))
          (add_headers_lem (record dst { state = header }) src.headers refl)

    by_state :
        (s : MessageState)
        → (((end_if (ltb 0 (rank s)) end_header (copied header) >>= λ e. ok (drained s, e))
              >>= dump_entity)
            >>= dump_footers)
          ≡ ok (parts_relayed (record src { state = s }) (record dst { state = header }))
    by_state header = unfold dump_entity in unfold dump_footers in refl
    by_state entity =
        unfold end_header in entity_pass entity (drained entity) (copied entity) (omega arith)
    by_state footer =
        unfold end_header in entity_pass footer (drained footer) (copied entity) (omega arith)
    by_state done =
        unfold end_header in entity_pass done (drained done) (copied entity) (omega arith)

dump_parts :
    (src dst : HttpMessage)
    → rank dst.state ≤ rank src.state
    → ((dump_headers (src, dst) >>= dump_entity) >>= dump_footers) ≡ ok (parts_relayed src dst)
dump_parts src dst h = by_state dst.state src.state h
  where
    by_state :
        (d s : MessageState)
        → rank d ≤ rank s
        → ((dump_headers (record src { state = s }, record dst { state = d }) >>= dump_entity)
            >>= dump_footers)
          ≡ ok (parts_relayed (record src { state = s }) (record dst { state = d }))
    by_state header s l = headers_pass s src dst
    by_state entity s l = unfold dump_headers in entity_pass s src dst l
    by_state footer s l = unfold dump_headers in unfold dump_entity in footers_pass s src dst l
    by_state done done l = unfold dump_headers in unfold dump_entity in unfold dump_footers in refl
    by_state done header l = absurd (omega arith)
    by_state done entity l = absurd (omega arith)
    by_state done footer l = absurd (omega arith)

pub dump_message-relayed :
    (src dst : HttpMessage)
    → rank dst.state ≤ rank src.state
    → dump_message src dst ≡ ok (relayed src dst)
unfolding dump_message
dump_message-relayed src dst h =
    ap (λ d. dump_headers (src, d) >>= λ p. dump_entity p >>= dump_footers)
      (dump_line-line_relayed src dst)
    ∙ sym (>>=_assoc (dump_headers (src, line_relayed src dst)) dump_entity dump_footers)
    ∙ dump_parts src (line_relayed src dst) h
