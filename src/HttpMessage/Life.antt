-- ===== src/HttpMessage/Life.antt =====
-- The calls of a producer and of a consumer on one message, in any order.
use gnyproxy.Prelude.{
  ℕ, ◌≤◌, ◌≡◌, refl, Bool, true, false, List, [], ◌∷◌, ◌++◌, Bytes, Result, ok, ◌>>=◌, ◌>>◌, assert,
  arith, Holds, sym, ◌∙◌, ap, Holds-bind, Holds-map, Holds-ok, append_assoc, append-nil,
}
use gnyproxy.Prelude.Int.{ℤ}
use gnyproxy.HttpMessage.{
  rank, KeyValue, HttpMessage, init, set_url, set_verb, set_status, add_header, append_entity,
  add_footer, end_header, end_entity, end_footer, get_headers, get_entity, get_footers, is_sent,
  is_empty, done,
}

-- A call that changes the message, with its arguments.
pub data Call : Type 0 where
  sets_url : Bytes → Call
  sets_verb : ℕ → Call
  sets_status : ℤ → Call
  adds_header : Bytes → Bytes → Call
  appends_entity : Bytes → Call
  adds_footer : Bytes → Bytes → Call
  ends_header ends_entity ends_footer : Call
  gets_headers gets_entity gets_footers : Call

-- What the consumer has taken out so far, in order.
pub record Drained : Type 0 where
  pub headers : List KeyValue
  pub body : Bytes
  pub footers : List KeyValue

abbrev pub Situation : Type 0
Situation = HttpMessage × Drained

abbrev keep : Drained → Result HttpMessage → Result Situation
keep d r = do msg ← r; ok (msg, d)

unfoldable pub step : Situation → Call → Result Situation
unfolding set_url set_verb set_status add_header append_entity add_footer end_header end_entity
    end_footer get_headers get_entity get_footers
step (m, d) (sets_url u) = ok (set_url m u, d)
step (m, d) (sets_verb v) = ok (set_verb m v, d)
step (m, d) (sets_status s) = ok (set_status m s, d)
step (m, d) (adds_header k v) = keep d (add_header m k v)
step (m, d) (appends_entity e) = keep d (append_entity m e)
step (m, d) (adds_footer k v) = keep d (add_footer m k v)
step (m, d) ends_header = keep d (end_header m)
step (m, d) ends_entity = keep d (end_entity m)
step (m, d) ends_footer = keep d (end_footer m)
step (m, d) gets_headers =
    let (hs, m') = get_headers m in ok (m', record d { headers = d.headers ++ hs })
step (m, d) gets_entity = let (e, m') = get_entity m in ok (m', record d { body = d.body ++ e })
step (m, d) gets_footers =
    let (fs, m') = get_footers m in ok (m', record d { footers = d.footers ++ fs })

-- What has been put in: what was taken out, and what is still there.
abbrev pub all_headers : Situation → List KeyValue
all_headers s = s.1.headers ++ s.0.headers

abbrev pub whole_body : Situation → Bytes
whole_body s = s.1.body ++ s.0.body

abbrev pub all_footers : Situation → List KeyValue
all_footers s = s.1.footers ++ s.0.footers

-- What one call adds to the message seen as a whole.
abbrev pub new_headers : Call → List KeyValue
new_headers (adds_header k v) = (k, v) ∷ []
new_headers _ = []

abbrev pub new_body : Call → Bytes
new_body (appends_entity e) = e
new_body _ = []

abbrev pub new_footers : Call → List KeyValue
new_footers (adds_footer k v) = (k, v) ∷ []
new_footers _ = []

pub record Grows (s t : Situation) (c : Call) : Type 0 where
  pub forward : rank s.0.state ≤ rank t.0.state
  pub headers_grow : all_headers t ≡ all_headers s ++ new_headers c
  pub body_grows : whole_body t ≡ whole_body s ++ new_body c
  pub footers_grow : all_footers t ≡ all_footers s ++ new_footers c

-- A guarded call: the `assert`, and then the new message.
guarded :
    (s : Situation) (c : Call) (d : Drained) (b : Bool) (m : HttpMessage)
    → (b ≡ true → Grows s (m, d) c)
    → Holds (λ t. Grows s t c) (keep d (assert b >> ok m))
guarded s c d true m h = h refl
guarded s c d false m h = tt

module _ {ℓ} {A : Type ℓ} (xs ys : List A) where
  same : xs ++ ys ≡ (xs ++ ys) ++ []
  same = sym (append-nil (xs ++ ys))

  put : (zs : List A) → xs ++ (ys ++ zs) ≡ (xs ++ ys) ++ zs
  put zs = sym (append_assoc xs ys zs)

step-Grows : (s : Situation) (c : Call) → Holds (λ t. Grows s t c) (step s c)
unfolding step
step-Grows (m, d) (sets_url u) = record {
  forward = omega arith;
  headers_grow = same d.headers m.headers;
  body_grows = same d.body m.body;
  footers_grow = same d.footers m.footers;
}
step-Grows (m, d) (sets_verb u) = record {
  forward = omega arith;
  headers_grow = same d.headers m.headers;
  body_grows = same d.body m.body;
  footers_grow = same d.footers m.footers;
}
step-Grows (m, d) (sets_status u) = record {
  forward = omega arith;
  headers_grow = same d.headers m.headers;
  body_grows = same d.body m.body;
  footers_grow = same d.footers m.footers;
}
step-Grows (m, d) (adds_header k v) =
    guarded (m, d) (adds_header k v) d _ _
      λ h. record {
        forward = omega arith;
        headers_grow = put d.headers m.headers _;
        body_grows = same d.body m.body;
        footers_grow = same d.footers m.footers;
      }
step-Grows (m, d) (appends_entity e) =
    guarded (m, d) (appends_entity e) d _ _
      λ h. record {
        forward = omega arith;
        headers_grow = same d.headers m.headers;
        body_grows = put d.body m.body _;
        footers_grow = same d.footers m.footers;
      }
step-Grows (m, d) (adds_footer k v) =
    guarded (m, d) (adds_footer k v) d _ _
      λ h. record {
        forward = omega arith;
        headers_grow = same d.headers m.headers;
        body_grows = same d.body m.body;
        footers_grow = put d.footers m.footers _;
      }
step-Grows (m, d) ends_header =
    guarded (m, d) ends_header d _ _
      λ h. record {
        forward = ground arith;
        headers_grow = same d.headers m.headers;
        body_grows = same d.body m.body;
        footers_grow = same d.footers m.footers;
      }
step-Grows (m, d) ends_entity =
    guarded (m, d) ends_entity d _ _
      λ h. record {
        forward = ground arith;
        headers_grow = same d.headers m.headers;
        body_grows = same d.body m.body;
        footers_grow = same d.footers m.footers;
      }
step-Grows (m, d) ends_footer =
    guarded (m, d) ends_footer d _ _
      λ h. record {
        forward = ground arith;
        headers_grow = same d.headers m.headers;
        body_grows = same d.body m.body;
        footers_grow = same d.footers m.footers;
      }
step-Grows (m, d) gets_headers = record {
  forward = omega arith;
  headers_grow = refl;
  body_grows = same d.body m.body;
  footers_grow = same d.footers m.footers;
}
step-Grows (m, d) gets_entity = record {
  forward = omega arith;
  headers_grow = same d.headers m.headers;
  body_grows = refl;
  footers_grow = same d.footers m.footers;
}
step-Grows (m, d) gets_footers = record {
  forward = omega arith;
  headers_grow = same d.headers m.headers;
  body_grows = same d.body m.body;
  footers_grow = refl;
}

unfoldable pub run : Situation → List Call → Result Situation
run s [] = ok s
run s (c ∷ cs) = do t ← step s c; run t cs

abbrev pub none_drained : Drained
none_drained = record { headers = []; body = []; footers = [] }

-- What a list of calls puts in.
abbrev pub gather {ℓ} : {A : Type ℓ} → (Call → List A) → List Call → List A
gather f [] = []
gather f (c ∷ cs) = f c ++ gather f cs

pub record Whole (s t : Situation) (cs : List Call) : Type 0 where
  pub later : rank s.0.state ≤ rank t.0.state
  pub headers_whole : all_headers t ≡ all_headers s ++ gather new_headers cs
  pub body_whole : whole_body t ≡ whole_body s ++ gather new_body cs
  pub footers_whole : all_footers t ≡ all_footers s ++ gather new_footers cs

joined {ℓ} :
    {A : Type ℓ} {all before : List A} (start added rest : List A)
    → all ≡ before ++ rest
    → before ≡ start ++ added
    → all ≡ start ++ (added ++ rest)
joined s a r p q = p ∙ ap (λ l. l ++ r) q ∙ append_assoc s a r

Whole-cons :
    (s t u : Situation) (c : Call) (cs : List Call)
    → Grows s t c
    → Whole t u cs
    → Whole s u (c ∷ cs)
Whole-cons s t u c cs g w = record {
  later = omega arith;
  headers_whole =
      joined (all_headers s) (new_headers c) (gather new_headers cs) w.headers_whole g.headers_grow;
  body_whole = joined (whole_body s) (new_body c) (gather new_body cs) w.body_whole g.body_grows;
  footers_whole =
      joined (all_footers s) (new_footers c) (gather new_footers cs) w.footers_whole g.footers_grow;
}

run-Whole : (s : Situation) (cs : List Call) → Holds (λ t. Whole s t cs) (run s cs)
unfolding run
run-Whole s [] = record {
  later = omega arith;
  headers_whole = sym (append-nil (all_headers s));
  body_whole = sym (append-nil (whole_body s));
  footers_whole = sym (append-nil (all_footers s));
}
run-Whole s (c ∷ cs) =
    Holds-bind (λ u. Whole s u (c ∷ cs)) (step s c) (λ t. run t cs)
      λ t e.
        Holds-map _ _ (run t cs)
          (λ u. Whole-cons s t u c cs (Holds-ok (λ v. Grows s v c) (step s c) t e (step-Grows s c)))
          (run-Whole t cs)

nil_of_is_empty {ℓ} : {A : Type ℓ} (xs : List A) → is_empty xs ≡ true → xs ≡ []
nil_of_is_empty [] h = refl
nil_of_is_empty (x ∷ xs) h = cc

drained {ℓ} : {A : Type ℓ} (xs : List A) {ys zs : List A} → ys ≡ [] → xs ++ ys ≡ zs → xs ≡ zs
drained xs p q = sym (append-nil xs) ∙ ap (λ l. xs ++ l) (sym p) ∙ q

Sent : HttpMessage → Type 0
Sent m = (m.state ≡ done) × (m.headers ≡ []) × (m.body ≡ []) × (m.footers ≡ [])

is_sent-Sent : (m : HttpMessage) → is_sent m ≡ true → Sent m
unfolding is_sent Sent
is_sent-Sent m h = (
  ground arith,
  nil_of_is_empty m.headers (ground arith),
  nil_of_is_empty m.body (ground arith),
  nil_of_is_empty m.footers (ground arith),
)

-- Whatever calls a producer and a consumer made on a new message with no failed `assert`, once
-- `is_sent` holds the producer has closed the message, and the consumer has taken exactly the
-- headers, the bytes of the body and the footers that were put in, in order.
pub is_sent-drained :
    (is_request : Bool) (cs : List Call) (t : Situation)
    → run (init is_request, none_drained) cs ≡ ok t
    → is_sent t.0 ≡ true
    → (t.0.state ≡ done)
      × (t.1.headers ≡ gather new_headers cs)
      × (t.1.body ≡ gather new_body cs)
      × (t.1.footers ≡ gather new_footers cs)
unfolding Sent init
is_sent-drained is_request cs t e h =
    let s = is_sent-Sent t.0 h in
    let w =
      Holds-ok (λ u. Whole (init is_request, none_drained) u cs)
        (run (init is_request, none_drained) cs) t e
        (run-Whole (init is_request, none_drained) cs) in
    (
      s.0,
      drained t.1.headers s.1 w.headers_whole,
      drained t.1.body s.2 w.body_whole,
      drained t.1.footers s.3 w.footers_whole,
    )
