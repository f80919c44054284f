-- ===== src/Picoclaw/Bridge.antt =====
-- examples/picoclaw/client.go: what a negotiation through the bridge answers.
use agent_semantic_protocol.Common.{
  ℕ, ◌≤◌, ◌<◌, ◌≡◌, refl, sym, ap, true, Option, some, Bytes, codes, ◌++◌, ◌||◌, ltb, leb,
  if◌then◌else◌, arith, Bool-cases, inl, inr,
}
use agent_semantic_protocol.Common.Int64.{ℤ}
use agent_semantic_protocol.Common.Outcome.{
  Error, Result, ok, err, want, wrapping, bind-eq_ok, wrapping-eq_ok, want-eq_ok,
}
use agent_semantic_protocol.Wire.Maps.{get-put_self}
use agent_semantic_protocol.Messages.Types.{IntentMessage, NegotiationResponse}
use agent_semantic_protocol.Did.Packages.{Crypto}
use agent_semantic_protocol.Negotiation.{Bus, register, negotiate, verify_response_signature}
use agent_semantic_protocol.Host.Requests.{ok_injective}
use agent_semantic_protocol.Picoclaw.{
  Client, IntentResponse, HttpRequest, HttpResponse, Http, Json, set_header, authorized, exchange,
  post, request_of, response_of, send_intent, as_negotiation_handler,
}

in_range {ℓ} :
    {A : Type ℓ} (n : ℕ) (e : Error) (r : Result A) (a : A)
    → (if ltb n 200 || leb 300 n then err e else r) ≡ ok a
    → (200 ≤ n) × (n < 300) × (r ≡ ok a)
in_range n e r a h = elim (Bool-cases (ltb n 200 || leb 300 n)) [
  | inl outside ↦ absurd (cc (rw outside at h))
  | inr inside ↦ (ground arith, ground arith, rw inside at h)
]

module _ (http : Http) where
  exchange-eq_ok {ℓ} :
      {A : Type ℓ} (cl : Client) (req : HttpRequest) (decode : Bytes → Option A) (a : A)
      → exchange http cl req decode ≡ ok a
      → (reply : HttpResponse) × ((http.do_request cl.timeout req ≡ some reply)
          × (200 ≤ reply.status_code)
          × (reply.status_code < 300)
          × (decode reply.body ≡ some a))
  unfolding exchange
  exchange-eq_ok cl req decode a h =
      let (reply, got, h1) = bind-eq_ok (want _ (http.do_request cl.timeout req)) _ a h in
      let (low, high, decoded) = in_range reply.status_code _ (want _ (decode reply.body)) a h1 in
      (
        reply,
        (
          want-eq_ok _ (http.do_request cl.timeout req) reply got,
          low,
          high,
          want-eq_ok _ (decode reply.body) a decoded,
        ),
      )

  module _ (json : Json) (cl : Client) (now : ℤ) (intent : IntentMessage) where
    -- What lies behind the response `r` to an intent: the request that was sent, and its reply.
    pub record IsBridged (r : NegotiationResponse) : Type 0 where
      pub text : Bytes
      pub marshalled : json.marshal_request (request_of cl intent) ≡ some text
      pub built : HttpRequest
      pub is_post :
          http.new_request (codes "POST") (cl.base_url ++ codes "/v1/intent") text ≡ some built
      pub reply : HttpResponse
      pub done :
          http.do_request cl.timeout
            (authorized cl (set_header (codes "Content-Type") (codes "application/json") built))
          ≡ some reply
      pub not_below : 200 ≤ reply.status_code
      pub not_above : reply.status_code < 300
      pub resp : IntentResponse
      pub decoded : json.decode_response reply.body ≡ some resp
      pub response : r ≡ response_of cl intent now resp

    send_intent-IsBridged :
        (r : NegotiationResponse) → send_intent http json cl now intent ≡ ok r → IsBridged r
    unfolding send_intent post
    send_intent-IsBridged r h =
        let (resp, posted, h1) =
          bind-eq_ok
            (wrapping _ (
              post http cl (codes "/v1/intent") (json.marshal_request (request_of cl intent))
                json.decode_response))
            _ r h in
        let posted' =
          wrapping-eq_ok _
            (post http cl (codes "/v1/intent") (json.marshal_request (request_of cl intent))
              json.decode_response)
            resp posted in
        let (text, marshalled, p1) =
          bind-eq_ok (want _ (json.marshal_request (request_of cl intent))) _ resp posted' in
        let (built, is_post, p2) =
          bind-eq_ok
            (want _ (http.new_request (codes "POST") (cl.base_url ++ codes "/v1/intent") text)) _
            resp p1 in
        let (reply, (done, low, high, decoded)) =
          exchange-eq_ok cl
            (authorized cl (set_header (codes "Content-Type") (codes "application/json") built))
            json.decode_response resp p2 in
        record {
          text = text;
          marshalled = want-eq_ok _ (json.marshal_request (request_of cl intent)) text marshalled;
          built = built;
          is_post =
              want-eq_ok _
                (http.new_request (codes "POST") (cl.base_url ++ codes "/v1/intent") text) built
                is_post;
          reply = reply;
          done = done;
          not_below = low;
          not_above = high;
          resp = resp;
          decoded = decoded;
          response = sym (ok_injective (response_of cl intent now resp) r h1);
        }

    -- Whoever negotiates over a bus with the bridge under an id, and gets a response, has the answer
    -- of a service that replied with a status from 200 to 299. The response has the id of the intent,
    -- whatever request id the service sent, and no signature: the check of its signature passes with
    -- every key.
    pub negotiate_over_http :
        (c : Crypto) (id : Bytes) (bus : Bus) (r : NegotiationResponse) (key : Bytes)
        → negotiate id intent (register id (as_negotiation_handler http json cl now) bus) ≡ ok r
        → IsBridged r × (r.request_id ≡ intent.id) × (verify_response_signature c r key ≡ ok true)
    unfolding negotiate register as_negotiation_handler verify_response_signature
    negotiate_over_http c id bus r key h =
        let bridged =
          send_intent-IsBridged r
            (rw (get-put_self id (as_negotiation_handler http json cl now) bus) at h) in
        (bridged, ap (λ x. x.request_id) bridged.response, rw bridged.response refl)
