-- ===== src/Agent/Stream/Assembled.antt =====
-- internal/agent/response.go: what `stream` returns, next to what the events carried.
use eika.Common.{
  true, false, String, str_eq, str_eq_iff, str_append, List, [], ◌∷◌, ◌++◌, Result, ok, err, All,
  append-nil, append_assoc, if◌then◌else◌, arith, ◌≡◌, ◌≢◌, refl, sym, ap, ◌∙◌,
}
use text.Mathlib.TextLemmas.{
  append_assoc as str_append_assoc, append-nil as str_append-nil, nil-append as str_nil-append,
}
use eika.Provider.{ToolCall, Usage}
use eika.Agent.Stream.{
  StreamEvent, text_delta, reasoning_delta, tool_call_delta, tool_call, usage, done, error,
  StreamError, after_completion, Received, Response, nothing_received, zero_usage, is_zero, cut_off,
  assistant_message_with_reasoning, received, response_of, receive_all, stream,
}

-- What a stream carries, each kind by itself.
abbrev pub texts : List StreamEvent → String
texts [] = ""
texts (text_delta t ∷ es) = str_append t (texts es)
texts (_ ∷ es) = texts es

abbrev pub reasonings : List StreamEvent → String
reasonings [] = ""
reasonings (reasoning_delta t ∷ es) = str_append t (reasonings es)
reasonings (_ ∷ es) = reasonings es

abbrev pub calls_of : List StreamEvent → List ToolCall
calls_of [] = []
calls_of (tool_call c ∷ es) = c ∷ calls_of es
calls_of (_ ∷ es) = calls_of es

-- The last usage that is not zero, or the one given.
abbrev pub usage_of : Usage → List StreamEvent → Usage
usage_of u [] = u
usage_of u (usage v ∷ es) = usage_of (if is_zero v then u else v) es
usage_of u (_ ∷ es) = usage_of u es

-- An event that neither ends the stream nor fails it.
abbrev pub IsContent : StreamEvent → Type 0
IsContent (done stop) = ⊥
IsContent (error e) = ⊥
IsContent _ = Unit

-- The response that a stream with this content and this stop reason makes.
abbrev pub response_with : List StreamEvent → String → Response
response_with body stop = record {
  message =
      assistant_message_with_reasoning (texts body) (reasonings body)
        (if cut_off stop then [] else calls_of body);
  stop = stop;
  usage = usage_of zero_usage body;
}

abbrev complete : String → String → List ToolCall → Usage → String → Received
complete said thought calls used stop = record {
  said = said;
  thought = thought;
  calls = calls;
  used = used;
  stop = stop;
  is_done = true;
}

pub receive_step :
    (p q : Received) (e : StreamEvent) (es : List StreamEvent)
    → p.is_done ≡ false
    → received p e ≡ ok q
    → receive_all p (e ∷ es) ≡ receive_all q es
unfolding receive_all
receive_step p q e es d r = rw (receive_all, r, d)

-- The response that the loop makes of what it had received and of the content to come.
abbrev extended : Received → List StreamEvent → String → Result StreamError Response
extended p body stop = response_of (
    complete (str_append p.said (texts body)) (str_append p.thought (reasonings body))
      (p.calls ++ calls_of body) (usage_of p.used body) stop)

ended :
    (said thought : String) (calls : List ToolCall) (used : Usage) (stop : String)
    → receive_all (complete said thought calls used stop) []
      ≡ response_of (complete (str_append said "") (str_append thought "") (calls ++ []) used stop)
unfolding receive_all
ended said thought calls used stop =
    rw (str_append-nil said, str_append-nil thought, append-nil calls)

receive_body :
    (p : Received) (body : List StreamEvent) (stop : String)
    → p.is_done ≡ false
    → All IsContent body
    → receive_all p (body ++ done stop ∷ []) ≡ extended p body stop
receive_body p [] stop d a =
    receive_step p (complete p.said p.thought p.calls p.used stop) (done stop) [] d refl
    ∙ ended p.said p.thought p.calls p.used stop
receive_body p (text_delta t ∷ es) stop d a =
    let q = record p { said = str_append p.said t } in
    receive_step p q (text_delta t) (es ++ done stop ∷ []) d refl
    ∙ receive_body q es stop d a.1
    ∙ ap
        (λ s. response_of (
          complete s (str_append p.thought (reasonings es)) (p.calls ++ calls_of es)
            (usage_of p.used es) stop))
        (str_append_assoc p.said t (texts es))
receive_body p (reasoning_delta t ∷ es) stop d a =
    let q = record p { thought = str_append p.thought t } in
    receive_step p q (reasoning_delta t) (es ++ done stop ∷ []) d refl
    ∙ receive_body q es stop d a.1
    ∙ ap
        (λ s. response_of (
          complete (str_append p.said (texts es)) s (p.calls ++ calls_of es) (usage_of p.used es)
            stop))
        (str_append_assoc p.thought t (reasonings es))
receive_body p (tool_call_delta t ∷ es) stop d a =
    receive_step p p (tool_call_delta t) (es ++ done stop ∷ []) d refl
    ∙ receive_body p es stop d a.1
receive_body p (tool_call c ∷ es) stop d a =
    let q = record p { calls = p.calls ++ c ∷ [] } in
    receive_step p q (tool_call c) (es ++ done stop ∷ []) d refl
    ∙ receive_body q es stop d a.1
    ∙ ap
        (λ l. response_of (
          complete (str_append p.said (texts es)) (str_append p.thought (reasonings es)) l
            (usage_of p.used es) stop))
        (append_assoc p.calls (c ∷ []) (calls_of es))
receive_body p (usage u ∷ es) stop d a =
    let q = record p { used = if is_zero u then p.used else u } in
    receive_step p q (usage u) (es ++ done stop ∷ []) d refl ∙ receive_body q es stop d a.1
receive_body p (done s ∷ es) stop d a = absurd a.0
receive_body p (error s ∷ es) stop d a = absurd a.0

given : (stop : String) → stop ≢ "" → str_eq stop "" ≡ false
given stop n = ground (arith, str_eq_iff stop "")

-- A stream that carries any content and then completes with a stop reason makes the response with
-- the text, the reasoning and the tool calls that it carried, each in order, and with the last usage
-- that is not zero. When the response was cut off, its tool calls are left out.
pub stream-response_with :
    (body : List StreamEvent) (stop : String)
    → All IsContent body
    → stop ≢ ""
    → stream (body ++ done stop ∷ []) ≡ ok (response_with body stop)
unfolding stream response_of
stream-response_with body stop a n =
    receive_body nothing_received body stop refl a
    ∙ rw (str_nil-append (texts body), str_nil-append (reasonings body), given stop n)

-- What `stream` returns without an error comes from such a stream, and from no other.
pub record IsComplete (es : List StreamEvent) (r : Response) : Type 0 where
  pub body : List StreamEvent
  pub events : es ≡ body ++ done r.stop ∷ []
  pub content : All IsContent body
  pub stop_given : r.stop ≢ ""

one_more :
    (e : StreamEvent) (es : List StreamEvent) (r : Response)
    → IsContent e
    → IsComplete es r
    → IsComplete (e ∷ es) r
one_more e es r a k = record {
  body = e ∷ k.body;
  events = ap (λ l. e ∷ l) k.events;
  content = (a, k.content);
  stop_given = k.stop_given;
}

refused :
    (p : Received) (e : StreamEvent) (es : List StreamEvent)
    → p.is_done ≡ true
    → receive_all p (e ∷ es) ≡ err after_completion
unfolding receive_all
refused p (text_delta t) es d = rw (receive_all, d)
refused p (reasoning_delta t) es d = rw (receive_all, d)
refused p (tool_call_delta t) es d = rw (receive_all, d)
refused p (tool_call c) es d = rw (receive_all, d)
refused p (usage u) es d = rw (receive_all, d)
refused p (done s) es d = rw (receive_all, d)
refused p (error s) es d = rw (receive_all, d)

after_done :
    (p : Received) (es : List StreamEvent) (r : Response)
    → p.is_done ≡ true
    → receive_all p es ≡ ok r
    → (es ≡ []) × ((r.stop ≡ p.stop) × (p.stop ≢ ""))
unfolding receive_all response_of
after_done p [] r d h = ground (arith, str_eq_iff p.stop "")
after_done p (e ∷ es) r d h = cc (sym (refused p e es d) ∙ h)

IsComplete-body :
    (p : Received) (es : List StreamEvent) (r : Response)
    → p.is_done ≡ false
    → receive_all p es ≡ ok r
    → IsComplete es r
unfolding receive_all response_of
IsComplete-body p [] r d h = absurd (ground arith)
IsComplete-body p (text_delta t ∷ es) r d h =
    let q = record p { said = str_append p.said t } in
    one_more (text_delta t) es r tt
      (IsComplete-body q es r d (sym (receive_step p q (text_delta t) es d refl) ∙ h))
IsComplete-body p (reasoning_delta t ∷ es) r d h =
    let q = record p { thought = str_append p.thought t } in
    one_more (reasoning_delta t) es r tt
      (IsComplete-body q es r d (sym (receive_step p q (reasoning_delta t) es d refl) ∙ h))
IsComplete-body p (tool_call_delta t ∷ es) r d h =
    one_more (tool_call_delta t) es r tt
      (IsComplete-body p es r d (sym (receive_step p p (tool_call_delta t) es d refl) ∙ h))
IsComplete-body p (tool_call c ∷ es) r d h =
    let q = record p { calls = p.calls ++ c ∷ [] } in
    one_more (tool_call c) es r tt
      (IsComplete-body q es r d (sym (receive_step p q (tool_call c) es d refl) ∙ h))
IsComplete-body p (usage u ∷ es) r d h =
    let q = record p { used = if is_zero u then p.used else u } in
    one_more (usage u) es r tt
      (IsComplete-body q es r d (sym (receive_step p q (usage u) es d refl) ∙ h))
IsComplete-body p (done s ∷ es) r d h =
    let q = record p { stop = s; is_done = true } in
    let k = after_done q es r refl (sym (receive_step p q (done s) es d refl) ∙ h) in
    record {
      body = [];
      events = cc (k.0, k.1.0);
      content = tt;
      stop_given = λ e. k.1.1 (sym k.1.0 ∙ e);
    }
IsComplete-body p (error s ∷ es) r d h = absurd (ground arith)

-- A stream that `stream` makes a response of is complete: it carries content only, then one
-- completion with the response's stop reason, and nothing after it.
pub stream-IsComplete : (es : List StreamEvent) (r : Response) → stream es ≡ ok r → IsComplete es r
unfolding stream
stream-IsComplete es r h = IsComplete-body nothing_received es r refl h
