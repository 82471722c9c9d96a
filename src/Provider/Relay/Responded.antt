-- ===== src/Provider/Relay/Responded.antt =====
-- internal/provider/openai/openai.go: the response that the agent makes of the events that `relay` sends.
use text.Mathlib.TextLemmas.{append-nil as str_append-nil}
use eika.Common.{
  ℕ, Bool, true, false, List, [], ◌∷◌, ◌++◌, map, foldl, Option, none, some, String, str_eq,
  str_eq_iff, str_append, if◌then◌else◌, All, ◌≡◌, ◌≢◌, refl, sym, ap, ap₂, ◌∙◌, subst,
  append_assoc, append-nil, Result, ok, err, ◌||◌,
}
use eika.Provider.{Usage, ToolCall}
use eika.Provider.ToolCalls.{add, assembled_calls}
use eika.Provider.ToolCalls.Assembled.{last_filled, or_before_empty}
use eika.Agent.Stream.{
  StreamEvent, done, is_zero, zero_usage, stream, Response, StreamError, provider_error, Received,
  receive_all, error, text_delta, reasoning_delta, tool_call_delta, usage, nothing_received,
  cut_off, assistant_message_with_reasoning, tool_call,
}
use eika.Agent.Stream.Assembled.{receive_step, stream-response_with, IsContent}
use eika.Provider.Relay.{
  Chunk, Relaying, nothing_relayed, send_usage, as_tool_call, finish_relay, no_reason, relay_from,
  relay,
}
use eika.Provider.Relay.Chunks.{fragments_in, reasons_in, choices_in, usage_in, chunks-IsRelayed}
use eika.Provider.Relay.Carried.{
  Carries, Carries-append, contents, thoughts, calls-Carries, send_usage-Carries,
}

-- A response by its parts.
abbrev response_by : String → String → List ToolCall → String → Usage → Response
response_by said thought calls stop used = record {
  message = assistant_message_with_reasoning said thought calls;
  stop = stop;
  usage = used;
}

same_response :
    {s s' t t' p p' : String} {l l' : List ToolCall} {u u' : Usage}
    → s ≡ s'
    → t ≡ t'
    → l ≡ l'
    → p ≡ p'
    → u ≡ u'
    → response_by s t l p u ≡ response_by s' t' l' p' u'
same_response {s} {s'} {t} {t'} {p} {p'} {l} {l'} {u} {u'} a b c d e = rw (a, b, c, d, e) refl

-- A stop for the length is one that cuts the response off.
cut_calls :
    (stop : String) (calls : List ToolCall)
    → (if cut_off stop then [] else if str_eq stop "length" then [] else calls)
      ≡ (if cut_off stop then [] else calls)
unfolding cut_off
cut_calls stop calls = at (str_eq stop "length") (str_eq stop "content_filter")
  where
    at :
        (a b : Bool)
        → (if a || b then [] else if a then [] else calls) ≡ (if a || b then [] else calls)
    at true b = refl
    at false true = refl
    at false false = refl

module _ (text : List ℕ → String) where
  -- What is sent at the end of a stream that gave a reason to finish.
  record IsFinished (r : Relaying) : Type 0 where
    out : List StreamEvent
    sent : finish_relay text r none ≡ out ++ done r.stop ∷ []
    carried :
        Carries out "" ""
          (if str_eq r.stop "length" then [] else map (as_tool_call text) (assembled_calls r.acc))
          r.used
          r.used

  finish_relay-IsFinished : (r : Relaying) → r.reported ≡ r.used → r.stop ≢ "" → IsFinished r
  unfolding finish_relay
  finish_relay-IsFinished r settled given = at (str_eq r.stop "") (str_eq r.stop "length") refl refl
    where
      calls : List ToolCall
      calls = map (as_tool_call text) (assembled_calls r.acc)

      events : List StreamEvent
      events = map (λ c. tool_call (as_tool_call text c)) (assembled_calls r.acc)

      quiet : Carries (send_usage r).1 "" "" [] r.used r.used
      quiet =
          subst (λ u. Carries (send_usage r).1 "" "" [] u r.used) settled
            (send_usage-Carries r (λ h. settled)).0

      whole : Carries (events ++ (send_usage r).1) "" "" calls r.used r.used
      whole =
          subst (λ l. Carries (events ++ (send_usage r).1) "" "" l r.used r.used) (append-nil calls)
            (Carries-append events (send_usage r).1 "" "" "" "" calls [] r.used r.used r.used
              (calls-Carries text (assembled_calls r.acc) r.used) quiet)

      at : (a b : Bool) → str_eq r.stop "" ≡ a → str_eq r.stop "length" ≡ b → IsFinished r
      at true b e f = absurd (given ((str_eq_iff r.stop "").0 e))
      at false true e f = record {
        out = (send_usage r).1;
        sent = rw (e, f) refl;
        carried = rw f quiet;
      }
      at false false e f = record {
        out = events ++ (send_usage r).1;
        sent = rw (e, f) refl;
        carried = rw f whole;
      }

  -- The response that the chunks make.
  abbrev pub response_in : List Chunk → Response
  response_in ks =
      let stop = last_filled (reasons_in (choices_in ks)) in
      record {
        message =
            assistant_message_with_reasoning (contents (choices_in ks)) (thoughts (choices_in ks)) (
              if cut_off stop
              then []
              else map (as_tool_call text)
                  (assembled_calls (foldl add [] (fragments_in (choices_in ks)))));
        stop = stop;
        usage = usage_in zero_usage ks;
      }

  relay-response_in :
      (ks : List Chunk)
      → last_filled (reasons_in (choices_in ks)) ≢ ""
      → stream (relay text ks none) ≡ ok (response_in ks)
  unfolding relay
  relay-response_in ks given =
      let rel = chunks-IsRelayed text nothing_relayed ks none refl in
      let reason = last_filled (reasons_in (choices_in ks)) in
      let same_stop : rel.fin.stop ≡ reason = rel.taken.stop ∙ or_before_empty reason in
      let stopped : rel.fin.stop ≢ "" = (λ e. given (sym same_stop ∙ e)) in
      let end = finish_relay-IsFinished rel.fin rel.settled stopped in
      let calls = map (as_tool_call text) (assembled_calls rel.fin.acc) in
      let all =
        Carries-append rel.out end.out (contents (choices_in ks)) "" (thoughts (choices_in ks)) ""
          [] (if str_eq rel.fin.stop "length" then [] else calls) zero_usage rel.fin.used
          rel.fin.used rel.carried end.carried in
      let sent : relay_from text nothing_relayed ks none
          ≡ rel.out ++ end.out ++ done rel.fin.stop ∷ [] =
        rel.sent
        ∙ ap (λ l. rel.out ++ l) end.sent
        ∙ sym (append_assoc rel.out end.out (done rel.fin.stop ∷ [])) in
      ap stream sent
      ∙ stream-response_with (rel.out ++ end.out) rel.fin.stop all.content stopped
      ∙ ap ok (
          same_response (all.said_all ∙ str_append-nil (contents (choices_in ks)))
            (all.thought_all ∙ str_append-nil (thoughts (choices_in ks)))
            (ap (λ l. if cut_off rel.fin.stop then [] else l) all.called
              ∙ cut_calls rel.fin.stop calls
              ∙ ap₂
                  (λ p acc. if cut_off p then [] else map (as_tool_call text) (assembled_calls acc))
                  same_stop rel.taken.acc)
            same_stop (all.used ∙ rel.used))

-- Content and then an error fail the response.
stream_error :
    (out : List StreamEvent) (e : String) (p : Received)
    → p.is_done ≡ false
    → All IsContent out
    → receive_all p (out ++ error e ∷ []) ≡ err (provider_error e)
unfolding receive_all
stream_error [] e p d a = rw d refl
stream_error (text_delta t ∷ es) e p d a =
    receive_step p (record p { said = str_append p.said t }) (text_delta t) (es ++ error e ∷ []) d
      refl
    ∙ stream_error es e (record p { said = str_append p.said t }) d a.1
stream_error (reasoning_delta t ∷ es) e p d a =
    receive_step p (record p { thought = str_append p.thought t }) (reasoning_delta t)
      (es ++ error e ∷ []) d refl
    ∙ stream_error es e (record p { thought = str_append p.thought t }) d a.1
stream_error (tool_call_delta t ∷ es) e p d a =
    receive_step p (p) (tool_call_delta t) (es ++ error e ∷ []) d refl ∙ stream_error es e (p) d a.1
stream_error (tool_call c ∷ es) e p d a =
    receive_step p (record p { calls = p.calls ++ c ∷ [] }) (tool_call c) (es ++ error e ∷ []) d
      refl
    ∙ stream_error es e (record p { calls = p.calls ++ c ∷ [] }) d a.1
stream_error (usage u ∷ es) e p d a =
    receive_step p (record p { used = if is_zero u then p.used else u }) (usage u)
      (es ++ error e ∷ []) d refl
    ∙ stream_error es e (record p { used = if is_zero u then p.used else u }) d a.1
stream_error (done s ∷ es) e p d a = absurd a.0
stream_error (error s ∷ es) e p d a = absurd a.0

module _ (text : List ℕ → String) where
  -- What a stream of chunks comes to, with the error that it ended with.
  abbrev pub answer_in : List Chunk → Option String → Result StreamError Response
  answer_in ks (some e) = err (provider_error e)
  answer_in ks none =
      if str_eq (last_filled (reasons_in (choices_in ks))) ""
      then err (provider_error no_reason)
      else ok (response_in text ks)

  stream-relay_failed :
      (ks : List Chunk) (failed : Option String) (e : String)
      → ((r : Relaying)
          → r.stop ≡ last_filled (reasons_in (choices_in ks))
          → finish_relay text r failed ≡ error e ∷ [])
      → stream (relay text ks failed) ≡ err (provider_error e)
  unfolding relay stream
  stream-relay_failed ks failed e ends =
      let rel = chunks-IsRelayed text nothing_relayed ks failed refl in
      ap (receive_all nothing_received) (
        rel.sent
        ∙ ap (λ l. rel.out ++ l)
            (ends rel.fin
              (rel.taken.stop ∙ or_before_empty (last_filled (reasons_in (choices_in ks))))))
      ∙ stream_error rel.out e nothing_received refl rel.carried.content

  -- The agent makes of the relayed events: the provider's error, when the endpoint's stream fails or gives
  -- no reason to finish; and otherwise the response with the text and the reasoning of all chunks in
  -- order, the tool calls that their fragments make, unless the reason cuts the response off, the last
  -- reason that is not empty and the last usage that is not zero.
  pub stream-relay :
      (ks : List Chunk) (failed : Option String)
      → stream (relay text ks failed) ≡ answer_in ks failed
  unfolding finish_relay
  stream-relay ks (some e) = stream-relay_failed ks (some e) e (λ r same. refl)
  stream-relay ks none = at (str_eq reason "") refl
    where
      reason : String
      reason = last_filled (reasons_in (choices_in ks))

      at :
          (b : Bool)
          → str_eq reason "" ≡ b
          → ◌≡◌ {A = Result StreamError Response}
              (stream (relay text ks none))
              (if b then err (provider_error no_reason) else ok (response_in text ks))
      at true eq =
          stream-relay_failed ks none no_reason (λ r same.
            let e : str_eq r.stop "" ≡ true = ap (λ s. str_eq s "") same ∙ eq in rw e refl)
      at false eq =
          relay-response_in text ks (λ e. let e2 = (str_eq_iff reason "").1 e in cc (e2, eq))
