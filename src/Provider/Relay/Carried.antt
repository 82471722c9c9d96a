-- ===== src/Provider/Relay/Carried.antt =====
-- internal/provider/openai/openai.go: what the events that `relay` sends carry.
use text.Mathlib.TextLemmas.{
  append_assoc as str_append_assoc, append-nil as str_append-nil, nil-append as str_nil-append,
}
use eika.Common.{
  ℕ, Bool, true, false, List, [], ◌∷◌, ◌++◌, map, String, str_eq, str_eq_iff, str_append,
  if◌then◌else◌, concat_all, All, All-append, arith, ◌≡◌, refl, sym, ap, ap₂, ◌∙◌,
}
use eika.Provider.{Usage, ToolCall}
use eika.Provider.ToolCalls.{Fragment, Call}
use eika.Agent.Stream.{
  StreamEvent, text_delta, reasoning_delta, tool_call_delta, tool_call, usage, done, error, is_zero,
}
use eika.Agent.Stream.Assembled.{texts, reasonings, calls_of, usage_of, IsContent}
use eika.Provider.Relay.{
  Choice, Relaying, same_usage, send_usage, unless_empty, choice_events, as_tool_call,
}

-- Events that carry this text, this reasoning and these calls, and lead from one usage to another.
pub record Carries (events : List StreamEvent) (said thought : String) (calls : List ToolCall)
    (before after : Usage) : Type 0 where
  pub content : All IsContent events
  pub said_all : texts events ≡ said
  pub thought_all : reasonings events ≡ thought
  pub called : calls_of events ≡ calls
  pub used : usage_of before events ≡ after

pub Carries-nil : (u : Usage) → Carries [] "" "" [] u u
Carries-nil u = record {
  content = tt;
  said_all = refl;
  thought_all = refl;
  called = refl;
  used = refl;
}

pub Carries-cast :
    {events : List StreamEvent} {s s' t t' : String} {l : List ToolCall} {u v v' : Usage}
    → s ≡ s'
    → t ≡ t'
    → v ≡ v'
    → Carries events s t l u v
    → Carries events s' t' l u v'
Carries-cast e f g k = record {
  content = k.content;
  said_all = k.said_all ∙ e;
  thought_all = k.thought_all ∙ f;
  called = k.called;
  used = k.used ∙ g;
}

texts-append :
    (front back : List StreamEvent) → texts (front ++ back) ≡ str_append (texts front) (texts back)
texts-append [] back = sym (str_nil-append (texts back))
texts-append (text_delta t ∷ es) back =
    ap (str_append t) (texts-append es back) ∙ sym (str_append_assoc t (texts es) (texts back))
texts-append (reasoning_delta t ∷ es) back = texts-append es back
texts-append (tool_call_delta t ∷ es) back = texts-append es back
texts-append (tool_call c ∷ es) back = texts-append es back
texts-append (usage u ∷ es) back = texts-append es back
texts-append (done s ∷ es) back = texts-append es back
texts-append (error s ∷ es) back = texts-append es back

reasonings-append :
    (front back : List StreamEvent)
    → reasonings (front ++ back) ≡ str_append (reasonings front) (reasonings back)
reasonings-append [] back = sym (str_nil-append (reasonings back))
reasonings-append (text_delta t ∷ es) back = reasonings-append es back
reasonings-append (reasoning_delta t ∷ es) back =
    ap (str_append t) (reasonings-append es back)
    ∙ sym (str_append_assoc t (reasonings es) (reasonings back))
reasonings-append (tool_call_delta t ∷ es) back = reasonings-append es back
reasonings-append (tool_call c ∷ es) back = reasonings-append es back
reasonings-append (usage u ∷ es) back = reasonings-append es back
reasonings-append (done s ∷ es) back = reasonings-append es back
reasonings-append (error s ∷ es) back = reasonings-append es back

calls_of-append :
    (front back : List StreamEvent) → calls_of (front ++ back) ≡ calls_of front ++ calls_of back
calls_of-append [] back = refl
calls_of-append (text_delta t ∷ es) back = calls_of-append es back
calls_of-append (reasoning_delta t ∷ es) back = calls_of-append es back
calls_of-append (tool_call_delta t ∷ es) back = calls_of-append es back
calls_of-append (tool_call c ∷ es) back = ap (λ l. c ∷ l) (calls_of-append es back)
calls_of-append (usage u ∷ es) back = calls_of-append es back
calls_of-append (done s ∷ es) back = calls_of-append es back
calls_of-append (error s ∷ es) back = calls_of-append es back

usage_of-append :
    (w : Usage) (front back : List StreamEvent)
    → usage_of w (front ++ back) ≡ usage_of (usage_of w front) back
usage_of-append w [] back = refl
usage_of-append w (text_delta t ∷ es) back = usage_of-append w es back
usage_of-append w (reasoning_delta t ∷ es) back = usage_of-append w es back
usage_of-append w (tool_call_delta t ∷ es) back = usage_of-append w es back
usage_of-append w (tool_call c ∷ es) back = usage_of-append w es back
usage_of-append w (usage u ∷ es) back = usage_of-append (if is_zero u then w else u) es back
usage_of-append w (done s ∷ es) back = usage_of-append w es back
usage_of-append w (error s ∷ es) back = usage_of-append w es back

pub Carries-append :
    (front back : List StreamEvent) (s s' t t' : String) (l l' : List ToolCall) (u v w : Usage)
    → Carries front s t l u v
    → Carries back s' t' l' v w
    → Carries (front ++ back) (str_append s s') (str_append t t') (l ++ l') u w
Carries-append front back s s' t t' l l' u v w a b = record {
  content = All-append IsContent front back a.content b.content;
  said_all = texts-append front back ∙ ap₂ str_append a.said_all b.said_all;
  thought_all = reasonings-append front back ∙ ap₂ str_append a.thought_all b.thought_all;
  called = calls_of-append front back ∙ ap₂ (λ x y. x ++ y) a.called b.called;
  used = usage_of-append u front back ∙ ap (λ x. usage_of x back) a.used ∙ b.used;
}

-- A text that is sent unless it is empty.
said_if : (text : String) (u : Usage) → Carries (unless_empty text (text_delta text)) text "" [] u u
said_if text u = at (str_eq text "") refl
  where
    at :
        (b : Bool)
        → str_eq text "" ≡ b
        → Carries (if b then [] else text_delta text ∷ []) text "" [] u u
    at true eq = record {
      content = tt;
      said_all = sym ((str_eq_iff text "").0 eq);
      thought_all = refl;
      called = refl;
      used = refl;
    }
    at false eq = record {
      content = (tt, tt);
      said_all = str_append-nil text;
      thought_all = refl;
      called = refl;
      used = refl;
    }

thought_if :
    (text : String) (u : Usage) → Carries (unless_empty text (reasoning_delta text)) "" text [] u u
thought_if text u = at (str_eq text "") refl
  where
    at :
        (b : Bool)
        → str_eq text "" ≡ b
        → Carries (if b then [] else reasoning_delta text ∷ []) "" text [] u u
    at true eq = record {
      content = tt;
      said_all = refl;
      thought_all = sym ((str_eq_iff text "").0 eq);
      called = refl;
      used = refl;
    }
    at false eq = record {
      content = (tt, tt);
      said_all = refl;
      thought_all = str_append-nil text;
      called = refl;
      used = refl;
    }

same_usage-eq : (u v : Usage) → same_usage u v ≡ true → u ≡ v
same_usage-eq u v h = ground arith

-- What choices hold of the text and of the reasoning.
abbrev pub contents : List Choice → String
contents [] = ""
contents (c ∷ cs) = str_append c.content (contents cs)

abbrev pub thoughts : List Choice → String
thoughts [] = ""
thoughts (c ∷ cs) = str_append c.reasoning (thoughts cs)

pub contents-append :
    (cs cs' : List Choice) → contents (cs ++ cs') ≡ str_append (contents cs) (contents cs')
contents-append [] cs' = sym (str_nil-append (contents cs'))
contents-append (c ∷ cs) cs' =
    ap (str_append c.content) (contents-append cs cs')
    ∙ sym (str_append_assoc c.content (contents cs) (contents cs'))

pub thoughts-append :
    (cs cs' : List Choice) → thoughts (cs ++ cs') ≡ str_append (thoughts cs) (thoughts cs')
thoughts-append [] cs' = sym (str_nil-append (thoughts cs'))
thoughts-append (c ∷ cs) cs' =
    ap (str_append c.reasoning) (thoughts-append cs cs')
    ∙ sym (str_append_assoc c.reasoning (thoughts cs) (thoughts cs'))

-- A usage that is already reported, or zero, is not sent again.
pub send_usage-Carries :
    (r : Relaying)
    → (is_zero r.used ≡ true → r.reported ≡ r.used)
    → Carries (send_usage r).1 "" "" [] r.reported r.used
      × ((send_usage r).0 ≡ record r { reported = r.used })
unfolding send_usage
send_usage-Carries r known = at (is_zero r.used) (same_usage r.used r.reported) refl refl
  where
    sending : Bool → Bool → Relaying × List StreamEvent
    sending a b =
        if a
        then (r, [])
        else if b
        then (r, [])
        else (record r { reported = r.used }, usage r.used ∷ [])

    unsent :
        r.reported ≡ r.used
        → Carries [] "" "" [] r.reported r.used × (r ≡ record r { reported = r.used })
    unsent same = (
      Carries-cast refl refl same (Carries-nil r.reported),
      ap (λ u. record r { reported = u }) same,
    )

    at :
        (a b : Bool)
        → is_zero r.used ≡ a
        → same_usage r.used r.reported ≡ b
        → Carries (sending a b).1 "" "" [] r.reported r.used
          × ((sending a b).0 ≡ record r { reported = r.used })
    at true b e f = unsent (known e)
    at false true e f = unsent (sym (same_usage-eq r.used r.reported f))
    at false false e f = (
      record {
        content = (tt, tt);
        said_all = refl;
        thought_all = refl;
        called = refl;
        used = ap (λ b. if b then r.reported else r.used) e;
      },
      refl,
    )

module _ (text : List ℕ → String) where
  deltas-Carries :
      (fragments : List Fragment) (u : Usage)
      → Carries (map (λ f. tool_call_delta (text f.arguments)) fragments) "" "" [] u u
  deltas-Carries [] u = Carries-nil u
  deltas-Carries (f ∷ fragments) u =
      let later = deltas-Carries fragments u in
      record {
        content = (tt, later.content);
        said_all = later.said_all;
        thought_all = later.thought_all;
        called = later.called;
        used = later.used;
      }

  pub choice-Carries :
      (c : Choice) (u : Usage) → Carries (choice_events text c) c.content c.reasoning [] u u
  unfolding choice_events
  choice-Carries c u =
      let both =
        Carries-append (unless_empty c.content (text_delta c.content))
          (unless_empty c.reasoning (reasoning_delta c.reasoning)) c.content "" "" c.reasoning [] []
          u u u (said_if c.content u) (thought_if c.reasoning u) in
      let all =
        Carries-append
          (unless_empty c.content (text_delta c.content)
            ++ unless_empty c.reasoning (reasoning_delta c.reasoning))
          (map (λ f. tool_call_delta (text f.arguments)) c.fragments) (str_append c.content "") ""
          (str_append "" c.reasoning) "" [] [] u u u both (deltas-Carries c.fragments u) in
      Carries-cast (str_append-nil (str_append c.content "") ∙ str_append-nil c.content)
        (str_append-nil (str_append "" c.reasoning) ∙ str_nil-append c.reasoning) refl all

  pub choices-Carries :
      (cs : List Choice) (u : Usage)
      → Carries (concat_all (map (choice_events text) cs)) (contents cs) (thoughts cs) [] u u
  choices-Carries [] u = Carries-nil u
  choices-Carries (c ∷ cs) u =
      Carries-append (choice_events text c) (concat_all (map (choice_events text) cs)) c.content
        (contents cs) c.reasoning (thoughts cs) [] [] u u u (choice-Carries c u)
        (choices-Carries cs u)

  pub calls-Carries :
      (cs : List Call) (u : Usage)
      → Carries
          (map (λ c. tool_call (as_tool_call text c)) cs)
          ""
          ""
          (map (as_tool_call text) cs)
          u
          u
  calls-Carries [] u = Carries-nil u
  calls-Carries (c ∷ cs) u =
      let later = calls-Carries cs u in
      record {
        content = (tt, later.content);
        said_all = later.said_all;
        thought_all = later.thought_all;
        called = ap (λ l. as_tool_call text c ∷ l) later.called;
        used = later.used;
      }
