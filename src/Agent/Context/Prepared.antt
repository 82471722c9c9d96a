-- ===== src/Agent/Context/Prepared.antt =====
-- internal/agent/context.go: what `WithMessages` prepares.
use eika.Common.{
  ℕ, ◌+◌, String, Option, List, [], ◌∷◌, ◌++◌, map, sum, append-nil, append_assoc, arith, ◌≡◌, refl,
  ap, sym, ◌∙◌,
}
use eika.Provider.{Message}
use eika.Agent.Context.{Context, message_tokens, prepare, add_messages, with_messages}

map_compose :
    (f : Message → Message) (g : Message → ℕ) (ms : List Message)
    → map (λ m. g (f m)) ms ≡ map g (map f ms)
map_compose f g [] = refl
map_compose f g (m ∷ ms) = ap (λ ns. g (f m) ∷ ns) (map_compose f g ms)

sum-snoc : (ns : List ℕ) (n : ℕ) → sum (ns ++ (n ∷ [])) ≡ sum ns + n
sum-snoc [] n = omega arith
sum-snoc (x ∷ xs) n = omega (arith, sum-snoc xs n)

module _ (marshal : Message → Option String) where
  -- What the loop of `WithMessages` has built, from what it started with.
  record IsAdded (c : Context) (ms : List Message) (out : Context) : Type 0 where
    messages : out.messages ≡ c.messages ++ map (prepare c.parameters) ms
    sizes :
        out.message_sizes
        ≡ c.message_sizes ++ map (λ m. message_tokens marshal (prepare c.parameters m)) ms
    tokens : sum c.message_sizes ≡ c.message_tokens → sum out.message_sizes ≡ out.message_tokens
    others : (out.sections ≡ c.sections) × ((out.tools ≡ c.tools) × (out.parameters ≡ c.parameters))

  add_messages-IsAdded :
      (c : Context) (ms : List Message) → IsAdded c ms (add_messages marshal c ms)
  unfolding add_messages
  add_messages-IsAdded c [] = record {
    messages = sym (append-nil c.messages);
    sizes = sym (append-nil c.message_sizes);
    tokens = λ e. e;
    others = (refl, (refl, refl));
  }
  add_messages-IsAdded c (m ∷ ms) =
      let p = prepare c.parameters m in
      let size = message_tokens marshal p in
      let rest =
        add_messages-IsAdded
          (record c {
            messages = c.messages ++ (p ∷ []);
            message_sizes = c.message_sizes ++ (size ∷ []);
            message_tokens = c.message_tokens + size;
          })
          ms in
      record {
        messages = rest.messages ∙ append_assoc c.messages (p ∷ []) (map (prepare c.parameters) ms);
        sizes =
            rest.sizes
            ∙ append_assoc c.message_sizes (size ∷ [])
                (map (λ m. message_tokens marshal (prepare c.parameters m)) ms);
        tokens = λ e. rest.tokens (omega (arith, e, sum-snoc c.message_sizes size));
        others = rest.others;
      }

  -- `WithMessages` sends every message as `prepare` has it, in order, each with its own size, and the
  -- sizes add up to the size of the messages; nothing else of the request changes.
  pub record IsPrepared (c : Context) (ms : List Message) (out : Context) : Type 0 where
    pub messages : out.messages ≡ map (prepare c.parameters) ms
    pub sizes : out.message_sizes ≡ map (message_tokens marshal) out.messages
    pub tokens : sum out.message_sizes ≡ out.message_tokens
    pub others :
        (out.sections ≡ c.sections) × ((out.tools ≡ c.tools) × (out.parameters ≡ c.parameters))

  pub with_messages-IsPrepared :
      (c : Context) (ms : List Message) → IsPrepared c ms (with_messages marshal c ms)
  unfolding with_messages
  with_messages-IsPrepared c ms =
      let k =
        add_messages-IsAdded (record c { messages = []; message_sizes = []; message_tokens = 0 })
          ms in
      record {
        messages = k.messages;
        sizes =
            k.sizes
            ∙ map_compose (prepare c.parameters) (message_tokens marshal) ms
            ∙ ap (map (message_tokens marshal)) (sym k.messages);
        tokens = k.tokens refl;
        others = k.others;
      }
