-- ===== src/Agent/Budget.antt =====
-- internal/agent/compaction.go: when a compaction runs, and what fits in the model's window. Go ints
-- that a user sets are integers; a size is never negative.
use eika.Common.{
  sum, ℕ, suc, ◌+◌, ◌-◌, ◌/◌, ◌≤◌, ◌<◌, min, Bool, ◌&&◌, String, Option, none, some, List, [], ◌∷◌,
  map, length, drop, ltb, leb, ◌==◌, if◌then◌else◌, Result, ok, err, arith, ◌≡◌, refl,
}
use eika.Common.Int.{ℤ, pos_part}
use eika.Provider.{Message, is_assistant}
use eika.Agent.Compacted.{Compaction, compacted, kept_of, without_metrics}
use eika.Agent.Context.Prepared.{with_messages-IsPrepared}
use eika.Agent.Context.{Context, Section, ToolSchema, with_messages}

abbrev pub default_reserve_tokens : ℕ
default_reserve_tokens = 16384

abbrev pub default_keep_recent_tokens : ℕ
default_keep_recent_tokens = 20000

pub record CompactionSettings : Type 0 where
  pub auto : Bool
  pub reserve : ℤ
  pub keep_recent : ℤ

-- A setting or a window that is not above 0 is not set.
unfoldable pub scaled : ℤ → ℕ → ℤ → ℕ
scaled setting def window =
    let setting = if pos_part setting == 0 then def else pos_part setting in
    if pos_part window == 0 then setting else min setting (pos_part window / 4)

unfoldable pub reserve_tokens : CompactionSettings → ℤ → ℕ
unfolding scaled
reserve_tokens c window = scaled c.reserve default_reserve_tokens window

unfoldable pub keep_recent_tokens : CompactionSettings → ℤ → ℕ
unfolding scaled
keep_recent_tokens c window = scaled c.keep_recent default_keep_recent_tokens window

-- `tokens > window - reserve`, which `scaled` keeps from going below 0
unfoldable pub should_compact : CompactionSettings → ℤ → ℕ → Bool
unfolding reserve_tokens
should_compact c window tokens =
    c.auto && (ltb 0 (pos_part window) && ltb (pos_part window - reserve_tokens c window) tokens)

-- What a measured call filled.
unfoldable pub measured : Message → ℕ
measured m = elim m.metrics [
  | none ↦ 0
  | some k ↦
      if is_assistant m.role
      then (if k.context.total_tokens == 0
          then k.context.input_tokens + k.context.output_tokens
          else k.context.total_tokens)
      else 0
]

-- The newest measured message and its index, counted from `i`.
unfoldable pub last_measured : ℕ → List Message → Option (ℕ × ℕ)
unfolding measured
last_measured i [] = none
last_measured i (m ∷ ms) = elim (last_measured (suc i) ms) [
  | some r ↦ some r
  | none ↦ if ltb 0 (measured m) then some (measured m, i) else none
]

abbrev pub sections_tokens : List Section → ℕ
sections_tokens ss = sum (map (λ s. s.tokens) ss)

abbrev pub tools_tokens : List ToolSchema → ℕ
tools_tokens ts = sum (map (λ t. t.tokens) ts)

unfoldable pub estimate_context : Context → List Message → ℕ
unfolding last_measured
estimate_context c msgs = elim (last_measured 0 msgs) [
  | none ↦ sections_tokens c.sections + tools_tokens c.tools + sum c.message_sizes
  | some r ↦ r.0 + sum (drop (r.1 + 1) c.message_sizes)
]

-- The error of `fit` carries the size and the window.
pub record TooLarge : Type 0 where
  pub tokens : ℕ
  pub window : ℕ

abbrev pub lower_max_output : Context → ℕ → Context
lower_max_output c room = record c { parameters = record c.parameters { max_output = some room } }

unfoldable pub fit : Context → ℕ → ℤ → Result TooLarge Context
fit c tokens window =
    if pos_part window == 0
    then ok c
    else if leb (pos_part window) tokens
    then err (record { tokens = tokens; window = pos_part window })
    else (elim c.parameters.max_output [
      | none ↦ ok c
      | some m ↦
          if ltb (pos_part window) (tokens + m)
          then ok (lower_max_output c (pos_part window - tokens))
          else ok c
    ])

-- What `fit` answers.
pub record IsFitted (c c' : Context) (tokens window : ℕ) : Type 0 where
  pub room : tokens < window
  pub request_kept : (c'.messages ≡ c.messages) × (c'.sections ≡ c.sections)
  pub within : (m : ℕ) → c'.parameters.max_output ≡ some m → tokens + m ≤ window
  pub not_raised :
      (n : ℕ)
      → c.parameters.max_output ≡ some n
      → c'.parameters.max_output ≡ some (min n (window - tokens))

-- A request that `fit` lets through a window that is set leaves room in the window, its messages and
-- its system prompt are kept, its maximal output fits beside it, and is the one that it asked for
-- where there is room for that and the room there is otherwise.
pub fit-IsFitted :
    (c c' : Context) (tokens : ℕ) (window : ℤ)
    → 0 < pos_part window
    → fit c tokens window ≡ ok c'
    → IsFitted c c' tokens (pos_part window)
unfolding fit
fit-IsFitted c c' tokens window l h = record {
  room = ground arith;
  request_kept = (ground arith, ground arith);
  within = λ m e. ground arith;
  not_raised = λ n e. ground arith;
}

scaled-le :
    (setting : ℤ) (def : ℕ) (window : ℤ)
    → 0 < pos_part window
    → scaled setting def window ≤ pos_part window / 4
unfolding scaled
scaled-le setting def window l = ground arith

-- In a window that is set, what a compaction keeps free and what it keeps of the newest conversation
-- take up at most half of the window together, whatever the user has set.
pub budgets-le-half :
    (c : CompactionSettings) (window : ℤ)
    → 0 < pos_part window
    → reserve_tokens c window + keep_recent_tokens c window ≤ pos_part window / 2
unfolding reserve_tokens keep_recent_tokens
budgets-le-half c window l = omega (
  arith,
  scaled-le c.reserve default_reserve_tokens window l,
  scaled-le c.keep_recent default_keep_recent_tokens window l,
)

last_measured-without_metrics :
    (ms : List Message) (i : ℕ) → last_measured i (map without_metrics ms) ≡ none
unfolding last_measured measured
last_measured-without_metrics [] i = refl
last_measured-without_metrics (m ∷ ms) i = rw (last_measured-without_metrics ms (suc i))

-- Nothing that a compaction leaves counts as measured.
last_measured-compacted :
    (before : List Message) (c : Compaction) (i : ℕ) → last_measured i (compacted before c) ≡ none
unfolding last_measured measured compacted
last_measured-compacted before c i = rw (
  last_measured,
  last_measured-without_metrics (drop (length before - kept_of before c) before) (suc i),
)

-- After a compaction the whole request is estimated anew: the system prompt, the tools and every
-- message as it is sent, the summary with them.
pub estimate_context-compacted :
    (marshal : Message → Option String) (base : Context) (before : List Message) (c : Compaction)
    → let next = compacted before c in
      estimate_context (with_messages marshal base next) next
      ≡ sections_tokens base.sections
        + tools_tokens base.tools
        + (with_messages marshal base next).message_tokens
unfolding estimate_context
estimate_context-compacted marshal base before c =
    let k = with_messages-IsPrepared marshal base (compacted before c) in
    rw (estimate_context, last_measured-compacted before c 0, k.others.0, k.others.1.0, k.tokens)
