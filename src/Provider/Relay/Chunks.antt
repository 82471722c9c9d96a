-- ===== src/Provider/Relay/Chunks.antt =====
-- internal/provider/openai/openai.go: what is sent for the chunks of a stream.
use text.Mathlib.TextLemmas.{append-nil as str_append-nil}
use mathlib.Core.List.{foldl-append}
use eika.Common.{
  ℕ, Bool, true, false, List, [], ◌∷◌, ◌++◌, map, foldl, Option, String, if◌then◌else◌, concat_all,
  ◌≡◌, refl, sym, ap, ◌∙◌, subst, append_assoc,
}
use eika.Provider.{Usage}
use eika.Provider.ToolCalls.{Fragment, add}
use eika.Provider.ToolCalls.Assembled.{last_filled, or_before, or_before_twice, or_before_empty}
use eika.Agent.Stream.{StreamEvent, is_zero}
use eika.Provider.Relay.{
  Choice, Chunk, Relaying, send_usage, take_choice, take_usage, relay_chunk, finish_relay,
  relay_from, choice_events,
}
use eika.Provider.Relay.Carried.{
  Carries, Carries-nil, Carries-append, Carries-cast, contents, thoughts, choices-Carries,
  send_usage-Carries, contents-append, thoughts-append,
}

-- What the chunks hold: the fragments of tool calls, the reasons to finish, the text, the reasoning, and
-- the last usage that is not zero.
abbrev pub fragments_in : List Choice → List Fragment
fragments_in [] = []
fragments_in (c ∷ cs) = c.fragments ++ fragments_in cs

abbrev pub reasons_in : List Choice → List String
reasons_in [] = []
reasons_in (c ∷ cs) = c.finish_reason ∷ reasons_in cs

abbrev pub choices_in : List Chunk → List Choice
choices_in [] = []
choices_in (k ∷ ks) = k.choices ++ choices_in ks

abbrev pub usage_in : Usage → List Chunk → Usage
usage_in u [] = u
usage_in u (k ∷ ks) = usage_in (if is_zero k.used then u else k.used) ks

-- What taking choices changes.
pub record IsTaken (r r' : Relaying) (cs : List Choice) : Type 0 where
  pub acc : r'.acc ≡ foldl add r.acc (fragments_in cs)
  pub stop : r'.stop ≡ or_before r.stop (last_filled (reasons_in cs))

choices-IsTaken :
    (r : Relaying) (cs : List Choice)
    → IsTaken r (foldl take_choice r cs) cs
      × ((foldl take_choice r cs).used ≡ r.used)
      × ((foldl take_choice r cs).reported ≡ r.reported)
choices-IsTaken r [] = (record { acc = refl; stop = refl }, refl, refl)
choices-IsTaken r (c ∷ cs) =
    let (taken, used, reported) = choices-IsTaken (take_choice r c) cs in
    (
      record {
        acc = taken.acc ∙ sym (foldl-append add r.acc c.fragments (fragments_in cs));
        stop = taken.stop ∙ or_before_twice r.stop c.finish_reason (last_filled (reasons_in cs));
      },
      used,
      reported,
    )

fragments_in-append :
    (cs cs' : List Choice) → fragments_in (cs ++ cs') ≡ fragments_in cs ++ fragments_in cs'
fragments_in-append [] cs' = refl
fragments_in-append (c ∷ cs) cs' =
    ap (λ l. c.fragments ++ l) (fragments_in-append cs cs')
    ∙ sym (append_assoc c.fragments (fragments_in cs) (fragments_in cs'))

last_reason-append :
    (cs cs' : List Choice)
    → last_filled (reasons_in (cs ++ cs'))
      ≡ or_before (last_filled (reasons_in cs)) (last_filled (reasons_in cs'))
last_reason-append [] cs' = sym (or_before_empty (last_filled (reasons_in cs')))
last_reason-append (c ∷ cs) cs' =
    ap (or_before c.finish_reason) (last_reason-append cs cs')
    ∙ sym (
        or_before_twice c.finish_reason (last_filled (reasons_in cs))
          (last_filled (reasons_in cs')))

IsTaken-append :
    (r r' r'' : Relaying) (cs cs' : List Choice)
    → IsTaken r r' cs
    → IsTaken r' r'' cs'
    → IsTaken r r'' (cs ++ cs')
IsTaken-append r r' r'' cs cs' a b = record {
  acc =
      b.acc
      ∙ ap (λ l. foldl add l (fragments_in cs')) a.acc
      ∙ sym (foldl-append add r.acc (fragments_in cs) (fragments_in cs'))
      ∙ ap (foldl add r.acc) (sym (fragments_in-append cs cs'));
  stop =
      b.stop
      ∙ ap (λ t. or_before t (last_filled (reasons_in cs'))) a.stop
      ∙ or_before_twice r.stop (last_filled (reasons_in cs)) (last_filled (reasons_in cs'))
      ∙ ap (or_before r.stop) (sym (last_reason-append cs cs'));
}

module _ (text : List ℕ → String) where
  -- A chunk leaves its usage reported.
  relayed_chunk :
      (r : Relaying) (k : Chunk)
      → r.reported ≡ r.used
      → IsTaken r (relay_chunk text r k).0 k.choices
        × ((relay_chunk text r k).0.used ≡ (if is_zero k.used then r.used else k.used))
        × ((relay_chunk text r k).0.reported ≡ (relay_chunk text r k).0.used)
        × Carries
            (relay_chunk text r k).1
            (contents k.choices)
            (thoughts k.choices)
            []
            r.used
            (relay_chunk text r k).0.used
  unfolding relay_chunk
  relayed_chunk r k settled =
      let m = foldl take_choice (take_usage r k.used) k.choices in
      let (taken, used, reported) = choices-IsTaken (take_usage r k.used) k.choices in
      let (carried, same) =
        send_usage-Carries m (known (is_zero k.used) refl used (reported ∙ settled)) in
      let all =
        Carries-append (concat_all (map (choice_events text) k.choices)) (send_usage m).1
          (contents k.choices) "" (thoughts k.choices) "" [] [] m.reported m.reported m.used
          (choices-Carries text k.choices m.reported) carried in
      (
        record {
          acc = ap (λ x. x.acc) same ∙ taken.acc;
          stop = ap (λ x. x.stop) same ∙ taken.stop;
        },
        ap (λ x. x.used) same ∙ used,
        ap (λ x. x.reported) same ∙ sym (ap (λ x. x.used) same),
        subst
            (λ u.
              Carries (concat_all (map (choice_events text) k.choices) ++ (send_usage m).1)
                (contents k.choices) (thoughts k.choices) [] u (send_usage m).0.used)
            (reported ∙ settled)
            (Carries-cast (str_append-nil (contents k.choices))
              (str_append-nil (thoughts k.choices)) (sym (ap (λ x. x.used) same)) all),
      )
    where
      known :
          (b : Bool)
          → is_zero k.used ≡ b
          → {u v : Usage} → u ≡ (if b then r.used else k.used)
          → v ≡ r.used
          → is_zero u ≡ true
          → v ≡ u
      known true e f g h = g ∙ sym f
      known false e f g h = cc (e, ap is_zero f, h)

  -- What is sent for chunks, and what is left when they are done.
  pub record IsRelayed (r : Relaying) (ks : List Chunk) (failed : Option String) : Type 0 where
    pub fin : Relaying
    pub out : List StreamEvent
    pub sent : relay_from text r ks failed ≡ out ++ finish_relay text fin failed
    pub taken : IsTaken r fin (choices_in ks)
    pub settled : fin.reported ≡ fin.used
    pub used : fin.used ≡ usage_in r.used ks
    pub carried :
        Carries out (contents (choices_in ks)) (thoughts (choices_in ks)) [] r.used fin.used

  pub chunks-IsRelayed :
      (r : Relaying) (ks : List Chunk) (failed : Option String)
      → r.reported ≡ r.used
      → IsRelayed r ks failed
  unfolding relay_from
  chunks-IsRelayed r [] failed settled = record {
    fin = r;
    out = [];
    sent = refl;
    taken = record { acc = refl; stop = refl };
    settled = settled;
    used = refl;
    carried = Carries-nil r.used;
  }
  chunks-IsRelayed r (k ∷ ks) failed settled =
      let r' = (relay_chunk text r k).0 in
      let (taken, used, reported, carried) = relayed_chunk r k settled in
      let later = chunks-IsRelayed r' ks failed reported in
      let all =
        Carries-append (relay_chunk text r k).1 later.out (contents k.choices)
          (contents (choices_in ks)) (thoughts k.choices) (thoughts (choices_in ks)) [] [] r.used
          r'.used later.fin.used carried later.carried in
      record {
        fin = later.fin;
        out = (relay_chunk text r k).1 ++ later.out;
        sent =
            ap (λ l. (relay_chunk text r k).1 ++ l) later.sent
            ∙ sym (
                append_assoc (relay_chunk text r k).1 later.out
                  (finish_relay text later.fin failed));
        taken = IsTaken-append r r' later.fin k.choices (choices_in ks) taken later.taken;
        settled = later.settled;
        used = later.used ∙ ap (λ u. usage_in u ks) used;
        carried =
            Carries-cast (sym (contents-append k.choices (choices_in ks)))
              (sym (thoughts-append k.choices (choices_in ks))) refl all;
      }
