-- ===== src/Tool/Output/Streamed.antt =====
-- internal/tool/builtin/limits.go, `forward`: what a client sees of a command's output while it runs.
use eika.Common.{
  take_all, ℕ, suc, ◌+◌, ◌-◌, ◌≤◌, ◌<◌, Bool, true, false, not, ◌||◌, List, [], ◌∷◌, ◌++◌, length,
  take, ltb, leb, if◌then◌else◌, append-nil, append_assoc, length-append, arith, ◌≡◌, refl, sym, ap,
  ap₂, ◌∙◌, subst, leb→le, not_leb→lt, ltb→lt, not_ltb→le, concat_all, le→leb,
}
use eika.Tool.Output.{
  Output, Sent, chunk, notice, max_output_bytes, forward, write, write_all, new_output,
}
use eika.Tool.Output.Ends.{take-append}

abbrev pub bytes_sent : List Sent → List ℕ
bytes_sent [] = []
bytes_sent (chunk p ∷ ss) = p ++ bytes_sent ss
bytes_sent (notice ∷ ss) = bytes_sent ss

abbrev pub notices : List Sent → ℕ
notices [] = 0
notices (chunk p ∷ ss) = notices ss
notices (notice ∷ ss) = suc (notices ss)

bytes_sent-append : (ss ts : List Sent) → bytes_sent (ss ++ ts) ≡ bytes_sent ss ++ bytes_sent ts
bytes_sent-append [] ts = refl
bytes_sent-append (chunk p ∷ ss) ts =
    ap (λ l. p ++ l) (bytes_sent-append ss ts)
    ∙ sym (append_assoc p (bytes_sent ss) (bytes_sent ts))
bytes_sent-append (notice ∷ ss) ts = bytes_sent-append ss ts

notices-append : (ss ts : List Sent) → notices (ss ++ ts) ≡ notices ss + notices ts
notices-append [] ts = omega arith
notices-append (chunk p ∷ ss) ts = notices-append ss ts
notices-append (notice ∷ ss) ts = omega (arith, notices-append ss ts)

-- The stream of all that was written, with the bound `m`.
data IsStreamed (m : ℕ) (sent : List Sent) (streamed : ℕ) (w : List ℕ) : Type 0 where
  going :
      bytes_sent sent ≡ w
      → notices sent ≡ 0
      → streamed ≡ length w
      → streamed ≤ m
      → IsStreamed m sent streamed w
  stopped :
      bytes_sent sent ≡ take m w
      → notices sent ≡ 1
      → m < streamed
      → m < length w
      → IsStreamed m sent streamed w

module _ (m : ℕ) (sent : List Sent) (streamed : ℕ) (w p : List ℕ) where
  -- A chunk that fits.
  fits :
      bytes_sent sent ≡ w
      → notices sent ≡ 0
      → streamed ≡ length w
      → streamed ≤ m
      → length p ≤ m - streamed
      → IsStreamed m (sent ++ chunk p ∷ []) (streamed + length p) (w ++ p)
  fits b n s l f =
      going (bytes_sent-append sent (chunk p ∷ []) ∙ ap₂ (λ x y. x ++ y) b (append-nil p))
        (notices-append sent (chunk p ∷ []) ∙ omega (arith, n))
        (omega (arith, s, length-append w p)) (omega arith)

  -- What is sent of a chunk that does not fit.
  cut_bytes :
      (t : Bool)
      → ltb 0 (m - streamed) ≡ t
      → bytes_sent (if t then chunk (take (m - streamed) p) ∷ notice ∷ [] else notice ∷ [])
        ≡ take (m - streamed) p
  cut_bytes true e = append-nil (take (m - streamed) p)
  cut_bytes false e = let k : 0 ≡ m - streamed = ground arith in ap (λ i. take i p) k

  cut_notices :
      (t : Bool)
      → notices (if t then chunk (take (m - streamed) p) ∷ notice ∷ [] else notice ∷ []) ≡ 1
  cut_notices true = refl
  cut_notices false = refl

  does_not_fit :
      bytes_sent sent ≡ w
      → notices sent ≡ 0
      → streamed ≡ length w
      → streamed ≤ m
      → m - streamed < length p
      → IsStreamed m
          (sent
            ++ (if ltb 0 (m - streamed)
                then chunk (take (m - streamed) p) ∷ notice ∷ []
                else notice ∷ []))
          (m + 1)
          (w ++ p)
  does_not_fit b n s l f =
      let more =
        if ltb 0 (m - streamed) then chunk (take (m - streamed) p) ∷ notice ∷ [] else notice ∷ [] in
      stopped
        (bytes_sent-append sent more
          ∙ ap₂ (λ x y. x ++ y) (b ∙ sym (take_all m w (omega (arith, s))))
              (cut_bytes (ltb 0 (m - streamed)) refl)
          ∙ sym (take-append m (m - streamed) w p (omega (arith, s))))
        (notices-append sent more ∙ ap₂ (λ x y. x + y) n (cut_notices (ltb 0 (m - streamed))))
        (omega arith) (omega (arith, s, length-append w p))

  -- Nothing more is sent.
  after_cut :
      bytes_sent sent ≡ take m w
      → notices sent ≡ 1
      → m < streamed
      → m < length w
      → IsStreamed m sent streamed (w ++ p)
  after_cut b n s l =
      stopped (b ∙ sym (take-append m 0 w p (omega arith) ∙ append-nil (take m w))) n s
        (omega (arith, length-append w p))

lt→not_leb : (a b : ℕ) → a < b → leb b a ≡ false
lt→not_leb a b h = ground arith

abbrev IsStreaming : Output → List ℕ → Type 0
IsStreaming o w = IsStreamed max_output_bytes o.sent o.streamed w

not_both : {m n : ℕ} → m < n → n ≤ m → ⊥
not_both h k = omega arith

forward-IsStreaming :
    (o : Output) (w p : List ℕ)
    → o.has_stream ≡ true
    → IsStreaming o w
    → IsStreaming (forward o p) (w ++ p) × ((forward o p).has_stream ≡ true)
unfolding forward
forward-IsStreaming o w p h k =
    step (not o.has_stream || ltb max_output_bytes o.streamed) (leb (length p) room)
      (sym (ap (λ b. not b || ltb max_output_bytes o.streamed) h)) refl k
  where
    room : ℕ
    room = max_output_bytes - o.streamed

    IsGood : Output → Type 0
    IsGood o' = IsStreaming o' (w ++ p) × (o'.has_stream ≡ true)

    step :
        (a b : Bool)
        → ltb max_output_bytes o.streamed ≡ a
        → leb (length p) room ≡ b
        → IsStreaming o w
        → IsGood (
            if a
            then o
            else if b
            then record o { streamed = o.streamed + length p; sent = o.sent ++ chunk p ∷ [] }
            else record o {
              streamed = max_output_bytes + 1;
              sent =
                  o.sent ++ (if ltb 0 room then chunk (take room p) ∷ notice ∷ [] else notice ∷ []);
            })
    step true b e f (going y n s l) = absurd (not_both (ltb→lt max_output_bytes o.streamed e) l)
    step true b e f (stopped y n s l) =
        (after_cut max_output_bytes o.sent o.streamed w p y n s l, h)
    step false true e f (going y n s l) =
        (fits max_output_bytes o.sent o.streamed w p y n s l (leb→le (length p) room f), h)
    step false false e f (going y n s l) = (
      does_not_fit max_output_bytes o.sent o.streamed w p y n s l (not_leb→lt (length p) room f),
      h,
    )
    step false b e f (stopped y n s l) =
        absurd (not_both s (not_ltb→le max_output_bytes o.streamed e))

write-IsStreaming :
    (o : Output) (w p : List ℕ)
    → o.has_stream ≡ true
    → IsStreaming o w
    → IsStreaming (write o p) (w ++ p) × ((write o p).has_stream ≡ true)
unfolding write
write-IsStreaming o w p h k = forward-IsStreaming (record o { total = o.total + length p }) w p h k

write_all-IsStreaming :
    (o : Output) (w : List ℕ) (ps : List (List ℕ))
    → o.has_stream ≡ true
    → IsStreaming o w
    → IsStreaming (write_all o ps) (w ++ concat_all ps)
write_all-IsStreaming o w [] h k = subst (IsStreaming o) (sym (append-nil w)) k
write_all-IsStreaming o w (p ∷ ps) h k =
    let q = write-IsStreaming o w p h k in
    subst (IsStreaming (write_all (write o p) ps)) (append_assoc w p (concat_all ps))
      (write_all-IsStreaming (write o p) (w ++ p) ps q.1 q.0)

-- The notices that a client sees of so many bytes.
abbrev pub notices_for : ℕ → ℕ
notices_for written = if leb written max_output_bytes then 0 else 1

streaming_end :
    (m : ℕ) (sent : List Sent) (streamed : ℕ) (w : List ℕ)
    → IsStreamed m sent streamed w
    → (bytes_sent sent ≡ take m w) × (notices sent ≡ (if leb (length w) m then 0 else 1))
streaming_end m sent streamed w (going b n s l) = (
  b ∙ sym (take_all m w (omega (arith, s))),
  n ∙ ap (λ t. if t then 0 else 1) (sym (le→leb (length w) m (omega (arith, s)))),
)
streaming_end m sent streamed w (stopped b n s l) =
    (b, n ∙ ap (λ t. if t then 0 else 1) (sym (lt→not_leb m (length w) l)))

-- However a command's output is cut into writes, a client that it is streamed to sees its first bytes,
-- as many as the bound allows, and sees once that there is more exactly when there is.
pub bytes_sent-write_all :
    (ps : List (List ℕ))
    → let o = write_all (new_output true) ps in
      (bytes_sent o.sent ≡ take max_output_bytes (concat_all ps))
      × (notices o.sent ≡ notices_for (length (concat_all ps)))
bytes_sent-write_all ps =
    let o = write_all (new_output true) ps in
    streaming_end max_output_bytes o.sent o.streamed (concat_all ps)
      (write_all-IsStreaming (new_output true) [] ps refl (going refl refl refl (omega arith)))
