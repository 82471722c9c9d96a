-- ===== src/Tool/Output/Captured.antt =====
-- internal/tool/builtin/limits.go: what the two ends of an output hold, next to everything that was
-- written.
use eika.Common.{
  leb, leb→le, not_leb→lt, ℕ, ◌+◌, ◌-◌, ◌≤◌, ◌<◌, min, Bool, true, false, List, [], ◌∷◌, ◌++◌,
  length, take, drop, ltb, ◌==◌, ◌||◌, if◌then◌else◌, append-nil, append_assoc, length-append,
  length-take, length-drop, arith, ◌≡◌, refl, sym, ap, ap₂, subst, ◌∙◌, take-append-drop,
  concat_all,
}
use eika.Tool.Output.{
  head_take, show_output, Output, max_output_bytes, output_head_bytes, output_tail_bytes,
  last_bytes, add_tail, forward, write, write_all, Shown, whole, truncated, string, new_output,
}
use eika.Tool.Output.Ends.{
  drop-append, take-append, drop-drop, last_bytes-drop, add_tail-last_bytes, take-length,
}

-- What an output has captured of all that was written.
pub record IsCaptured (o : Output) (written : List ℕ) : Type 0 where
  pub head : o.head ≡ take output_head_bytes written
  pub tail : o.tail ≡ last_bytes output_tail_bytes (drop output_head_bytes written)
  pub total : o.total ≡ length written

forward-total : (o : Output) (p : List ℕ) → (forward o p).total ≡ o.total
unfolding forward
forward-total o p = ground arith

head_take_lem :
    (h head written p : ℕ)
    → head ≡ min h written
    → (if ltb 0 (h - head) then min (h - head) p else 0) ≡ min (h - written) p
head_take_lem h head written p e = ground arith

write-IsCaptured :
    (o : Output) (written p : List ℕ) → IsCaptured o written → IsCaptured (write o p) (written ++ p)
unfolding write
write-IsCaptured o written p k =
    let room = output_head_bytes - length written in
    let l : length o.head ≡ min output_head_bytes (length written) =
      ap length k.head ∙ length-take output_head_bytes written in
    let r =
      take-length (head_take o.head p) room p
        (head_take_lem output_head_bytes (length o.head) (length written) (length p) l) in
    record {
      head =
          ap₂ (λ a b. a ++ b) k.head r.0 ∙ sym (take-append output_head_bytes room written p refl);
      tail =
          ap₂ add_tail k.tail r.1
          ∙ add_tail-last_bytes (drop output_head_bytes written) (drop room p)
          ∙ ap (last_bytes output_tail_bytes)
              (sym (drop-append output_head_bytes room written p refl));
      total =
          forward-total (record o { total = o.total + length p }) p
          ∙ omega (arith, k.total, length-append written p);
    }

write_all-IsCaptured :
    (o : Output) (written : List ℕ) (ps : List (List ℕ))
    → IsCaptured o written
    → IsCaptured (write_all o ps) (written ++ concat_all ps)
write_all-IsCaptured o written [] k = subst (IsCaptured o) (sym (append-nil written)) k
write_all-IsCaptured o written (p ∷ ps) k =
    subst (IsCaptured (write_all (write o p) ps)) (append_assoc written p (concat_all ps))
      (write_all-IsCaptured (write o p) (written ++ p) ps (write-IsCaptured o written p k))

-- What `String` is to show of everything that was written.
abbrev pub shown : List ℕ → Shown
shown w =
    if leb (length w) max_output_bytes
    then whole w
    else truncated (take output_head_bytes w) (length w - max_output_bytes)
        (last_bytes output_tail_bytes w)

-- The two ends of `w`, of at most `h` and `t` bytes.
module _ (h t : ℕ) (w : List ℕ) where
  ends_whole : length w ≤ h + t → last_bytes t (drop h w) ≡ drop h w
  ends_whole l =
      let e : 0 ≡ length (drop h w) - t = omega (arith, length-drop h w) in
      last_bytes-drop t (drop h w) ∙ sym (ap (λ i. drop i (drop h w)) e)

  ends_last : h + t < length w → last_bytes t (drop h w) ≡ last_bytes t w
  ends_last l =
      last_bytes-drop t (drop h w)
      ∙ drop-drop (length (drop h w) - t) h (length w - t) w (omega (arith, length-drop h w))
      ∙ sym (last_bytes-drop t w)

  test_whole :
      (head tail total : ℕ)
      → head + tail ≡ total
      → ((tail == 0) || (total - (head + tail) == 0)) ≡ true
  test_whole head tail total e = ground arith

  test_truncated :
      (head tail total : ℕ)
      → 0 < tail
      → head + tail < total
      → ((tail == 0) || (total - (head + tail) == 0)) ≡ false
  test_truncated head tail total l e = ground arith

  show_whole : length w ≤ h + t → show_output (take h w) (drop h w) (length w) ≡ whole w
  show_whole l =
      ap
        (λ b.
          if b
          then whole (take h w ++ drop h w)
          else truncated (take h w) (length w - (length (take h w) + length (drop h w))) (drop h w))
        (test_whole (length (take h w)) (length (drop h w)) (length w)
          (omega (arith, length-take h w, length-drop h w)))
      ∙ ap whole (take-append-drop h w)

  show_truncated :
      0 < t
      → h + t < length w
      → show_output (take h w) (last_bytes t w) (length w)
        ≡ truncated (take h w) (length w - (h + t)) (last_bytes t w)
  show_truncated z l =
      let n : length (last_bytes t w) ≡ t =
        ap length (last_bytes-drop t w) ∙ length-drop (length w - t) w ∙ omega arith in
      let m : length (take h w) ≡ h = length-take h w ∙ omega arith in
      ap
        (λ b.
          if b
          then whole (take h w ++ last_bytes t w)
          else truncated (take h w) (length w - (length (take h w) + length (last_bytes t w)))
              (last_bytes t w))
        (test_truncated (length (take h w)) (length (last_bytes t w)) (length w) (omega (arith, n))
          (omega (arith, n, m)))
      ∙ ap (λ i. truncated (take h w) i (last_bytes t w)) (omega (arith, n, m))

captured-shown : (o : Output) (w : List ℕ) → IsCaptured o w → string o ≡ shown w
unfolding string
captured-shown o w k = step (leb (length w) max_output_bytes) refl
  where
    h : ℕ
    h = output_head_bytes

    t : ℕ
    t = output_tail_bytes

    ends :
        show_output o.head o.tail o.total
        ≡ show_output (take h w) (last_bytes t (drop h w)) (length w)
    ends i = show_output (k.head i) (k.tail i) (k.total i)

    step :
        (b : Bool)
        → leb (length w) max_output_bytes ≡ b
        → show_output o.head o.tail o.total ≡ (
            if b
            then whole w
            else truncated (take h w) (length w - max_output_bytes) (last_bytes t w))
    step true e =
        let l = leb→le (length w) max_output_bytes e in
        ends
        ∙ ap (λ x. show_output (take h w) x (length w)) (ends_whole h t w l)
        ∙ show_whole h t w l
    step false e =
        let l = not_leb→lt (length w) max_output_bytes e in
        ends
        ∙ ap (λ x. show_output (take h w) x (length w)) (ends_last h t w l)
        ∙ show_truncated h t w (omega arith) l

-- However a command's output is cut into writes, `String` shows all of it while it is within the
-- bound, and otherwise its first bytes, its last bytes, and the number of bytes left out between.
pub string-shown :
    (has_stream : Bool) (ps : List (List ℕ))
    → string (write_all (new_output has_stream) ps) ≡ shown (concat_all ps)
string-shown has_stream ps = captured-shown (write_all (new_output has_stream) ps) (concat_all ps) (
    write_all-IsCaptured (new_output has_stream) [] ps
      (record { head = refl; tail = refl; total = refl }))
