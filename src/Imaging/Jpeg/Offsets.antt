-- ===== src/Imaging/Jpeg/Offsets.antt =====
-- internal/imaging/jpeg.go: reading a list of bytes at an offset, and the markers found there.
use eika.Common.{
  ℕ, zero, suc, ◌+◌, ◌-◌, ◌≤◌, ◌<◌, ◌≡◌, refl, sym, ap, ◌∙◌, subst, Bool, true, false, ◌||◌, not,
  List, [], ◌∷◌, ◌++◌, length, take, drop, length-take, length-drop, arith, ltb, if◌then◌else◌,
  Result, err, ok, inl, inr, Bool-cases, ltb→lt,
}
use eika.Imaging.Jpeg.{
  Failure, malformed_jpeg, byte, slice, is_fill, skip_fill, next_marker, big_endian, segment_end,
}

pub byte-append :
    (front back : List ℕ) (k : ℕ) → byte (front ++ back) (length front + k) ≡ byte back k
byte-append [] back k = let e : 0 + k ≡ k = omega arith in ap (byte back) e
byte-append (b ∷ front) back k =
    let e : suc (length front) + k ≡ suc (length front + k) = omega arith in
    ap (byte (b ∷ front ++ back)) e ∙ byte-append front back k

pub drop-append : (front back : List ℕ) → drop (length front) (front ++ back) ≡ back
drop-append [] back = refl
drop-append (b ∷ front) back = drop-append front back

pub byte-drop : (n : ℕ) (bytes : List ℕ) (k : ℕ) → byte (drop n bytes) k ≡ byte bytes (n + k)
byte-drop zero bytes k = let e : k ≡ 0 + k = omega arith in ap (byte bytes) e
byte-drop (suc n) [] k = refl
byte-drop (suc n) (b ∷ bytes) k =
    let e : suc (n + k) ≡ suc n + k = omega arith in byte-drop n bytes k ∙ ap (byte (b ∷ bytes)) e

pub byte-take : (n : ℕ) (bytes : List ℕ) (k : ℕ) → k < n → byte (take n bytes) k ≡ byte bytes k
byte-take zero bytes k h = elim h [ ]
byte-take (suc n) [] k h = refl
byte-take (suc n) (b ∷ bytes) zero h = refl
byte-take (suc n) (b ∷ bytes) (suc k) h = byte-take n bytes k (omega arith)

pub length-slice :
    (bytes : List ℕ) (from to : ℕ) → to ≤ length bytes → length (slice bytes from to) ≡ to - from
length-slice bytes from to h =
    omega (arith, length-take (to - from) (drop from bytes), length-drop from bytes)

pub byte-slice :
    (bytes : List ℕ) (from to k : ℕ)
    → from + k < to
    → byte (slice bytes from to) k ≡ byte bytes (from + k)
byte-slice bytes from to k h =
    byte-take (to - from) (drop from bytes) k (omega arith) ∙ byte-drop from bytes k

-- The fill bytes at the front of a list.
pub record IsRun (bytes : List ℕ) (i : ℕ) (c : ℕ) : Type 0 where
  pub stop : skip_fill bytes i ≡ i + c
  pub within : c ≤ length bytes
  pub ended : c < length bytes → is_fill (byte bytes c) ≡ false
  pub filled : (k : ℕ) → k < c → is_fill (byte bytes k) ≡ true

pub skip_fill-IsRun : (bytes : List ℕ) (i : ℕ) → (c : ℕ) × IsRun bytes i c
unfolding skip_fill
skip_fill-IsRun [] i = (
  0,
  record {
    stop = omega arith;
    within = omega arith;
    ended = λ h. elim h [ ];
    filled = λ k h. elim h [ ];
  },
)
skip_fill-IsRun (b ∷ bytes) i = at_byte (skip_fill-IsRun bytes (suc i)) (is_fill b) refl
  where
    at_byte :
        (c : ℕ) × IsRun bytes (suc i) c
        → (full : Bool) → is_fill b ≡ full
        → (c : ℕ) × IsRun (b ∷ bytes) i c
    at_byte (c, later) true eq = (
      suc c,
      record {
        stop = ground (arith, later.stop);
        within = omega (arith, later.within);
        ended = λ h. later.ended (omega arith);
        filled = filled c later;
      },
    )
      where
        filled :
            (c : ℕ)
            → IsRun bytes (suc i) c
            → (k : ℕ) → k < suc c
            → is_fill (byte (b ∷ bytes) k) ≡ true
        filled c later zero h = eq
        filled c later (suc k) h = later.filled k (omega arith)
    at_byte (c, later) false eq = (
      0,
      record {
        stop = ground (arith, eq);
        within = omega arith;
        ended = λ h. eq;
        filled = λ k h. elim h [ ];
      },
    )

-- What a marker that was found says: its last 0xff, its byte and where its length or payload begins.
pub record IsMarker (bytes : List ℕ) (i : ℕ) (m : ℕ × (ℕ × ℕ)) : Type 0 where
  pub order : i ≤ m.0
  pub next : m.1.1 ≡ suc (suc m.0)
  pub within : m.1.1 ≤ length bytes
  pub prefix : is_fill (byte bytes m.0) ≡ true
  pub marker : byte bytes (suc m.0) ≡ m.1.0
  pub stops : is_fill m.1.0 ≡ false

run-IsMarker :
    (bytes : List ℕ) (i c : ℕ)
    → IsRun (drop i bytes) i (suc c)
    → suc (i + c) < length bytes
    → IsMarker bytes i (i + c, (byte bytes (suc (i + c)), suc (suc (i + c))))
run-IsMarker bytes i c run h =
    let e : i + suc c ≡ suc (i + c) = omega arith in
    record {
      order = omega arith;
      next = refl;
      within = omega arith;
      prefix = ap is_fill (sym (byte-drop i bytes c)) ∙ run.filled c (omega arith);
      marker = refl;
      stops =
          ap (λ k. is_fill (byte bytes k)) (sym e)
          ∙ ap is_fill (sym (byte-drop i bytes (suc c)))
          ∙ run.ended (omega (arith, length-drop i bytes));
    }

pub next_marker-IsMarker :
    (bytes : List ℕ) (i : ℕ) {m : ℕ × (ℕ × ℕ)} → next_marker bytes i ≡ ok m → IsMarker bytes i m
unfolding next_marker
next_marker-IsMarker bytes i {m = m} done =
    let (c, run) = skip_fill-IsRun (drop i bytes) i in
    found c run (skip_fill (drop i bytes) i) refl (ltb i (length bytes)) (is_fill (byte bytes i))
      refl refl done
  where
    at_stop :
        (c : ℕ)
        → IsRun (drop i bytes) i c
        → i < length bytes
        → is_fill (byte bytes i) ≡ true
        → i + c < length bytes
        → m ≡ (i + c - 1, (byte bytes (i + c), suc (i + c)))
        → IsMarker bytes i m
    at_stop zero run inside starts h same =
        let e : i ≡ i + 0 = omega arith in
        absurd (
          cc (
            starts,
            ap (byte bytes) e,
            byte-drop i bytes 0,
            run.ended (omega (arith, length-drop i bytes)),
          ))
    at_stop (suc c) run inside starts h same =
        let e : i + suc c ≡ suc (i + c) = omega arith in
        let e' : suc (i + c) - 1 ≡ i + c = omega arith in
        let eq : m ≡ (i + c, (byte bytes (suc (i + c)), suc (suc (i + c)))) = cc (same, e, e') in
        subst (IsMarker bytes i) (sym eq) (run-IsMarker bytes i c run (omega arith))

    found :
        (c : ℕ)
        → IsRun (drop i bytes) i c
        → (j : ℕ) → skip_fill (drop i bytes) i ≡ j
        → (inside starts : Bool) → ltb i (length bytes) ≡ inside
        → is_fill (byte bytes i) ≡ starts
        → ◌≡◌ {A = Result Failure (ℕ × (ℕ × ℕ))}
            (if not inside || not starts
              then err malformed_jpeg
              else if ltb j (length bytes)
              then ok (j - 1, (byte bytes j, suc j))
              else err malformed_jpeg)
            (ok m)
        → IsMarker bytes i m
    found c run j eq true true eq_in eq_starts same = elim (Bool-cases (ltb j (length bytes))) [
      | inl less ↦
          let e : j ≡ i + c = sym eq ∙ run.stop in
          at_stop c run (ltb→lt i (length bytes) eq_in) eq_starts
            (subst (λ k. k < length bytes) e (ltb→lt j (length bytes) less))
            (ground (arith, same, e, less))
      | inr more ↦ ground (arith, same, more)
    ]
    found c run j eq true false eq_in eq_starts same = cc same
    found c run j eq false starts eq_in eq_starts same = cc same

-- A marker with no fill before it.
pub next_marker-here :
    (bytes : List ℕ) (i : ℕ)
    → suc (suc i) ≤ length bytes
    → is_fill (byte bytes i) ≡ true
    → is_fill (byte bytes (suc i)) ≡ false
    → next_marker bytes i ≡ ok (i, (byte bytes (suc i), suc (suc i)))
unfolding next_marker
next_marker-here bytes i inside starts stops =
    let (c, run) = skip_fill-IsRun (drop i bytes) i in
    let one : c ≡ 1 = one_byte c run in
    let e : skip_fill (drop i bytes) i ≡ suc i = ground (arith, run.stop, one) in
    rw (starts, e) (ground arith)
  where
    one_byte : (c : ℕ) → IsRun (drop i bytes) i c → c ≡ 1
    one_byte zero run =
        let e : i ≡ i + 0 = omega arith in
        absurd (
          cc (
            starts,
            ap (byte bytes) e,
            byte-drop i bytes 0,
            run.ended (omega (arith, length-drop i bytes)),
          ))
    one_byte (suc zero) run = refl
    one_byte (suc (suc c)) run =
        let e : suc i ≡ i + 1 = omega arith in
        absurd (cc (stops, ap (byte bytes) e, byte-drop i bytes 1, run.filled 1 (omega arith)))

pub segment_end-ok :
    (bytes : List ℕ) (i : ℕ) {end : ℕ}
    → segment_end bytes i ≡ ok end
    → (2 ≤ big_endian bytes i) × ((end ≡ i + big_endian bytes i) × (end ≤ length bytes))
unfolding segment_end
segment_end-ok bytes i {end = end} done = ends (big_endian bytes i) done
  where
    ends :
        (n : ℕ)
        → ◌≡◌ {A = Result Failure ℕ}
            (if ltb (length bytes) (i + 2)
              then err malformed_jpeg
              else if ltb n 2 || ltb (length bytes) (i + n)
              then err malformed_jpeg
              else ok (i + n))
            (ok end)
        → (2 ≤ n) × ((end ≡ i + n) × (end ≤ length bytes))
    ends n same = ground arith
