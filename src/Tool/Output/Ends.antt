-- ===== src/Tool/Output/Ends.antt =====
-- internal/tool/builtin/limits.go: the first and the last bytes of a list of bytes.
use eika.Common.{
  ℕ, zero, suc, ◌+◌, ◌-◌, min, Bool, true, false, List, [], ◌∷◌, ◌++◌, length, take, drop, ltb,
  if◌then◌else◌, append-nil, length-append, length-drop, arith, ◌≡◌, refl, sym, ap, ◌∙◌,
}
use eika.Tool.Output.{output_tail_bytes, last_bytes, add_tail}

module _ {A : Type 0} where
  pub take-append :
      (n k : ℕ) (xs ys : List A) → k ≡ n - length xs → take n (xs ++ ys) ≡ take n xs ++ take k ys
  take-append zero k [] ys h = let e : 0 ≡ k = omega arith in ap (λ i. take i ys) e
  take-append zero k (x ∷ xs) ys h = let e : 0 ≡ k = omega arith in ap (λ i. take i ys) e
  take-append (suc n) k [] ys h = let e : suc n ≡ k = omega arith in ap (λ i. take i ys) e
  take-append (suc n) k (x ∷ xs) ys h = ap (λ l. x ∷ l) (take-append n k xs ys (omega arith))

  pub drop-append :
      (n k : ℕ) (xs ys : List A) → k ≡ n - length xs → drop n (xs ++ ys) ≡ drop n xs ++ drop k ys
  drop-append zero k [] ys h = let e : 0 ≡ k = omega arith in ap (λ i. drop i ys) e
  drop-append zero k (x ∷ xs) ys h =
      let e : 0 ≡ k = omega arith in ap (λ i. x ∷ (xs ++ drop i ys)) e
  drop-append (suc n) k [] ys h = let e : suc n ≡ k = omega arith in ap (λ i. drop i ys) e
  drop-append (suc n) k (x ∷ xs) ys h = drop-append n k xs ys (omega arith)

  pub drop-drop : (a b c : ℕ) (xs : List A) → c ≡ b + a → drop a (drop b xs) ≡ drop c xs
  drop-drop a zero c xs h = let e : a ≡ c = omega arith in ap (λ i. drop i xs) e
  drop-drop zero (suc b) zero [] h = refl
  drop-drop zero (suc b) (suc c) [] h = refl
  drop-drop (suc a) (suc b) zero [] h = refl
  drop-drop (suc a) (suc b) (suc c) [] h = refl
  drop-drop a (suc b) zero (x ∷ xs) h = ground arith
  drop-drop a (suc b) (suc c) (x ∷ xs) h = drop-drop a b c xs (omega arith)

-- The last bytes are what is left behind the first.
pub last_bytes-drop : (n : ℕ) (xs : List ℕ) → last_bytes n xs ≡ drop (length xs - n) xs
last_bytes-drop n xs = step (ltb n (length xs)) refl
  where
    step :
        (b : Bool)
        → ltb n (length xs) ≡ b
        → (if b then drop (length xs - n) xs else xs) ≡ drop (length xs - n) xs
    step true e = refl
    step false e = let k : 0 ≡ length xs - n = ground arith in ap (λ i. drop i xs) k

-- The last bytes of more only depend on the last bytes of what came before.
last_bytes-append :
    (n : ℕ) (xs ys : List ℕ) → last_bytes n (last_bytes n xs ++ ys) ≡ last_bytes n (xs ++ ys)
last_bytes-append n xs ys =
    let k = length xs - n in
    let d : drop k xs ++ ys ≡ drop k (xs ++ ys) = sym (drop-append k 0 xs ys (omega arith)) in
    let e : last_bytes n xs ++ ys ≡ drop k (xs ++ ys) =
      ap (λ l. l ++ ys) (last_bytes-drop n xs) ∙ d in
    ap (last_bytes n) e
    ∙ last_bytes-drop n (drop k (xs ++ ys))
    ∙ drop-drop (length (drop k (xs ++ ys)) - n) k (length (xs ++ ys) - n) (xs ++ ys)
        (omega (arith, length-drop k (xs ++ ys), length-append xs ys))
    ∙ sym (last_bytes-drop n (xs ++ ys))

add_tail-append :
    (tail p : List ℕ)
    → last_bytes output_tail_bytes tail ≡ tail
    → add_tail tail p ≡ last_bytes output_tail_bytes (tail ++ p)
add_tail-append tail [] h = sym h ∙ ap (last_bytes output_tail_bytes) (sym (append-nil tail))
add_tail-append tail (x ∷ p) h =
    let e : ltb 0 (suc (length p)) ≡ true = ground arith in
    ap (λ b. if b then last_bytes output_tail_bytes (tail ++ x ∷ p) else tail) e

last_bytes_twice : (n : ℕ) (xs : List ℕ) → last_bytes n (last_bytes n xs) ≡ last_bytes n xs
last_bytes_twice n xs =
    ap (last_bytes n) (sym (append-nil (last_bytes n xs)))
    ∙ last_bytes-append n xs []
    ∙ ap (last_bytes n) (append-nil xs)

pub add_tail-last_bytes :
    (w p : List ℕ)
    → add_tail (last_bytes output_tail_bytes w) p ≡ last_bytes output_tail_bytes (w ++ p)
add_tail-last_bytes w p =
    add_tail-append (last_bytes output_tail_bytes w) p (last_bytes_twice output_tail_bytes w)
    ∙ last_bytes-append output_tail_bytes w p

take-nil : (n : ℕ) → take {A = ℕ} n [] ≡ []
take-nil zero = refl
take-nil (suc n) = refl

drop-nil : (n : ℕ) → drop {A = ℕ} n [] ≡ []
drop-nil zero = refl
drop-nil (suc n) = refl

pub take-length :
    (n k : ℕ) (xs : List ℕ)
    → n ≡ min k (length xs)
    → (take n xs ≡ take k xs) × (drop n xs ≡ drop k xs)
take-length n k [] h = (take-nil n ∙ sym (take-nil k), drop-nil n ∙ sym (drop-nil k))
take-length zero zero (x ∷ xs) h = (refl, refl)
take-length zero (suc k) (x ∷ xs) h = absurd (ground arith)
take-length (suc n) zero (x ∷ xs) h = absurd (ground arith)
take-length (suc n) (suc k) (x ∷ xs) h =
    let r = take-length n k xs (omega arith) in (ap (λ l. x ∷ l) r.0, r.1)
