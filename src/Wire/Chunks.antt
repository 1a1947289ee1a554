-- ===== src/Wire/Chunks.antt =====
-- `recv_exact` over any chunking of the bytes.
use apc_modbus_snmp_ha.Prelude.{
  ℕ, zero, suc, ◌+◌, ◌-◌, ◌≤◌, ◌<◌, ◌≡◌, refl, sym, ap, ◌∙◌, inl, inr, List, [], ◌∷◌, ◌++◌, take,
  drop, length, length-append, append-nil, append_assoc, arith, leb, true, false, Bool-cases,
}
use apc_modbus_snmp_ha.Wire.{
  Arrival, segment, fault, WireError, os_error, short_response, Result, ok, err, put_back, recv,
  recv_loop, recv_exact,
}

-- The bytes that arrive before the first fault or the end, and what the reader sees there.
abbrev pub stream : List Arrival → List ℕ
stream [] = []
stream (fault ∷ rest) = []
stream (segment b bs ∷ rest) = (b ∷ bs) ++ stream rest

abbrev pub ending : List Arrival → WireError
ending [] = short_response
ending (fault ∷ rest) = os_error
ending (segment b bs ∷ rest) = ending rest

sub-zero : (n : ℕ) → n ≡ n - 0
sub-zero n = omega arith

sub-suc : (m n : ℕ) → m - n ≡ suc m - suc n
sub-suc m n = omega arith

module _ {ℓ} {A : Type ℓ} where
  -- the first `n` items of `xs ++ ys`, in two steps: first those that `xs` has
  take_twice :
      (n : ℕ) (xs ys : List A)
      → take n (xs ++ ys) ≡ take n xs ++ take (n - length (take n xs)) (drop n xs ++ ys)
  take_twice zero xs ys = refl
  take_twice (suc n) [] ys = ap (λ k. take k ys) (sub-zero (suc n))
  take_twice (suc n) (x ∷ xs) ys =
      ap (λ t. x ∷ t)
        (take_twice n xs ys
          ∙ ap (λ k. take n xs ++ take k (drop n xs ++ ys)) (sub-suc n (length (take n xs))))

  drop_twice :
      (n : ℕ) (xs ys : List A) → drop (n - length (take n xs)) (drop n xs ++ ys) ≡ drop n (xs ++ ys)
  drop_twice zero xs ys = refl
  drop_twice (suc n) [] ys = ap (λ k. drop k ys) (sym (sub-zero (suc n)))
  drop_twice (suc n) (x ∷ xs) ys =
      ap (λ k. drop k (drop n xs ++ ys)) (sym (sub-suc n (length (take n xs)))) ∙ drop_twice n xs ys

  length-take-drop : (n : ℕ) (xs : List A) → length (take n xs) + length (drop n xs) ≡ length xs
  length-take-drop zero xs = omega arith
  length-take-drop (suc n) [] = refl
  length-take-drop (suc n) (x ∷ xs) = omega (arith, length-take-drop n xs)

  take-all : (n : ℕ) (xs : List A) → length xs ≤ n → take n xs ≡ xs
  take-all zero [] h = refl
  take-all zero (x ∷ xs) h = absurd (omega arith)
  take-all (suc n) [] h = refl
  take-all (suc n) (x ∷ xs) h = ap (λ t. x ∷ t) (take-all n xs (omega arith))

  drop-all : (n : ℕ) (xs : List A) → length xs ≤ n → drop n xs ≡ []
  drop-all zero [] h = refl
  drop-all zero (x ∷ xs) h = absurd (omega arith)
  drop-all (suc n) [] h = refl
  drop-all (suc n) (x ∷ xs) h = drop-all n xs (omega arith)

-- The reader has the first `size` bytes behind `chunks`, and the rest of the stream is still there.
abbrev pub IsRead : ℕ → List ℕ → List Arrival → Result (List ℕ × List Arrival) → Type 0
IsRead size chunks s r =
    (s' : List Arrival) × (r ≡ ok (chunks ++ take size (stream s), s'))
    × (stream s' ≡ drop size (stream s))
    × (ending s' ≡ ending s)

stream-put_back :
    (bs : List ℕ) (rest : List Arrival) → stream (put_back bs rest) ≡ bs ++ stream rest
stream-put_back [] rest = refl
stream-put_back (b ∷ bs) rest = refl

ending-put_back : (bs : List ℕ) (rest : List Arrival) → ending (put_back bs rest) ≡ ending rest
ending-put_back [] rest = refl
ending-put_back (b ∷ bs) rest = refl

length-after :
    (size : ℕ) (bs : List ℕ) (rest : List Arrival)
    → length (stream (put_back (drop size bs) rest)) + length (take size bs)
      ≡ length (bs ++ stream rest)
length-after size bs rest = rw (stream-put_back (drop size bs) rest) (
    omega (
      arith,
      length-append (drop size bs) (stream rest),
      length-append bs (stream rest),
      length-take-drop size bs,
    ))

pub recv_loop-IsRead :
    (fuel size : ℕ) (chunks : List ℕ) (s : List Arrival)
    → size ≤ fuel
    → size ≤ length (stream s)
    → IsRead size chunks s (recv_loop fuel size chunks s)
unfolding recv_loop recv
recv_loop-IsRead zero zero chunks s enough there =
    (s, ap (λ c. ok (c, s)) (sym (append-nil chunks)), refl, refl)
recv_loop-IsRead (suc fuel) zero chunks s enough there =
    (s, ap (λ c. ok (c, s)) (sym (append-nil chunks)), refl, refl)
recv_loop-IsRead zero (suc size) chunks s enough there = absurd (omega arith)
recv_loop-IsRead (suc fuel) (suc size) chunks [] enough there = absurd (omega arith)
recv_loop-IsRead (suc fuel) (suc size) chunks (fault ∷ rest) enough there = absurd (omega arith)
recv_loop-IsRead (suc fuel) (suc size) chunks (segment b bs ∷ rest) enough there =
    let got = take size bs in
    let s' = put_back (drop size bs) rest in
    let k = size - length got in
    let same : stream s' ≡ drop size bs ++ stream rest = stream-put_back (drop size bs) rest in
    let (s'', read, left, end) =
      recv_loop-IsRead fuel k (chunks ++ (b ∷ got)) s' (omega arith)
        (omega (arith, length-after size bs rest, there, length-append bs (stream rest))) in
    (
      s'',
      ap (λ k'. recv_loop fuel k' (chunks ++ (b ∷ got)) s') (sym (sub-suc size (length got)))
          ∙ read
          ∙ ap (λ t. ok (t, s''))
              (append_assoc chunks (b ∷ got) (take k (stream s'))
                ∙ ap (λ t. chunks ++ (b ∷ (got ++ take k t))) same
                ∙ ap (λ t. chunks ++ (b ∷ t)) (sym (take_twice size bs (stream rest)))),
      left ∙ ap (drop k) same ∙ drop_twice size bs (stream rest),
      end ∙ ending-put_back (drop size bs) rest,
    )

pub recv_loop-err :
    (fuel size : ℕ) (chunks : List ℕ) (s : List Arrival)
    → size ≤ fuel
    → length (stream s) < size
    → recv_loop fuel size chunks s ≡ err (ending s)
unfolding recv_loop recv
recv_loop-err fuel zero chunks s enough short = absurd (omega arith)
recv_loop-err zero (suc size) chunks s enough short = absurd (omega arith)
recv_loop-err (suc fuel) (suc size) chunks [] enough short = refl
recv_loop-err (suc fuel) (suc size) chunks (fault ∷ rest) enough short = refl
recv_loop-err (suc fuel) (suc size) chunks (segment b bs ∷ rest) enough short =
    let got = take size bs in
    let s' = put_back (drop size bs) rest in
    let k = size - length got in
    ap (λ k'. recv_loop fuel k' (chunks ++ (b ∷ got)) s') (sym (sub-suc size (length got)))
    ∙ recv_loop-err fuel k (chunks ++ (b ∷ got)) s' (omega arith) (
        omega (
          arith,
          length-after size bs rest,
          short,
          length-append bs (stream rest),
          length-take-drop size bs,
        ))
    ∙ ap err (ending-put_back (drop size bs) rest)

-- What an exact read of a stream is: with enough bytes, `IsRead`, and otherwise the error at the
-- end of the stream.
abbrev pub IsExact : ℕ → List Arrival → Result (List ℕ × List Arrival) → Type 0
IsExact size s r = elim (leb size (length (stream s))) [
  | true ↦ IsRead size [] s r
  | false ↦ r ≡ err (ending s)
]

-- However the bytes are cut into segments: when at least `size` bytes arrive before the first
-- fault or the end, `recv_exact` returns the first `size` of them and leaves the rest of the
-- stream as it is; when fewer arrive, it fails, with an OSError if a fault comes next and as a
-- short response if the peer has closed the connection.
pub recv_exact-IsExact : (size : ℕ) (s : List Arrival) → IsExact size s (recv_exact size s)
recv_exact-IsExact size s = elim (Bool-cases (leb size (length (stream s)))) [
  | inl e ↦ rw (e, IsExact) (recv_loop-IsRead size size [] s (omega arith) (ground arith))
  | inr e ↦ rw (e, IsExact) (recv_loop-err size size [] s (omega arith) (ground arith))
]
