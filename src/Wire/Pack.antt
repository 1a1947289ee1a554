-- ===== src/Wire/Pack.antt =====
-- Frames of the Modbus TCP format, and their reading from a stream.
use apc_modbus_snmp_ha.Prelude.{
  ℕ, ◌+◌, ◌-◌, ◌*◌, ◌/◌, ◌%◌, ◌≤◌, ◌<◌, ◌≡◌, refl, ap, ◌∙◌, List, [], ◌∷◌, ◌++◌, take, drop, length,
  length-append, arith, ltb, false,
}
use apc_modbus_snmp_ha.Wire.{
  Arrival, Result, ok, err, recv_exact, pack_word, response_length, receive_rest, receive_frame,
}
use apc_modbus_snmp_ha.Wire.Chunks.{stream, ending, recv_loop-IsRead, recv_loop-err}

-- A frame of the format: the MBAP header, whose length field counts the unit and the body.
abbrev pub mbap_frame : ℕ → ℕ → ℕ → List ℕ → List ℕ
mbap_frame transaction protocol unit_id body =
    pack_word transaction
    ++ (pack_word protocol ++ (pack_word (length body + 1) ++ (unit_id ∷ body)))

-- The reader has the frame, and what follows it in the stream is still there.
abbrev pub IsReceived : List ℕ → List ℕ → Result (List ℕ × List Arrival) → Type 0
IsReceived frame more r = (s' : List Arrival) × (r ≡ ok (frame, s')) × (stream s' ≡ more)

take-append : (xs ys : List ℕ) → take (length xs) (xs ++ ys) ≡ xs
take-append [] ys = refl
take-append (x ∷ xs) ys = ap (λ t. x ∷ t) (take-append xs ys)

drop-append : (xs ys : List ℕ) → drop (length xs) (xs ++ ys) ≡ ys
drop-append [] ys = refl
drop-append (x ∷ xs) ys = drop-append xs ys

pub word-pack_word : (n : ℕ) → n / 256 * 256 + n % 256 ≡ n
word-pack_word n = omega arith

receive_rest-IsReceived :
    (header body more : List ℕ) (s : List Arrival)
    → 2 ≤ response_length header
    → response_length header ≡ length body + 1
    → stream s ≡ body ++ more
    → IsReceived (header ++ body) more (receive_rest header s)
unfolding receive_rest
receive_rest-IsReceived header body more s two size arrives =
    let enough : ltb (response_length header) 2 ≡ false = ground arith in
    let (s', read, left, end) =
      recv_loop-IsRead (length body) (length body) [] s (omega arith)
        (rw arrives (omega (arith, length-append body more))) in
    let fits : response_length header - 1 ≡ length body = omega arith in
    let got : recv_exact (response_length header - 1) s ≡ ok (body, s') =
      ap (λ k. recv_exact k s) fits
      ∙ read
      ∙ ap (λ t. ok (take (length body) t, s')) arrives
      ∙ ap (λ t. ok (t, s')) (take-append body more) in
    (s', rw enough (rw got refl), left ∙ ap (drop (length body)) arrives ∙ drop-append body more)

pub receive_frame-IsReceived :
    (transaction protocol unit_id : ℕ) (body more : List ℕ) (s : List Arrival)
    → 1 ≤ length body
    → stream s ≡ mbap_frame transaction protocol unit_id body ++ more
    → IsReceived (mbap_frame transaction protocol unit_id body) more (receive_frame s)
unfolding receive_frame
receive_frame-IsReceived transaction protocol unit_id body more s some_body arrives =
    let (s', read, left, end) =
      recv_loop-IsRead 7 7 [] s (omega arith) (rw arrives (omega arith)) in
    let header = take 7 (mbap_frame transaction protocol unit_id body) in
    let got : recv_exact 7 s ≡ ok (header, s') = read ∙ ap (λ t. ok (take 7 t, s')) arrives in
    let (s'', done, kept) =
      receive_rest-IsReceived header body more s' (omega arith) (word-pack_word (length body + 1))
        (left ∙ ap (drop 7) arrives) in
    (s'', rw got done, kept)

pub receive_frame-err :
    (s : List Arrival) → length (stream s) < 7 → receive_frame s ≡ err (ending s)
unfolding receive_frame
receive_frame-err s short = rw (recv_loop-err 7 7 [] s (omega arith) short) refl
