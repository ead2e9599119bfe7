-- ===== src/WebSocket/Frame/Incremental.antt =====
-- The header parser on a header that has not arrived whole.
use cornet.Base.{
  ℕ, zero, suc, ◌+◌, ◌-◌, ◌/◌, ◌%◌, ◌^◌, ◌<◌, ◌≤◌, ◌≡◌, inl, inr, ◌∙◌, Bool, List, [], ◌∷◌, ◌++◌,
  arith, le_or_lt, length, take, length-take,
}
use cornet.WebSocket.Protocol.{Opcode, Role}
use cornet.WebSocket.Frame.{
  need_more, parse_header, parse_length, parse_key, max_control_payload, write_frame_header,
}
use cornet.WebSocket.Frame.Reads.{digits64}
use cornet.WebSocket.Frame.Stages.{
  key_bytes, masked_by, parse_length_short, parse_length_medium, parse_length_long,
}
use cornet.WebSocket.Frame.RoundTrip.{
  IsSendable, b0, b1, write_short, write_medium, write_long, start,
}

-- Fewer than two bytes.
parse_header_tiny : (role : Role) (w : List ℕ) → length w < 2 → parse_header role w ≡ need_more
unfolding parse_header
parse_header_tiny role w h = ground arith

module _ (fin : Bool) (op : Opcode) (len key : ℕ) where
  parse_key_short :
      (w : List ℕ) (off m : ℕ)
      → length w ≤ off + m
      → m < length (key_bytes key)
      → parse_key w fin op (masked_by key) off len ≡ need_more
  unfolding parse_key
  parse_key_short w off m h g = ground arith

  parse_length_medium_short :
      (w : List ℕ) → length w < 4 → parse_length w fin op (masked_by key) 126 ≡ need_more
  unfolding parse_length
  parse_length_medium_short w h = ground arith

  parse_length_long_short :
      (w : List ℕ) → length w < 10 → parse_length w fin op (masked_by key) 127 ≡ need_more
  unfolding parse_length
  parse_length_long_short w h = ground arith

length-take_le {ℓ} : {A : Type ℓ} (n : ℕ) (xs : List A) → length (take n xs) ≤ n
length-take_le n xs = omega (arith, length-take n xs)

module _ {role : Role} {fin : Bool} {op : Opcode} {len key : ℕ}
    (s : IsSendable role fin op len key) where
  abbrev first : ℕ
  first = b0 fin op len key

  abbrev second : ℕ → ℕ
  second = b1 fin op len key

  cut_short :
      (m : ℕ)
      → len ≤ max_control_payload
      → m < length (key_bytes key)
      → parse_header role (first ∷ second len ∷ take m (key_bytes key)) ≡ need_more
  cut_short m h g =
      start s [] len (take m (key_bytes key)) (omega arith) (λ _. h)
      ∙ parse_length_short fin op (masked_by key) len _ _ (take m (key_bytes key)) (omega arith)
      ∙ parse_key_short fin op len key _ 2 m (omega (arith, length-take_le m (key_bytes key))) g

  cut_medium :
      (m : ℕ)
      → max_control_payload < len
      → len ≤ 0xFFFF
      → m < 2 + length (key_bytes key)
      → parse_header role
          (first ∷ second 126 ∷ take m ((len / 2 ^ 8 % 2 ^ 8) ∷ (len % 2 ^ 8) ∷ key_bytes key))
        ≡ need_more
  cut_medium m h g k =
      start s [] 126 (take m ((len / 2 ^ 8 % 2 ^ 8) ∷ (len % 2 ^ 8) ∷ key_bytes key)) (omega arith)
        (λ c. absurd (omega (arith, (s.control c).1)))
      ∙ inside m k
    where
      inside :
          (m : ℕ)
          → m < 2 + length (key_bytes key)
          → parse_length
              (first ∷ second 126 ∷ take m ((len / 2 ^ 8 % 2 ^ 8) ∷ (len % 2 ^ 8) ∷ key_bytes key))
              fin
              op
              (masked_by key)
              126
            ≡ need_more
      inside zero k = parse_length_medium_short fin op len key _ (omega arith)
      inside (suc zero) k = parse_length_medium_short fin op len key _ (omega arith)
      inside (suc (suc m)) k =
          parse_length_medium fin op (masked_by key) len _ _ (take m (key_bytes key)) h g
          ∙ parse_key_short fin op len key _ 4 m (omega (arith, length-take_le m (key_bytes key)))
              (omega arith)

  cut_long :
      (m : ℕ)
      → 0xFFFF < len
      → m < 8 + length (key_bytes key)
      → parse_header role (first ∷ second 127 ∷ take m (digits64 len ++ key_bytes key)) ≡ need_more
  cut_long m h k =
      start s [] 127 (take m (digits64 len ++ key_bytes key)) (omega arith)
        (λ c. absurd (omega (arith, (s.control c).1)))
      ∙ elim (le_or_lt 8 m) [
        | inl g ↦
            let e : m ≡ suc (suc (suc (suc (suc (suc (suc (suc (m - 8)))))))) = omega arith in
            rw e (
              parse_length_long fin op (masked_by key) len _ _ (take (m - 8) (key_bytes key)) h
                s.len_fits
              ∙ parse_key_short fin op len key _ 10 (m - 8)
                  (omega (arith, length-take_le (m - 8) (key_bytes key))) (omega arith))
        | inr g ↦
            parse_length_long_short fin op len key _
              (omega (arith, length-take_le m (digits64 len ++ key_bytes key)))
      ]

  -- Of a header that may be sent to the parser's role, every part that is not the whole makes the
  -- parser ask for more bytes.
  pub parse_header-take-write_frame_header :
      (n : ℕ)
      → n < length (write_frame_header fin op len key)
      → parse_header role (take n (write_frame_header fin op len key)) ≡ need_more
  parse_header-take-write_frame_header zero h = parse_header_tiny role [] (omega arith)
  parse_header-take-write_frame_header (suc zero) h =
      parse_header_tiny role _ (omega (arith, length-take_le 1 (write_frame_header fin op len key)))
  parse_header-take-write_frame_header (suc (suc m)) h = elim (le_or_lt len max_control_payload) [
    | inl a ↦
        let e = write_short fin op len key a in rw e (cut_short m a (omega (arith, rw e at h)))
    | inr a ↦ elim (le_or_lt len 0xFFFF) [
      | inl b ↦
          let e = write_medium fin op len key a b in
          rw e (cut_medium m a b (omega (arith, rw e at h)))
      | inr b ↦
          let e = write_long fin op len key b s.len_fits in
          rw e (cut_long m b (omega (arith, rw e at h)))
    ]
  ]
