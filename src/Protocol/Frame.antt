-- ===== src/Protocol/Frame.antt =====
-- The memory that `encode_packet` writes, against the frame of the protocol.
use open_scum_rcon.Base.{
  ℕ, zero, suc, ◌+◌, ◌-◌, ◌%◌, ◌^◌, ◌≤◌, ◌≡◌, refl, sym, ap, ◌∙◌, inl, inr, [], ◌∷◌, ◌++◌,
  append_assoc, arith, Bytes, ◌==◌, if◌then◌else◌, ==_iff, Bool-cases, length, take, drop,
  replicate, length-append, length-replicate, drop-append_eq,
}
use open_scum_rcon.Protocol.{int32_bytes, copy_at, write_header, terminate, encode_packet}

copy_at-append :
    (xs source ys : Bytes) (n : ℕ)
    → length source ≤ length ys
    → length xs ≡ n
    → copy_at n source (xs ++ ys) ≡ xs ++ (source ++ drop (length source) ys)
unfolding copy_at
copy_at-append [] [] ys zero h e = refl
copy_at-append [] (s ∷ source) [] zero h e = absurd (omega arith)
copy_at-append [] (s ∷ source) (y ∷ ys) zero h e =
    ap (λ zs. s ∷ zs) (copy_at-append [] source ys zero (omega arith) refl)
copy_at-append [] source ys (suc n) h e = absurd (omega arith)
copy_at-append (x ∷ xs) source ys zero h e = absurd (omega arith)
copy_at-append (x ∷ xs) source ys (suc n) h e =
    ap (λ zs. x ∷ zs) (copy_at-append xs source ys n h (omega arith))

-- A packet on the wire.
abbrev pub frame : ℕ → ℕ → Bytes → Bytes
frame request_id type payload =
    int32_bytes ((length payload + 10) % 2 ^ 32)
    ++ (int32_bytes request_id ++ (int32_bytes type ++ (payload ++ 0 ∷ 0 ∷ [])))

replicate-snoc2 : (n : ℕ) → replicate {A = ℕ} (suc (suc n)) 0 ≡ replicate n 0 ++ 0 ∷ 0 ∷ []
replicate-snoc2 zero = refl
replicate-snoc2 (suc n) = ap (λ zs. 0 ∷ zs) (replicate-snoc2 n)

terminate_lem : (xs : Bytes) (a b : ℕ) → terminate (xs ++ a ∷ b ∷ []) ≡ xs ++ 0 ∷ 0 ∷ []
unfolding terminate
terminate_lem xs a b = rw (first, last)
  where
    first : copy_at (length (xs ++ a ∷ b ∷ []) - 2) (0 ∷ []) (xs ++ a ∷ b ∷ []) ≡ xs ++ 0 ∷ b ∷ []
    first =
        copy_at-append xs (0 ∷ []) (a ∷ b ∷ []) _ (omega arith)
          (omega (arith, length-append xs (a ∷ b ∷ [])))

    last : copy_at (length (xs ++ 0 ∷ b ∷ []) - 1) (0 ∷ []) (xs ++ 0 ∷ b ∷ []) ≡ xs ++ 0 ∷ 0 ∷ []
    last =
        ap (copy_at (length (xs ++ 0 ∷ b ∷ []) - 1) (0 ∷ []))
          (sym (append_assoc xs (0 ∷ []) (b ∷ [])))
        ∙ copy_at-append (xs ++ 0 ∷ []) (0 ∷ []) (b ∷ []) _ (omega arith)
            (omega (arith, length-append xs (0 ∷ b ∷ []), length-append xs (0 ∷ [])))
        ∙ append_assoc xs (0 ∷ []) (0 ∷ [])

abbrev add12 : ℕ → ℕ
add12 n = suc (suc (suc (suc (suc (suc (suc (suc (suc (suc (suc (suc n)))))))))))

abbrev header : ℕ → ℕ → ℕ → Bytes
header size request_id type = int32_bytes size ++ (int32_bytes request_id ++ int32_bytes type)

written :
    (size request_id type : ℕ) (payload : Bytes)
    → copy_at 12 payload
        (write_header size request_id type (replicate (add12 (suc (suc (length payload)))) 0))
      ≡ (header size request_id type ++ payload) ++ 0 ∷ 0 ∷ []
unfolding write_header int32_bytes copy_at
written size request_id type payload =
    rw replicate-snoc2
      (ap (λ zs. header size request_id type ++ zs) (copied ∙ ap (λ zs. payload ++ zs) rest))
  where
    zeros : Bytes
    zeros = replicate (length payload) 0

    copied :
        copy_at 0 payload (zeros ++ 0 ∷ 0 ∷ [])
        ≡ payload ++ drop (length payload) (zeros ++ 0 ∷ 0 ∷ [])
    copied =
        copy_at-append [] payload (zeros ++ 0 ∷ 0 ∷ []) 0
          (omega
            (arith, length-append zeros (0 ∷ 0 ∷ []), length-replicate {A = ℕ} (length payload) 0))
          refl

    rest : drop (length payload) (zeros ++ 0 ∷ 0 ∷ []) ≡ 0 ∷ 0 ∷ []
    rest = drop-append_eq (length payload) zeros (0 ∷ 0 ∷ []) (length-replicate (length payload) 0)

unwritten :
    (size request_id type : ℕ) (payload : Bytes)
    → 0 ≡ length payload
    → write_header size request_id type (replicate (add12 (suc (suc (length payload)))) 0)
      ≡ (header size request_id type ++ payload) ++ 0 ∷ 0 ∷ []
unfolding write_header int32_bytes copy_at
unwritten size request_id type [] h = refl
unwritten size request_id type (p ∷ payload) h = absurd (omega arith)

-- Writing the fields into a zeroed buffer gives the size of the rest, the two header words, the
-- payload and two NUL bytes, in this order, for a body of any size.
pub encode_packet-frame :
    (request_id type : ℕ) (payload : Bytes)
    → encode_packet request_id type payload ≡ frame request_id type payload
unfolding encode_packet
encode_packet-frame request_id type payload =
    rw size14
      (ap terminate filled ∙ terminate_lem (header size request_id type ++ payload) 0 0 ∙ shape)
  where
    size : ℕ
    size = (8 + length payload + 2) % 2 ^ 32

    out : Bytes
    out = write_header size request_id type (replicate (add12 (suc (suc (length payload)))) 0)

    size14 : 4 + (8 + length payload + 2) ≡ add12 (suc (suc (length payload)))
    size14 = omega arith

    filled :
        (if 0 == length payload then out else copy_at 12 payload out)
        ≡ (header size request_id type ++ payload) ++ 0 ∷ 0 ∷ []
    filled = elim (Bool-cases (0 == length payload)) [
      | inl e ↦ rw e (unwritten size request_id type payload ((==_iff _ _).0 e))
      | inr e ↦ rw e (written size request_id type payload)
    ]

    shape : (header size request_id type ++ payload) ++ 0 ∷ 0 ∷ [] ≡ frame request_id type payload
    shape = simp append_assoc (
        ap
          (λ s.
            int32_bytes (s % 2 ^ 32)
            ++ (int32_bytes request_id ++ (int32_bytes type ++ (payload ++ 0 ∷ 0 ∷ []))))
          same)
      where
        same : 8 + length payload + 2 ≡ length payload + 10
        same = omega arith

-- The four bytes of a packet's size, and the size of the whole.
pub encode_packet_size :
    (request_id type : ℕ) (payload : Bytes)
    → (take 4 (encode_packet request_id type payload)
        ≡ int32_bytes ((length payload + 10) % 2 ^ 32))
      × (length (encode_packet request_id type payload) ≡ length payload + 14)
unfolding int32_bytes
encode_packet_size request_id type payload =
    rw (encode_packet-frame request_id type payload)
      (refl, omega (arith, length-append payload (0 ∷ 0 ∷ [])))
