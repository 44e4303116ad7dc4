-- ===== src/Protocol/RoundTrip.antt =====
-- Proofs on the frame codec of crates/speech-core-protocol/src/lib.rs.
use speech_core.Base.{
  ℕ, ◌/◌, ◌%◌, ◌≤◌, not, Option, none, some, List, [], ◌∷◌, ◌++◌, ltb, ◌==◌, if_both, if_cases,
  length, length-append, ◌≡◌, ◌≢◌, refl, sym, ap, subst, ◌∙◌, arith,
}
use speech_core.Protocol.Types.{AudioFrameHeader, AudioFrame}
use speech_core.Protocol.Codec.{
  Result, fine, failed, payload_length_mismatch, ◌>>=◌, HeaderJson, expected_payload_len,
  length_check, validate_payload_len, max_json_header_len, put_u32, get_u32, frame_bytes,
  json_result, take_bytes, advance, is_magic, encode, decode_header, decode_fixed, decode,
}

take_bytes-append : (xs ys : List ℕ) → take_bytes (length xs) (xs ++ ys) ≡ xs
unfolding take_bytes
take_bytes-append [] ys = refl
take_bytes-append (x ∷ xs) ys = ap (λ zs. x ∷ zs) (take_bytes-append xs ys)

advance-append : (xs ys : List ℕ) → advance (length xs) (xs ++ ys) ≡ ys
unfolding advance
advance-append [] ys = refl
advance-append (x ∷ xs) ys = advance-append xs ys

-- The four bytes of a u32 give it back.
get_u32-put_u32 :
    (n : ℕ)
    → n ≤ 4294967295
    → get_u32 (n / 16777216 % 256) (n / 65536 % 256) (n / 256 % 256) (n % 256) ≡ n
unfolding get_u32
get_u32-put_u32 n h = ground arith

-- The payload has the length that the header promises.
abbrev pub IsConsistent : AudioFrame → Type 0
IsConsistent f = expected_payload_len f.header ≡ some (length f.payload)

-- What holds of a result, if it is no error.
abbrev pub OnFine : {A : Type 0} → (A → Type 0) → Result A → Type 0
OnFine P (fine a) = P a
OnFine P (failed e) = Unit

validate-fine : (f : AudioFrame) → IsConsistent f → validate_payload_len f ≡ fine tt
unfolding validate_payload_len
validate-fine f c = rw c (ground arith)

validate-OnFine : (f : AudioFrame) → OnFine (λ _. IsConsistent f) (validate_payload_len f)
unfolding validate_payload_len
validate-OnFine f = go (expected_payload_len f.header) refl
  where
    go :
        (expected : Option ℕ)
        → expected_payload_len f.header ≡ expected
        → OnFine (λ _. IsConsistent f) (length_check expected (length f.payload))
    go none e = tt
    go (some n) e =
        if_cases (OnFine (λ _. IsConsistent f)) (length f.payload == n)
          (λ h. e ∙ ap some (ground arith)) (λ _. tt)

module _ ⦃json : HeaderJson⦄ where
  decode_header-OnFine : (n : ℕ) (cursor : List ℕ) → OnFine IsConsistent (decode_header n cursor)
  unfolding decode_header
  decode_header-OnFine n cursor = go (json.from_slice (take_bytes n cursor))
    where
      step :
          (f : AudioFrame) (r : Result (Unit {0}))
          → OnFine (λ _. IsConsistent f) r
          → OnFine IsConsistent (r >>= λ _. fine f)
      step f (fine _) c = c
      step f (failed e) c = tt

      go :
          (found : Option AudioFrameHeader)
          → OnFine IsConsistent (
              json_result found >>= λ header.
              validate_payload_len (record { header = header; payload = advance n cursor }) >>= λ _.
              fine (record { header = header; payload = advance n cursor }))
      go none = tt
      go (some header) =
          step (record { header = header; payload = advance n cursor }) _
            (validate-OnFine (record { header = header; payload = advance n cursor }))

  decode_fixed-OnFine :
      (magic : List ℕ) (version n : ℕ) (cursor : List ℕ)
      → OnFine IsConsistent (decode_fixed magic version n cursor)
  unfolding decode_fixed
  decode_fixed-OnFine magic version n cursor =
      if_both (OnFine IsConsistent) (not (is_magic magic)) tt (
        if_both (OnFine IsConsistent) (not (version == 1)) tt (
          if_both (OnFine IsConsistent) (ltb max_json_header_len n) tt (
            if_both (OnFine IsConsistent) (ltb (length cursor) n) tt
              (decode_header-OnFine n cursor))))

  -- A frame that decoding accepts has a payload of exactly the length that its header promises,
  -- whatever the bytes are.
  pub decode-IsConsistent : (bytes : List ℕ) → OnFine IsConsistent (decode bytes)
  unfolding decode
  decode-IsConsistent (m0 ∷ m1 ∷ m2 ∷ m3 ∷ version ∷ l0 ∷ l1 ∷ l2 ∷ l3 ∷ cursor) =
      decode_fixed-OnFine (m0 ∷ m1 ∷ m2 ∷ m3 ∷ []) version (get_u32 l0 l1 l2 l3) cursor
  decode-IsConsistent [] = tt
  decode-IsConsistent (m0 ∷ []) = tt
  decode-IsConsistent (m0 ∷ m1 ∷ []) = tt
  decode-IsConsistent (m0 ∷ m1 ∷ m2 ∷ []) = tt
  decode-IsConsistent (m0 ∷ m1 ∷ m2 ∷ m3 ∷ []) = tt
  decode-IsConsistent (m0 ∷ m1 ∷ m2 ∷ m3 ∷ v ∷ []) = tt
  decode-IsConsistent (m0 ∷ m1 ∷ m2 ∷ m3 ∷ v ∷ l0 ∷ []) = tt
  decode-IsConsistent (m0 ∷ m1 ∷ m2 ∷ m3 ∷ v ∷ l0 ∷ l1 ∷ []) = tt
  decode-IsConsistent (m0 ∷ m1 ∷ m2 ∷ m3 ∷ v ∷ l0 ∷ l1 ∷ l2 ∷ []) = tt

  -- What is checked of a frame behind its header.
  checked : AudioFrame → Result AudioFrame
  checked f = validate_payload_len f >>= λ _. fine f

  decode_header-checked :
      (f : AudioFrame) (text : List ℕ)
      → json.from_slice text ≡ some f.header
      → decode_header (length text) (text ++ f.payload) ≡ checked f
  unfolding decode_header checked
  decode_header-checked f text e =
      subst
        (λ found.
          (json_result found >>= λ header.
          checked (record { header = header; payload = advance (length text) (text ++ f.payload) }))
          ≡ checked f)
        (sym (ap json.from_slice (take_bytes-append text f.payload) ∙ e))
        (ap (λ payload. checked (record { header = f.header; payload = payload }))
          (advance-append text f.payload))

  decode_fixed-checked :
      (f : AudioFrame) (text : List ℕ) (n : ℕ)
      → json.from_slice text ≡ some f.header
      → length text ≤ max_json_header_len
      → n ≡ length text
      → decode_fixed (83 ∷ 67 ∷ 70 ∷ 49 ∷ []) 1 n (text ++ f.payload) ≡ checked f
  unfolding decode_fixed is_magic
  decode_fixed-checked f text n e small same =
      if_cases (λ r. r ≡ checked f) (ltb max_json_header_len n) (λ h. absurd (ground arith))
        λ _.
          if_cases (λ r. r ≡ checked f) (ltb (length (text ++ f.payload)) n)
            (λ h. absurd (ground (arith, length-append text f.payload)))
            (λ _.
              subst (λ k. decode_header k (text ++ f.payload) ≡ checked f) (sym same)
                (decode_header-checked f text e))

  -- Decoding the bytes of any header text and payload comes down to the check of the length.
  decode-frame_bytes :
      (f : AudioFrame) (text : List ℕ)
      → json.from_slice text ≡ some f.header
      → length text ≤ max_json_header_len
      → decode (frame_bytes text f.payload) ≡ checked f
  unfolding decode frame_bytes put_u32
  decode-frame_bytes f text e small =
      decode_fixed-checked f text _ e small (get_u32-put_u32 (length text) (omega arith))

  -- A frame whose payload has the length that its header promises is encoded, and decoding the
  -- bytes gives the frame back, where serde_json writes the header as some text of at most 64 KiB
  -- and reads the header back from that text.
  pub decode-encode :
      (f : AudioFrame) (text : List ℕ)
      → json.to_vec f.header ≡ some text
      → json.from_slice text ≡ some f.header
      → length text ≤ max_json_header_len
      → IsConsistent f
      → (bytes : List ℕ) × (encode f ≡ fine bytes) × (decode bytes ≡ fine f)
  unfolding encode checked
  decode-encode f text w e small c = (
    frame_bytes text f.payload,
    encoded,
    decode-frame_bytes f text e small ∙ rw (validate-fine f c) refl,
  )
    where
      encoded : encode f ≡ fine (frame_bytes text f.payload)
      encoded =
          rw (validate-fine f c, w)
            (if_cases (λ r. r ≡ fine (frame_bytes text f.payload))
              (ltb max_json_header_len (length text)) (λ h. absurd (ground arith)) (λ _. refl))

  -- Bytes with a readable header of at most 64 KiB, whose payload is cut short or followed by
  -- further bytes, so that its length is not the one that the header promises, are rejected with
  -- both lengths in the error.
  pub decode-mismatch :
      (f : AudioFrame) (text : List ℕ) (expected : ℕ)
      → json.from_slice text ≡ some f.header
      → length text ≤ max_json_header_len
      → expected_payload_len f.header ≡ some expected
      → length f.payload ≢ expected
      → decode (frame_bytes text f.payload)
        ≡ failed (payload_length_mismatch expected (length f.payload))
  unfolding checked validate_payload_len
  decode-mismatch f text expected e small p n =
      decode-frame_bytes f text e small
      ∙ rw p (
          if_cases
            (λ (r : Result (Unit {0})).
              (r >>= λ _. fine f) ≡ failed (payload_length_mismatch expected (length f.payload)))
            (length f.payload == expected) (λ h. absurd (n (ground arith))) (λ _. refl))
