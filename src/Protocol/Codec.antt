-- ===== src/Protocol/Codec.antt =====
-- The binary frames of crates/speech-core-protocol/src/lib.rs: AudioFrame::encode and
-- AudioFrame::decode. Bytes are numbers below 256; serde_json's text of a header is a parameter.
use speech_core.Base.{
  ℕ, zero, suc, ◌+◌, ◌*◌, ◌/◌, ◌%◌, Bool, false, ◌&&◌, not, Option, none, some, List, [], ◌∷◌, ◌++◌,
  ltb, leb, ◌==◌, if◌then◌else◌, length, and_then,
}
use speech_core.Base.Words.{u32_max}
use speech_core.Protocol.Types.{AudioFrameHeader, AudioFrame, bytes_per_sample}

pub data ProtocolError : Type 0 where
  frame_too_short : ℕ → ProtocolError
  bad_magic : List ℕ → ProtocolError
  unsupported_version : ℕ → ProtocolError
  header_too_large : ℕ → ProtocolError
  truncated_header : ℕ → ℕ → ProtocolError
  payload_length_overflow : ProtocolError
  payload_length_mismatch : ℕ → ℕ → ProtocolError
  json_error : ProtocolError

pub data Result (A : Type 0) : Type 0 where
  fine : A → Result A
  failed : ProtocolError → Result A

infixl 5 ◌>>=◌
abbrev pub ◌>>=◌ : {A B : Type 0} → Result A → (A → Result B) → Result B
fine a >>= f = f a
failed e >>= f = failed e

-- `serde_json::to_vec` and `serde_json::from_slice` at AudioFrameHeader.
pub record HeaderJson : Type 0 where
  pub to_vec : AudioFrameHeader → Option (List ℕ)
  pub from_slice : List ℕ → Option AudioFrameHeader

-- `a.checked_mul(b)` on u32.
unfoldable pub checked_mul : ℕ → ℕ → Option ℕ
checked_mul a b = if leb (a * b) u32_max then some (a * b) else none

unfoldable pub expected_payload_len : AudioFrameHeader → Option ℕ
expected_payload_len h =
    and_then (checked_mul h.sample_count h.channels)
      (λ samples. checked_mul samples (bytes_per_sample h.format))

abbrev pub length_check : Option ℕ → ℕ → Result (Unit {0})
length_check none actual = failed payload_length_overflow
length_check (some expected) actual =
    if actual == expected then fine tt else failed (payload_length_mismatch expected actual)

unfoldable pub validate_payload_len : AudioFrame → Result (Unit {0})
validate_payload_len f = length_check (expected_payload_len f.header) (length f.payload)

abbrev pub max_json_header_len : ℕ
max_json_header_len = 65536

-- `put_u32` and `get_u32`, with the highest byte first.
unfoldable pub put_u32 : ℕ → List ℕ
put_u32 n = n / 16777216 % 256 ∷ n / 65536 % 256 ∷ n / 256 % 256 ∷ n % 256 ∷ []

unfoldable pub get_u32 : ℕ → ℕ → ℕ → ℕ → ℕ
get_u32 a b c d = ((a * 256 + b) * 256 + c) * 256 + d

-- "SCF1", the version, the length of the header, the header and the payload.
unfoldable pub frame_bytes : List ℕ → List ℕ → List ℕ
frame_bytes json payload = 83 ∷ 67 ∷ 70 ∷ 49 ∷ 1 ∷ put_u32 (length json) ++ (json ++ payload)

unfoldable pub is_magic : List ℕ → Bool
is_magic (a ∷ b ∷ c ∷ d ∷ []) = a == 83 && b == 67 && c == 70 && d == 49
is_magic _ = false

-- `from_slice(..)?`.
abbrev pub json_result : {A : Type 0} → Option A → Result A
json_result none = failed json_error
json_result (some a) = fine a

-- `&cursor[..n]` and what follows after `advance(n)`.
unfoldable pub take_bytes : ℕ → List ℕ → List ℕ
take_bytes zero bytes = []
take_bytes (suc n) [] = []
take_bytes (suc n) (b ∷ bytes) = b ∷ take_bytes n bytes

unfoldable pub advance : ℕ → List ℕ → List ℕ
advance zero bytes = bytes
advance (suc n) [] = []
advance (suc n) (b ∷ bytes) = advance n bytes

module _ ⦃json : HeaderJson⦄ where
  unfoldable pub encode : AudioFrame → Result (List ℕ)
  encode f = do
    _valid ← validate_payload_len f
    header_json ← json_result (json.to_vec f.header)
    if ltb max_json_header_len (length header_json)
        then failed (header_too_large (length header_json))
        else fine (frame_bytes header_json f.payload)

  unfoldable pub decode_header : ℕ → List ℕ → Result AudioFrame
  decode_header header_len cursor = do
    header ← json_result (json.from_slice (take_bytes header_len cursor))
    let frame : AudioFrame = record { header = header; payload = advance header_len cursor }
    _valid ← validate_payload_len frame
    fine frame

  -- Behind the nine bytes of the fixed part.
  unfoldable pub decode_fixed : List ℕ → ℕ → ℕ → List ℕ → Result AudioFrame
  decode_fixed magic version header_len cursor =
      if not (is_magic magic)
      then failed (bad_magic magic)
      else if not (version == 1)
      then failed (unsupported_version version)
      else if ltb max_json_header_len header_len
      then failed (header_too_large header_len)
      else if ltb (length cursor) header_len
      then failed (truncated_header header_len (length cursor))
      else decode_header header_len cursor

  unfoldable pub decode : List ℕ → Result AudioFrame
  decode (m0 ∷ m1 ∷ m2 ∷ m3 ∷ version ∷ l0 ∷ l1 ∷ l2 ∷ l3 ∷ cursor) =
      decode_fixed (m0 ∷ m1 ∷ m2 ∷ m3 ∷ []) version (get_u32 l0 l1 l2 l3) cursor
  decode bytes = failed (frame_too_short (length bytes))
