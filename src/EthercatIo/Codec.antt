-- ===== src/EthercatIo/Codec.antt =====
-- `RawByteCodec` of src/baler-daemon/src/ethercat_io.rs: a value that serialises as a byte, to and from
-- one byte on the wire. The JSON values of serde_json are a parameter.
use claas_rollant.Prelude.{
  ℕ, ◌<◌, ◌≤◌, ◌≡◌, false, List, [], ◌∷◌, Option, none, some, Result, ok, err, is_ok, ltb,
  if◌then◌else◌, arith,
}

-- serde_json, for a type of values: the JSON value of one and back, `Value::as_u64` and
-- `Value::Number(Number::from(byte))`.
pub record Json (T : Type 0) : Type 1 where
  pub Value : Type 0
  pub JsonError : Type 0
  pub to_value : T → Result Value JsonError
  pub from_value : Value → Result T JsonError
  pub as_u64 : Value → Option ℕ
  pub number : ℕ → Value

module _ {T : Type 0} (json : Json T) where
  open json use {Value, JsonError, to_value, from_value, as_u64, number}

  -- The errors that the codec gives.
  pub data CodecError : Type 0 where
    serde : JsonError → CodecError
    not_integer not_a_byte empty_buffer : CodecError
    payload_overflow : ℕ → ℕ → CodecError

  -- Writes the byte to the front of a buffer: the buffer after it, and how much of it is used.
  abbrev put_byte : ℕ → List ℕ → Result (List ℕ × ℕ) CodecError
  put_byte byte [] = err (payload_overflow 1 0)
  put_byte byte (x ∷ buf) = ok (byte ∷ buf, 1)

  abbrev as_byte : Option ℕ → List ℕ → Result (List ℕ × ℕ) CodecError
  as_byte none buf = err not_integer
  as_byte (some n) buf = if ltb n 256 then put_byte n buf else err not_a_byte

  abbrev encode_value : Result Value JsonError → List ℕ → Result (List ℕ × ℕ) CodecError
  encode_value (err e) buf = err (serde e)
  encode_value (ok v) buf = as_byte (as_u64 v) buf

  unfoldable pub encode_byte : T → List ℕ → Result (List ℕ × ℕ) CodecError
  encode_byte value buf = encode_value (to_value value) buf

  abbrev decoded : Result T JsonError → Result T CodecError
  decoded (ok t) = ok t
  decoded (err e) = err (serde e)

  unfoldable pub decode_byte : List ℕ → Result T CodecError
  decode_byte [] = err empty_buffer
  decode_byte (byte ∷ buf) = decoded (from_value (number byte))

  module _ (byte : T → ℕ) (to_number : (t : T) → to_value t ≡ ok (number (byte t)))
      (number_read : (n : ℕ) → as_u64 (number n) ≡ some n)
      (from_number : (t : T) → from_value (number (byte t)) ≡ ok t) where
    -- If a value's JSON is the number `byte t`, numbers are read back as they are, and the number gives
    -- the value again: a value that is a byte goes into every buffer with room, takes its first place
    -- alone and is decoded from it; a larger number or a buffer without room is an error.
    pub decode-encode_byte :
        (t : T) (x : ℕ) (buf : List ℕ)
        → (byte t < 256
            → (encode_byte t (x ∷ buf) ≡ ok (byte t ∷ buf, 1)) × (decode_byte (byte t ∷ []) ≡ ok t))
          × (256 ≤ byte t → encode_byte t (x ∷ buf) ≡ err not_a_byte)
          × (is_ok (encode_byte t []) ≡ false)
    unfolding encode_byte decode_byte
    decode-encode_byte t x buf = ground (arith, to_number t, number_read (byte t), from_number t)
