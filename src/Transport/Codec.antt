-- ===== src/Transport/Codec.antt =====
-- `PostcardCodec` of src/baler-core/src/codec.rs: the messages of the link as bytes. postcard is third
-- party, and stands as a parameter for each type of messages.
use claas_rollant.Prelude.{ℕ, List, Result, ok, err}
use claas_rollant.Prelude.Text.{Text, codes}

-- `to_slice` gives the buffer after the call and how much of it is used.
pub record Postcard (T : Type 0) : Type 1 where
  pub PostcardError : Type 0
  pub to_slice : T → List ℕ → Result (List ℕ × ℕ) PostcardError
  pub from_bytes : List ℕ → Result T PostcardError

-- `ConnectorError::codec(name, e)`
pub record CodecError (E : Type 0) : Type 0 where
  pub format : Text
  pub reason : E

module _ {T : Type 0} (post : Postcard T) where
  abbrev pub format_name : Text
  format_name = codes "postcard"

  abbrev codec_error {ℓ} :
      {A : Type ℓ} → Result A post.PostcardError → Result A (CodecError post.PostcardError)
  codec_error (ok a) = ok a
  codec_error (err e) = err (record { format = format_name; reason = e })

  -- A buffer that is too small is an error of postcard's.
  unfoldable pub encode : T → List ℕ → Result (List ℕ × ℕ) (CodecError post.PostcardError)
  encode value buf = codec_error (post.to_slice value buf)

  unfoldable pub decode : List ℕ → Result T (CodecError post.PostcardError)
  decode buf = codec_error (post.from_bytes buf)
