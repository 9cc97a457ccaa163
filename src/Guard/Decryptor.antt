-- ===== src/Guard/Decryptor.antt =====
-- teeNodeDecryptor.Decrypt of packages/fcc-extension/go/internal/extension/decryptor.go, on what the
-- tee-node answers.
use averlock.Prelude.{
  ℕ, ◌≡◌, ◌↔◌, false, not, Option, some, Bytes, is_empty, ◌==◌, arith, Result, ok, Option-cases,
  inl, inr, or_err, fail_if, ◌>>=◌, ◌>>◌,
}

pub data DecryptError : Type 0 where
  encoding_request : DecryptError
  calling : DecryptError
  bad_status : ℕ → DecryptError
  decoding_response : DecryptError
  empty_plaintext : DecryptError

-- encoding/json on the two bodies, and the POST: a status with a body, or a failed call
pub record Api : Type 0 where
  pub marshal : Bytes → Option Bytes
  pub post : Bytes → Option (ℕ × Bytes)
  pub decode : Bytes → Option Bytes

-- Decrypt
unfoldable pub decrypt : Api → Bytes → Result DecryptError Bytes
decrypt api ciphertext = do
  body ← or_err encoding_request (api.marshal ciphertext)
  answer ← or_err calling (api.post body)
  fail_if (not (answer.0 == 200)) (bad_status answer.0)
  message ← or_err decoding_response (api.decode answer.1)
  fail_if (is_empty message) empty_plaintext
  ok message

-- Decrypt returns a plaintext exactly when the request is answered with status 200 and a body that
-- decodes to it, and it is not empty.
decrypt_iff :
    (api : Api) (ciphertext plaintext : Bytes)
    → (decrypt api ciphertext ≡ ok plaintext) ↔ (
        (body : Bytes) × (answer : Bytes) × (api.marshal ciphertext ≡ some body)
        × (api.post body ≡ some (200, answer))
        × (api.decode answer ≡ some plaintext)
        × (is_empty plaintext ≡ false))
unfolding decrypt
decrypt_iff api ciphertext plaintext = (
  λ h. elim (Option-cases (api.marshal ciphertext)) [
    | inl unmarshalled ↦ absurd (ground (arith, h))
    | inr (body, marshalled) ↦ elim (Option-cases (api.post body)) [
      | inl failed ↦ absurd (ground (arith, h))
      | inr ((status, answer), answered) ↦
          (body, answer, marshalled, ground (arith, h), ground (arith, h), ground (arith, h))
    ]
  ],
  λ h. ground (arith, h),
)
