-- ===== src/Schema/Plain.antt =====
-- `BytesSchema` and `StringSchema` (pulsar/schema/schema.py).
use pulsar_client_python.Base.{◌≡◌, not, [], ◌∷◌, arith}
use pulsar_client_python.Python.Result.{
  Result, ok, type_error, unicode_error, ◌>>=◌, ◌>>◌, raise_if, or_raise,
}
use pulsar_client_python.Python.Utf8.{Bytes, encode, decode}
use pulsar_client_python.Python.Utf8.RoundTrip.{decode-encode}
use pulsar_client_python.Python.Value.{Value, PyType, is_instance_of}

-- `_validate_object_type`
unfoldable pub validate_object_type : PyType → Value → Result (Unit {0})
validate_object_type t v = raise_if (not (is_instance_of v (t ∷ []))) type_error

unfoldable pub bytes_encode : Value → Result Value
unfolding validate_object_type
bytes_encode v = do validate_object_type PyType.bytes_type v; ok v

unfoldable pub bytes_decode : Value → Result Value
bytes_decode v = ok v

-- `obj.encode('utf-8')`, behind the test that `obj` is a text.
abbrev encode_text : Value → Result Bytes
encode_text (Value.str s) = ok (encode s)
encode_text _ = Result.raise type_error

unfoldable pub string_encode : Value → Result Bytes
unfolding validate_object_type
string_encode v = do validate_object_type PyType.str_type v; encode_text v

unfoldable pub string_decode : Bytes → Result Value
string_decode b = do s ← or_raise (decode b) unicode_error; ok (Value.str s)

-- What `StringSchema` encodes a value to is decoded to that value.
pub string_decode-encode : (v : Value) (b : Bytes) → string_encode v ≡ ok b → string_decode b ≡ ok v
unfolding string_encode string_decode is_instance_of
string_decode-encode (Value.str s) b h =
    let p : encode s ≡ b = cc in rw (← p) (rw (decode-encode s))
string_decode-encode v b h = ground arith
