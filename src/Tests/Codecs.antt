-- ===== src/Tests/Codecs.antt =====
-- Samples for the schemas of pulsar/schema/schema.py and pulsar/schema/schema_avro.py.
use pulsar_client_python.Base.{◌+◌, ◌≤◌, List, ◌≡◌, refl, true, none, [], ◌∷◌, str_eq, inr}
use pulsar_client_python.Base.Int.{ℤ, pos}
use pulsar_client_python.Python.Result.{ok, raise, type_error}
use pulsar_client_python.Python.Utf8.{Bytes, encode, decode as decode_text}
use pulsar_client_python.Python.Value.{
  Value, nil, cons, end, entry, is_instance_of, Literal, Member, EnumType,
}
use pulsar_client_python.Definition.Field.{
  find_value, validate, validate_class, validate_string, python_type,
}
use pulsar_client_python.Schema.Json.{JsonText, json_encode, json_decode, jsonable}
use pulsar_client_python.Schema.Json.Stored.{plain, IsStored}
use pulsar_client_python.Schema.Json.RoundTrip.{json_decode-encode}
use pulsar_client_python.Schema.Avro.{
  AvroState, Externals, attached, get_writer_schema, decode, decode_message,
}
use pulsar_client_python.Schema.Avro.Cache.{get_writer_schema-again}
use pulsar_client_python.Schema.Avro.Downloads.{
  Arrival, decode_all, times, failures, times-decode_all,
}
use pulsar_client_python.Schema.Avro.Decode.{decode_message_total}
use pulsar_client_python.Tests.Records.{blue, point, at, drawing, sketch}

abbrev point_tree : ℤ → ℤ → Value
point_tree x y =
    Value.dict (entry (Value.str "x") (Value.int x) (entry (Value.str "y") (Value.int y) end))

-- What is written for the sketch.
abbrev pub sketch_tree : Value
sketch_tree = Value.dict (
    entry (Value.str "title") (Value.str "sketch") (
      entry (Value.str "color") (Value.int (pos 3)) (
        entry (Value.str "data") (Value.str "ab") (
          entry (Value.str "points") (Value.list (cons (point_tree (pos 1) (pos 2)) nil))
            (entry (Value.str "center") (point_tree (pos 0) (pos 7)) end)))))

-- A `json` module that is known at that tree alone.
abbrev pub json : JsonText
json = record { key_text = λ _. raise type_error; dumps = λ _. []; loads = λ _. ok sketch_tree }

pub sketch_written : jsonable json (Value.object drawing plain sketch) ≡ ok sketch_tree
unfolding jsonable str_eq decode_text encode
sketch_written = refl

at-IsStored : (x y : ℤ) → IsStored point (at x y)
unfolding str_eq validate validate_class is_instance_of python_type
at-IsStored x y = (refl, (refl, refl), refl, (tt, refl), (refl, (refl, refl), refl, (tt, refl), tt))

pub sketch-IsStored : IsStored drawing sketch
unfolding str_eq validate validate_string find_value
sketch-IsStored = (
  refl,
  (refl, refl),
  refl,
  (tt, refl),
  (
    refl,
    (refl, refl),
    refl,
    inr (blue, pos 3, refl, refl, refl),
    (
      refl,
      (refl, refl),
      refl,
      inr ("ab", refl),
      (
        refl,
        (refl, refl),
        refl,
        inr (
          cons (Value.object point plain (at (pos 1) (pos 2))) nil,
          refl,
          ((at (pos 1) (pos 2), refl, at-IsStored (pos 1) (pos 2)), tt),
        ),
        (refl, (refl, refl), refl, inr (at (pos 0) (pos 7), refl, at-IsStored (pos 0) (pos 7)), tt),
      ),
    ),
  ),
)

json_decode-encode_example :
    (b : Bytes) × (json_encode json drawing (Value.object drawing plain sketch) ≡ ok b)
    × (json_decode json drawing b ≡ ok (Value.object drawing plain sketch))
json_decode-encode_example =
    json_decode-encode json drawing sketch (λ tree e _. cc (sketch_written, e)) sketch-IsStored

abbrev reader_schema : Value
reader_schema = Value.dict (entry (Value.str "name") (Value.str "Point") end)

abbrev writer_schema : Value
writer_schema = Value.dict (entry (Value.str "name") (Value.str "OldPoint") end)

-- A client that has one AVRO schema for every topic and version, and a decoder that gives every datum as
-- an empty dict.
abbrev pub externals : Externals
externals = record {
  get_schema_info = λ _ _. ok (record { is_avro = true; definition = "{}" });
  loads = λ _. ok writer_schema;
  read_datum = λ _ _ _. ok (Value.dict end);
  write_datum = λ _ _. ok [];
  make_schema_info = λ _. ok tt;
}

-- A client that fails.
abbrev broken : Externals
broken = record externals { get_schema_info = λ _ _. raise type_error }

abbrev pub schema_of_point : AvroState
schema_of_point = record {
  record_class = none;
  reader_schema = reader_schema;
  writer_schemas = [];
  client = attached true;
  downloads = [];
}

abbrev filled : AvroState
filled = record schema_of_point { writer_schemas = ("t", (pos 1, writer_schema) ∷ []) ∷ [] }

get_writer_schema-again_example :
    get_writer_schema broken "t" (pos 2) (get_writer_schema externals "t" (pos 2) filled).1
    ≡ (ok writer_schema, (get_writer_schema externals "t" (pos 2) filled).1)
unfolding get_writer_schema str_eq
get_writer_schema-again_example =
    get_writer_schema-again externals broken "t" (pos 2) filled writer_schema refl refl refl

abbrev good : Arrival
good = record { externals = externals; topic = "t"; version = pos 2; content = [] }

-- The first answer is not usable, the second is, and the third message finds the schema.
abbrev three : List Arrival
three = record good { externals = broken } ∷ good ∷ good ∷ []

times-decode_all_example :
    times "t" (pos 2) (decode_all three filled).downloads
    ≤ times "t" (pos 2) filled.downloads + 1 + failures "t" (pos 2) three
times-decode_all_example = times-decode_all "t" (pos 2) three filled refl

decode_message_total_example :
    (w : Value) × ((decode_message broken "t" (pos 2) [] filled).0 ≡ ok w)
unfolding decode str_eq
decode_message_total_example =
    decode_message_total broken "t" (pos 2) [] filled true (Value.dict end) refl refl

-- `class Size(Enum): small = 's'`
abbrev small : Member
small = record { owner = 2; name = "small"; value = Literal.str "s" }

abbrev size : EnumType
size = record { ident = 2; name = "Size"; members = ("small", small) ∷ [] }
