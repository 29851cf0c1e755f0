-- ===== src/Tests/AvroMessages.antt =====
-- Sample messages that one `AvroSchema` decodes: records with a number, and a codec that writes the
-- number as one byte.
use pulsar_client_python.Base.{
  ℕ, ◌≡◌, refl, true, none, some, [], ◌∷◌, str_eq, str_eq_iff, if◌then◌else◌, arith, inl, inr,
  Bool-cases,
}
use pulsar_client_python.Base.Int.{ℤ, pos}
use pulsar_client_python.Python.Result.{Result, ok, raise, foreign}
use pulsar_client_python.Python.Utf8.{Bytes}
use pulsar_client_python.Python.Value.{
  Scalar, Value, Attributes, RecordClass, Entries, end, entry, bare, attribute, class, no_fields,
  declare, scalar,
}
use pulsar_client_python.Schema.Json.Stored.{plain}
use pulsar_client_python.Schema.Json.Atoms.{dict_of}
use pulsar_client_python.Schema.Avro.{AvroState, Externals, attach_client, init_avro, unset}
use pulsar_client_python.Schema.Avro.Encode.{serialized}
use pulsar_client_python.Schema.Avro.Stored.{datum}
use pulsar_client_python.Schema.Avro.Memo.{uncached}
use pulsar_client_python.Schema.Avro.Results.{results, results-uncached}
use pulsar_client_python.Schema.Avro.Delivered.{Sent}
use pulsar_client_python.Schema.Json.{JsonText}
use pulsar_client_python.Tests.Records.{no_options}

abbrev pub counter : RecordClass
counter = class 30 [] "Counter" none true (declare "n" (scalar Scalar.integer no_options) no_fields)

abbrev pub count : ℤ → Attributes
count n = attribute "n" (Value.int n) bare

abbrev pub counter_schema : Entries
counter_schema = entry (Value.str "name") (Value.str "Counter") end

unfoldable pub as_bytes : Value → Result Bytes
as_bytes
      (Value.dict
        (entry _ _ (entry _ _ (entry _ _ (entry (Value.str k) (Value.int (pos n)) end))))) =
    if str_eq k "n" then ok (n ∷ []) else raise foreign
as_bytes _ = raise foreign

unfoldable pub as_number : Bytes → Result Value
as_number (n ∷ []) = ok (Value.dict (entry (Value.str "n") (Value.int (pos n)) end))
as_number _ = raise foreign

-- A client that knows the schema of version 1.
abbrev pub numbers : Externals
numbers = record {
  get_schema_info = λ _ v. ok (record { is_avro = true; definition = "{}" });
  loads = λ _. ok (Value.dict counter_schema);
  read_datum = λ b _ _. as_number b;
  write_datum = λ _ v. as_bytes v;
  make_schema_info = λ _. ok tt;
}

pub as_number-as_bytes :
    (a : Attributes) (b : Bytes)
    → as_bytes (serialized (Value.object counter plain a)) ≡ ok b
    → as_number b ≡ ok (datum (Value.object counter plain a))
unfolding as_bytes as_number serialized dict_of
as_number-as_bytes (attribute k (Value.int (pos n)) bare) b h = elim (Bool-cases (str_eq k "n")) [
  | inl e ↦ let is : n ∷ [] ≡ b = ground arith in rw (← is, (str_eq_iff k "n").0 e, as_number) refl
  | inr e ↦ ground arith
]
as_number-as_bytes a b h = ground arith

abbrev sent : ℕ → Sent
sent n = record {
  attributes = count (pos n);
  message = record { topic = "t"; version = pos n; content = n ∷ [] };
}

abbrev pub counters : AvroState
counters = record {
  record_class = some counter;
  reader_schema = Value.dict counter_schema;
  writer_schemas = [];
  client = unset;
  downloads = [];
}

results-uncached_example :
    results numbers ((sent 1).message ∷ (sent 1).message ∷ []) (attach_client true counters)
    ≡ uncached numbers counters "t" (pos 1) (1 ∷ [])
      ∷ uncached numbers counters "t" (pos 1) (1 ∷ [])
      ∷ []
unfolding init_avro
results-uncached_example =
    results-uncached numbers (some (counter, Value.dict counter_schema)) Value.null counters
      ((sent 1).message ∷ (sent 1).message ∷ []) refl

-- A `json` module that reads nothing.
abbrev pub no_json : JsonText
no_json = record { key_text = λ _. raise foreign; dumps = λ _. []; loads = λ _. raise foreign }
