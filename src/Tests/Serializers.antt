-- ===== src/Tests/Serializers.antt =====
-- Samples for pulsar/functions/serde.py.
use pulsar_client_python.Base.{◌≡◌, refl, none, some, ◌↔◌, str_eq, if◌then◌else◌}
use pulsar_client_python.Base.Int.{pos}
use pulsar_client_python.Python.Result.{ok}
use pulsar_client_python.Python.Utf8.{encode}
use pulsar_client_python.Python.Value.{Value}
use pulsar_client_python.Functions.Serde.{of, NumberTexts, serialize, deserialize, ComesBack}
use pulsar_client_python.Functions.Serde.ComingBack.{deserialize-serialize}

-- The texts of numbers as far as the number 7 goes.
abbrev texts : NumberTexts
texts = record {
  int_text = λ _. ok "7";
  float_text = λ _. "7.0";
  complex_text = λ _ _. "(7+7j)";
  int_of = λ s. if str_eq s "7" then some (pos 7) else none;
  float_of = λ s. if str_eq s "7.0" then some 7 else none;
  complex_of = λ s. if str_eq s "(7+7j)" then some (7, 7) else none;
}

deserialize-serialize_example :
    (deserialize texts (encode "7") ≡ of (Value.str "7")) ↔ ComesBack texts (of (Value.str "7"))
unfolding serialize
deserialize-serialize_example = deserialize-serialize texts (of (Value.str "7")) (encode "7") refl
