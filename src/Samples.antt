-- ===== src/Samples.antt =====
-- Data for the tests and the examples: a JSON reader that knows a list of texts, and a service
-- that answers from a list.
use duckdb_superhuman_docs.Base.{
  ℕ, Text, List, [], ◌∷◌, String, Option, none, some, Result, ok, err, codes, text_eq,
  if◌then◌else◌, json_message, sdk_message, true, false,
}
use duckdb_superhuman_docs.Json.{
  Value, Serde, number, string, array, object, Items, nil, cons, Fields, end, field,
}
use duckdb_superhuman_docs.Model.{ClientConfig}
use duckdb_superhuman_docs.Sdk.Calls.{SdkClient, Network}

-- `serde_json::from_str` on the texts that a test names.
unfoldable pub read_known : List (String × Value ℕ) → Text → Result (Value ℕ)
unfolding text_eq
read_known [] body = err (json_message (codes "expected value"))
read_known ((text, value) ∷ known) body =
    if text_eq (codes text) body then ok value else read_known known body

abbrev pub sample_serde : List (String × Value ℕ) → Serde ℕ ℕ
sample_serde known = record {
  from_str = read_known known;
  value_text = λ v. codes "json";
  json_i64 = λ n. number 7;
  json_u64 = λ n. number n;
  json_f64 = λ n. number n;
  as_f64 = λ n. some n;
  float_text = λ n. codes "1.5";
  parse_f64 = λ t. none;
  hundredth = λ n. n;
}

-- `{"name": value, …}`
abbrev pub obj : List (String × Value ℕ) → Value ℕ
obj l = object (fields l)
  where
    fields : List (String × Value ℕ) → Fields ℕ
    fields [] = end
    fields ((k, v) ∷ l) = field (codes k) v (fields l)

abbrev pub arr : List (Value ℕ) → Value ℕ
arr l = array (elements l)
  where
    elements : List (Value ℕ) → Items ℕ
    elements [] = nil
    elements (v ∷ l) = cons v (elements l)

abbrev pub str : String → Value ℕ
str s = string (codes s)

-- The world of a test: the answers that are still to come, and the time in nanoseconds.
pub record World : Type 0 where
  pub answers : List (Result Text)
  pub time : ℕ

abbrev pub world : List String → World
world l = record { answers = texts l; time = 0 }
  where
    texts : List String → List (Result Text)
    texts [] = []
    texts (t ∷ l) = ok (codes t) ∷ texts l

unfoldable pub answer : List (Result Text) → World → Result Text × World
answer [] w = (err (sdk_message (codes "no answer")), w)
answer (a ∷ rest) w = (a, record w { answers = rest })

abbrev pub sample_sdk : SdkClient World ℕ
sample_sdk = record {
  execute = λ call w. answer w.answers w;
  execute_accepting_status = λ status call w. accepted (answer w.answers w);
}
  where
    accepted : Result Text × World → Result (Option Text) × World
    accepted (ok body, w) = (ok (some body), w)
    accepted (err e, w) = (err e, w)

abbrev pub sample_network : Network World ℕ
sample_network = record {
  default_base_url = codes "https://api";
  at = λ base credential. ok sample_sdk;
}

abbrev pub sample_config : ClientConfig
sample_config = record {
  resource = codes "doc";
  credential = codes "token";
  endpoint = [];
  include_system_columns = true;
  wait_for_mutations = true;
  mutation_timeout_seconds = 2;
  allow_mutation_warnings = false;
}
