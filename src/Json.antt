-- ===== src/Json.antt =====
-- common/json.hpp is a copy of nlohmann::json, so the calls of it are parameters: `J` is its value
-- type, and `none` stands for a thrown exception, `parse_error` of `parse`, `type_error` of the others.
use device_app.Base.{
  ◌==◌, if◌then◌else◌, ℕ, ◌≡◌, ◌≢◌, String, List, [], Option, some, Bool, text_key,
}
use device_app.Base.Map.{find}
use device_app.Wire.{Bytes}

pub record JsonLib (J : Type 0) : Type 0 where
  pub parse : Bytes → Option J
  pub dump : J → Bytes
  -- {{"k", v}, …}, and `json j; j["k"] = v; …` on a value that starts as null
  pub object_of : List (String × J) → J
  pub array_of : List J → J
  pub string : String → J
  pub boolean : Bool → J
  -- j[key] = v
  pub set : J → String → J → Option J
  -- j.value(key, default)
  pub value_string : J → String → String → Option String
  pub value_bool : J → String → Bool → Option Bool
  pub value_u32 : J → String → ℕ → Option ℕ
  -- j.value(key, 0.0) and j.value(key, -1), of which only is used whether they return
  pub value_number : J → String → Option (Unit {0})

-- What the library documents of these calls.
pub record JsonLaws {J : Type 0} (js : JsonLib J) : Type 0 where
  pub value_bool-object_of :
      (fs : List (String × J)) (k : String) (b d : Bool)
      → find k fs ≡ some (js.boolean b)
      → js.value_bool (js.object_of fs) k d ≡ some b
  pub value_string-object_of :
      (fs : List (String × J)) (k s d : String)
      → find k fs ≡ some (js.string s)
      → js.value_string (js.object_of fs) k d ≡ some s

pub record JsonTextLaws {J : Type 0} (js : JsonLib J) : Type 0 where
  pub parse-dump : (j : J) → js.parse (js.dump j) ≡ some j
  pub dump-ne-nil : (j : J) → js.dump j ≢ []

pub record JsonSetLaws {J : Type 0} (js : JsonLib J) : Type 0 where
  pub value_string-set :
      (j j' : J) (k s d : String)
      → js.set j k (js.string s) ≡ some j'
      → js.value_string j' k d ≡ some s
  -- A field that could be read stays readable.
  pub value_string-set_other :
      (j j' : J) (k c s t d : String)
      → js.value_string j c d ≡ some t
      → js.set j k (js.string s) ≡ some j'
      → js.value_string j' c d ≡ some (if k == c then s else t)
