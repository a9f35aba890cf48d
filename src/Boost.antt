-- ===== src/Boost.antt =====
-- What the server takes from Boost, as a parameter of the model: json::value of Boost.JSON and
-- boost::container::flat_set. The laws are those that their documentation states.
use Prim.Native.String.{String}
use text.Mathlib.Text.{◌==◌ as str_eq}
use beast_lounge.Base.{
  ℕ, ◌≡◌, Bool, false, not, ◌&&◌, ◌||◌, List, [], ◌∷◌, Option, none, some, ◌==◌, count,
  if◌then◌else◌,
}
use beast_lounge.Base.Int.{ℤ}

-- is_null(), is_bool(), is_number(), is_string(), is_array(), is_object()
pub data Kind : Type 0 where
  null_kind bool_kind number_kind string_kind array_kind object_kind : Kind

-- The first member of that key.
abbrev pub lookup {ℓ} : {V : Type ℓ} → String → List (String × V) → Option V
lookup k [] = none
lookup k ((j, v) ∷ members) = if str_eq j k then some v else lookup k members

pub record Boost : Type 1 where
  -- json::value
  pub Value : Type 0
  pub kind : Value → Kind
  -- as_string(), of a string
  pub as_string : Value → String
  -- as_object().find(key): the value, or end()
  pub find : String → Value → Option Value
  -- json::number_cast<std::size_t>: `none` is a throw of system_error.
  pub number_cast : Value → Option ℕ
  pub null : Value
  pub string : String → Value
  pub integer : ℤ → Value
  pub array : List Value → Value
  -- An object of these members, inserted in this order; no key is given twice.
  pub object : List (String × Value) → Value
  pub kind-null : kind null ≡ null_kind
  pub kind-string : (s : String) → kind (string s) ≡ string_kind
  pub kind-object : (members : List (String × Value)) → kind (object members) ≡ object_kind
  pub as_string-string : (s : String) → as_string (string s) ≡ s
  pub find-object :
      (k : String) (members : List (String × Value)) → find k (object members) ≡ lookup k members
  -- flat_set, of addresses
  pub FlatSet : Type 0
  pub empty : FlatSet
  -- find(a) != end()
  pub contains : ℕ → FlatSet → Bool
  -- The set after insert(a), whose .second says whether it was not there.
  pub insert : ℕ → FlatSet → FlatSet
  -- The set after erase(a), which returns how many were there.
  pub erase : ℕ → FlatSet → FlatSet
  -- begin() to end()
  pub elements : FlatSet → List ℕ
  pub contains-empty : (a : ℕ) → contains a empty ≡ false
  pub contains-insert : (a b : ℕ) (s : FlatSet) → contains a (insert b s) ≡ (a == b) || contains a s
  pub contains-erase :
      (a b : ℕ) (s : FlatSet) → contains a (erase b s) ≡ not (a == b) && contains a s
  pub count-elements :
      (a : ℕ) (s : FlatSet) → count a (elements s) ≡ (if contains a s then 1 else 0)
