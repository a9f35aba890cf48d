-- ===== src/Examples/Json.antt =====
-- A small JSON value and a set of numbers, with which the parameter Boost is a concrete one.
use Prim.Native.String.{String}
use text.Mathlib.Text.{◌==◌ as str_eq}
use beast_lounge.Base.{
  ℕ, ◌≡◌, refl, Bool, true, false, not, ◌&&◌, ◌||◌, List, [], ◌∷◌, Option, none, some, arith, ◌==◌,
  if◌then◌else◌, count, Bool-cases, inl, inr, ap, ==_iff,
}
use beast_lounge.Base.Int.{ℤ, pos}
use beast_lounge.Boost.{
  Boost, Kind, null_kind, number_kind, string_kind, array_kind, object_kind, lookup,
}

mutual
  pub data Json : Type 0 where
    nothing : Json
    number : ℤ → Json
    quoted : String → Json
    items : Json → Json → Json
    no_items : Json
    members : Members → Json

  pub data Members : Type 0 where
    end : Members
    member : String → Json → Members → Members

abbrev pub json_kind : Json → Kind
json_kind nothing = null_kind
json_kind (number n) = number_kind
json_kind (quoted s) = string_kind
json_kind (items x xs) = array_kind
json_kind no_items = array_kind
json_kind (members m) = object_kind

abbrev pub json_string : Json → String
json_string (quoted s) = s
json_string _ = ""

abbrev pub find_member : String → Members → Option Json
find_member k end = none
find_member k (member j v m) = if str_eq j k then some v else find_member k m

abbrev pub json_find : String → Json → Option Json
json_find k (members m) = find_member k m
json_find k _ = none

abbrev pub json_size : Json → Option ℕ
json_size (number (pos n)) = some n
json_size _ = none

abbrev pub json_array : List Json → Json
json_array [] = no_items
json_array (x ∷ xs) = items x (json_array xs)

abbrev pub to_members : List (String × Json) → Members
to_members [] = end
to_members ((k, v) ∷ m) = member k v (to_members m)

pub find-members :
    (k : String) (m : List (String × Json)) → find_member k (to_members m) ≡ lookup k m
find-members k [] = refl
find-members k ((j, v) ∷ m) = elim (Bool-cases (str_eq j k)) [
  | inl h ↦ rw h refl
  | inr h ↦ rw h (find-members k m)
]

abbrev pub has : ℕ → List ℕ → Bool
has a [] = false
has a (b ∷ s) = (a == b) || has a s

abbrev pub without : ℕ → List ℕ → List ℕ
without b [] = []
without b (c ∷ s) = let rest = without b s in if c == b then rest else c ∷ rest

abbrev pub once : List ℕ → List ℕ
once [] = []
once (b ∷ s) = let rest = once s in if has b s then rest else b ∷ rest

same_left : (a b c : ℕ) → (c == b) ≡ true → (a == c) ≡ (a == b)
same_left a b c h = ground arith

pub has-without : (a b : ℕ) (s : List ℕ) → has a (without b s) ≡ not (a == b) && has a s
has-without a b [] = ground arith
has-without a b (c ∷ s) = elim (Bool-cases (c == b)) [
  | inl h ↦ rw h (ground (arith, has-without a b s, same_left a b c h))
  | inr h ↦ rw h (ground (arith, has-without a b s))
]

has_equal : (a b : ℕ) (s : List ℕ) → (a == b) ≡ true → has a s ≡ has b s
has_equal a b s h = ap (λ k. has k s) ((==_iff a b).0 h)

pub count-once : (a : ℕ) (s : List ℕ) → count a (once s) ≡ (if has a s then 1 else 0)
unfolding count
count-once a [] = ground arith
count-once a (b ∷ s) = elim (Bool-cases (has b s)) [
  | inl h ↦ rw h (ground (arith, count-once a s, has_equal a b s))
  | inr h ↦ rw h (ground (arith, count-once a s, has_equal a b s))
]

abbrev pub test_boost : Boost
test_boost = record {
  Value = Json;
  kind = json_kind;
  as_string = json_string;
  find = json_find;
  number_cast = json_size;
  null = nothing;
  string = quoted;
  integer = number;
  array = json_array;
  object = λ m. members (to_members m);
  kind-null = refl;
  kind-string = λ s. refl;
  kind-object = λ m. refl;
  as_string-string = λ s. refl;
  find-object = find-members;
  FlatSet = List ℕ;
  empty = [];
  contains = has;
  insert = λ a s. a ∷ s;
  erase = without;
  elements = once;
  contains-empty = λ a. refl;
  contains-insert = λ a b s. refl;
  contains-erase = has-without;
  count-elements = count-once;
}
