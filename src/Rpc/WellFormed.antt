-- ===== src/Rpc/WellFormed.antt =====
-- Which values extract() accepts, against a description of the requests.
use text.Mathlib.TextEquality.{eq_iff}
use beast_lounge.Base.{ℕ, ◌≡◌, ◌≢◌, ◌⊎◌, ◌↔◌, inl, inr, Option, none, some, arith, Option-cases}
use beast_lounge.Boost.{Boost, Kind, number_kind, string_kind, array_kind, object_kind}
use beast_lounge.Rpc.{new_call}
use beast_lounge.Rpc.Extract.{take_id, take_version, check_id, take_method, take_params, extract}

module _ ⦃B : Boost⦄ where
  open B use {Value, kind, as_string, find, null}

  -- A member of a request of version 2.0: an id that may be left out, or is a number or a string.
  abbrev IdOk : Option Value → Type 0
  IdOk none = Unit {0}
  IdOk (some v) = (kind v ≡ number_kind) ⊎ (kind v ≡ string_kind)

  -- Parameters that may be left out, or are an object or an array.
  abbrev ParamsOk : Option Value → Type 0
  ParamsOk none = Unit {0}
  ParamsOk (some v) = (kind v ≡ object_kind) ⊎ (kind v ≡ array_kind)

  abbrev IsOf : Kind → Option Value → Type 0
  IsOf k none = ⊥
  IsOf k (some v) = kind v ≡ k

  abbrev IsTwo : Option Value → Type 0
  IsTwo none = ⊥
  IsTwo (some v) = (kind v ≡ string_kind) × (as_string v ≡ "2.0")

  -- A request of version 2.0, or of version 1.0, which has no "jsonrpc" member.
  pub data IsRequest (jv : Value) : Type 0 where
    version_2 :
        kind jv ≡ object_kind
        → IsTwo (find "jsonrpc" jv)
        → IdOk (find "id" jv)
        → IsOf string_kind (find "method" jv)
        → ParamsOk (find "params" jv)
        → IsRequest jv
    version_1 :
        kind jv ≡ object_kind
        → find "jsonrpc" jv ≡ none
        → find "id" jv ≢ none
        → IsOf string_kind (find "method" jv)
        → IsOf array_kind (find "params" jv)
        → IsRequest jv

  -- What the early returns leave out, one member at a time.
  module _ (jv : Value) (u : ℕ) (h : (extract jv (new_call u)).1 ≡ none) where
    is_object_of : kind jv ≡ object_kind
    unfolding extract
    is_object_of = ground arith

    method-IsOf : IsOf string_kind (find "method" jv)
    unfolding extract take_method
    method-IsOf = ground arith

    module _ (e : find "jsonrpc" jv ≡ none) where
      id_of_1 : find "id" jv ≢ none
      unfolding extract take_id take_version check_id new_call
      id_of_1 = ground arith

      params-IsOf_1 : IsOf array_kind (find "params" jv)
      unfolding extract take_id take_version check_id take_method take_params
      params-IsOf_1 = ground arith

    module _ (w : Value) (e : find "jsonrpc" jv ≡ some w) where
      version_of_2 : IsTwo (some w)
      unfolding extract take_version take_id
      version_of_2 = ground (arith, eq_iff (as_string w) "2.0")

      id_of_2 : IdOk (find "id" jv)
      unfolding extract take_id take_version check_id new_call
      id_of_2 = ground arith

      params_of_2 : ParamsOk (find "params" jv)
      unfolding extract take_id take_version check_id take_method take_params
      params_of_2 = ground arith

  extract-IsRequest : (jv : Value) (u : ℕ) → (extract jv (new_call u)).1 ≡ none → IsRequest jv
  extract-IsRequest jv u h = elim (Option-cases (find "jsonrpc" jv)) [
    | inl e ↦
        version_1 (is_object_of jv u h) e (id_of_1 jv u h e) (method-IsOf jv u h)
          (params-IsOf_1 jv u h e)
    | inr (w, e) ↦
        version_2 (is_object_of jv u h) (rw e (version_of_2 jv u h w e)) (id_of_2 jv u h w e)
          (method-IsOf jv u h) (params_of_2 jv u h w e)
  ]

  IsRequest-extract : (jv : Value) (u : ℕ) → IsRequest jv → (extract jv (new_call u)).1 ≡ none
  unfolding extract take_id take_version check_id take_method take_params new_call
  IsRequest-extract jv u (version_2 o v i m p) = elim (Option-cases (find "jsonrpc" jv)) [
    | inl e ↦ ground arith
    | inr (w, e) ↦ ground (arith, eq_iff (as_string w) "2.0")
  ]
  IsRequest-extract jv u (version_1 o v i m p) = ground arith

  -- extract() reports no error exactly for a request: an object with a string "method" that either
  -- has "jsonrpc" with the string "2.0", a number or a string, and not null, as "id" if it has one, and an
  -- object or an array as "params" if it has them, or has no "jsonrpc", an "id" of any kind, and an array
  -- as "params".
  pub extract-ok_iff : (jv : Value) (u : ℕ) → ((extract jv (new_call u)).1 ≡ none) ↔ IsRequest jv
  extract-ok_iff jv u = (extract-IsRequest jv u, IsRequest-extract jv u)

  -- Of an object extract() keeps the "id" member, whatever error it reports, so that the response can
  -- have it.
  pub extract-id :
      (jv : Value) (u : ℕ) → kind jv ≡ object_kind → (extract jv (new_call u)).0.id ≡ find "id" jv
  unfolding extract take_id take_version check_id take_method take_params new_call
  extract-id jv u o = ground arith

  abbrev pub or_null : Option Value → Value
  or_null none = null
  or_null (some v) = v

  -- An accepted request hands on its user.
  pub extract-user :
      (jv : Value) (u : ℕ)
      → (extract jv (new_call u)).1 ≡ none
      → (extract jv (new_call u)).0.user ≡ u
  unfolding extract take_id take_version check_id take_method take_params new_call
  extract-user jv u h = ground arith

  -- An accepted request hands on its user, the string of its "method" member as the method, and its
  -- "params" member, or null if it has none.
  pub extract-members :
      (jv v : Value) (u : ℕ)
      → (extract jv (new_call u)).1 ≡ none
      → find "method" jv ≡ some v
      → ((extract jv (new_call u)).0.user ≡ u)
        × ((extract jv (new_call u)).0.method ≡ as_string v)
        × ((extract jv (new_call u)).0.params ≡ or_null (find "params" jv))
  unfolding extract take_id take_version check_id take_method take_params new_call
  extract-members jv v u h e = (ground arith, ground arith, ground arith)

  -- The parameters of an accepted request of version 1.0 are an array.
  pub extract-version_1 :
      (jv : Value) (u : ℕ)
      → (extract jv (new_call u)).1 ≡ none
      → find "jsonrpc" jv ≡ none
      → kind (extract jv (new_call u)).0.params ≡ array_kind
  unfolding extract take_id take_version check_id take_method take_params
  extract-version_1 jv u h e = ground arith
