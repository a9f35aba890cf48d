-- ===== src/Http/Below.antt =====
-- The path that handle_request() of server/core/http_session.cpp opens stays below the document root.
use Prim.Native.Char.{Char, code}
use Prim.Native.String.{String, [], ◌∷◌, ◌++◌}
use text.Mathlib.TextLemmas.{append_assoc, nil-append, cons-append}
use beast_lounge.Base.{
  ◌≡◌, refl, sym, ap, subst, ◌∙◌, Bool, true, false, Bool-cases, inl, inr, some, List, ◌&&◌, ◌||◌,
  not, ◌==◌, if◌then◌else◌,
}
use beast_lounge.Http.{
  starts_dots, has_dots, ends_slash, drop_last, path_cat, Request, Opened, Beast, starts_slash,
  is_other, request_path, handle_request,
}

-- The names between the slashes of a path.
abbrev onto : Char → List String → List String
onto c List.[] = List.◌∷◌ (c ∷ []) List.[]
onto c (List.◌∷◌ x xs) = List.◌∷◌ (c ∷ x) xs

unfoldable pub names : String → List String
names [] = List.◌∷◌ "" List.[]
names (c ∷ path) = let rest = names path in if code c == b'/' then List.◌∷◌ "" rest else onto c rest

-- Whether a name is that of the parent, "..", and whether there is one.
unfoldable pub is_parent : String → Bool
is_parent [] = false
is_parent (c ∷ []) = false
is_parent (c ∷ d ∷ []) = code c == b'.' && code d == b'.'
is_parent (c ∷ d ∷ e ∷ rest) = false

unfoldable pub has_parent : List String → Bool
unfolding is_parent
has_parent List.[] = false
has_parent (List.◌∷◌ name rest) = is_parent name || has_parent rest

or-none : (a b : Bool) → a ≡ false → b ≡ false → (a || b) ≡ false
or-none a b ha hb = ap (λ x. x || b) ha ∙ hb

none_left : (a b : Bool) → (a || b) ≡ false → a ≡ false
none_left true b h = h
none_left false b h = refl

true_of_not : (a : Bool) → not a ≡ false → a ≡ true
true_of_not true h = refl
true_of_not false h = absurd cc

none_right : (a b : Bool) → (a || b) ≡ false → b ≡ false
none_right true b h = absurd cc
none_right false b h = h

is_parent-starts :
    (c d : Char) (x : String)
    → (code c == b'.' && code d == b'.') ≡ false
    → is_parent (c ∷ d ∷ x) ≡ false
unfolding is_parent
is_parent-starts c d [] h = h
is_parent-starts c d (e ∷ x) h = refl

has_parent-if :
    (f : List String → List String) (b : Bool) (x y : List String)
    → has_parent (f x) ≡ false
    → has_parent (f y) ≡ false
    → has_parent (f (if b then x else y)) ≡ false
has_parent-if f true x y hx hy = hx
has_parent-if f false x y hx hy = hy

module _ (c d : Char) (h : (code c == b'.' && code d == b'.') ≡ false) where
  has_parent-onto_2 :
      (xs : List String) → has_parent xs ≡ false → has_parent (onto c (onto d xs)) ≡ false
  unfolding has_parent
  has_parent-onto_2 List.[] hx = or-none _ _ (is_parent-starts c d [] h) refl
  has_parent-onto_2 (List.◌∷◌ x xs) hx =
      or-none _ _ (is_parent-starts c d x h) (none_right (is_parent x) _ hx)

has_parent-names : (path : String) → has_dots path ≡ false → has_parent (names path) ≡ false
unfolding has_parent names has_dots starts_dots is_parent
has_parent-names [] h = refl
has_parent-names (c ∷ []) h = has_parent-if (λ xs. xs) (code c == b'/') _ _ refl refl
has_parent-names (c ∷ d ∷ path) h =
    let later = none_right (starts_dots (c ∷ d ∷ path)) _ h in
    let tail = has_parent-names path (none_right (starts_dots (d ∷ path)) _ later) in
    has_parent-if (λ xs. xs) (code c == b'/') _ _ (has_parent-names (d ∷ path) later)
      (has_parent-if (onto c) (code d == b'/') _ _ tail
        (has_parent-onto_2 c d (none_left _ (has_dots (d ∷ path)) h) (names path) tail))

-- What is appended begins with no dot and contains none twice.
has_dots-append :
    (s t : String)
    → ((c : Char) → starts_dots (c ∷ t) ≡ false)
    → has_dots t ≡ false
    → has_dots s ≡ false
    → has_dots (s ++ t) ≡ false
unfolding has_dots starts_dots
has_dots-append [] t start ht hs = ap has_dots (nil-append t) ∙ ht
has_dots-append (c ∷ []) t start ht hs =
    ap has_dots (cons-append c [] t ∙ ap (λ s. c ∷ s) (nil-append t))
    ∙ or-none (starts_dots (c ∷ t)) _ (start c) ht
has_dots-append (c ∷ d ∷ s) t start ht hs =
    ap has_dots (cons-append c (d ∷ s) t)
    ∙ or-none (starts_dots (c ∷ ((d ∷ s) ++ t))) _
        (first ∙ none_left (starts_dots (c ∷ d ∷ s)) _ hs)
        (has_dots-append (d ∷ s) t start ht (none_right (starts_dots (c ∷ d ∷ s)) _ hs))
  where
    first : starts_dots (c ∷ ((d ∷ s) ++ t)) ≡ starts_dots (c ∷ d ∷ s)
    first = ap (λ s. starts_dots (c ∷ s)) (cons-append d s t)

-- A document root without the slash at its end.
abbrev pub root : String → String
root doc_root = if ends_slash doc_root then drop_last doc_root else doc_root

path_cat-root : (doc_root path : String) → path_cat doc_root path ≡ root doc_root ++ path
unfolding path_cat ends_slash
path_cat-root [] path = sym (nil-append path)
path_cat-root (c ∷ doc_root) path = refl

-- A path below the document root: what follows the root begins with a slash, and no name in it is "..".
pub record Below (doc_root path : String) : Type 0 where
  below : String
  is_path : path ≡ root doc_root ++ below
  rooted : starts_slash below ≡ true
  no_parent : has_parent (names below) ≡ false

request_path-Below :
    (doc_root target : String)
    → starts_slash target ≡ true
    → has_dots target ≡ false
    → Below doc_root (request_path doc_root target)
unfolding request_path starts_slash starts_dots has_dots
request_path-Below doc_root target slash plain = elim (Bool-cases (ends_slash target)) [
  | inl directory ↦ record {
    below = target ++ "index.html";
    is_path =
        ap (λ b. if b then path ++ "index.html" else path) directory
        ∙ ap (λ p. p ++ "index.html") (path_cat-root doc_root target)
        ∙ append_assoc (root doc_root) target "index.html";
    rooted = starts_slash-append target slash;
    no_parent =
        has_parent-names (target ++ "index.html")
          (has_dots-append target "index.html" dot_last refl plain);
  }
  | inr file ↦ record {
    below = target;
    is_path =
        ap (λ b. if b then path ++ "index.html" else path) file ∙ path_cat-root doc_root target;
    rooted = slash;
    no_parent = has_parent-names target plain;
  }
]
  where
    path : String
    path = path_cat doc_root target

    starts_slash-append :
        (t : String) → starts_slash t ≡ true → starts_slash (t ++ "index.html") ≡ true
    starts_slash-append [] h = absurd cc
    starts_slash-append (c ∷ t) h = ap starts_slash (cons-append c t "index.html") ∙ h

    dot_last : (c : Char) → starts_dots (c ∷ "index.html") ≡ false
    dot_last c = elim (Bool-cases (code c == b'.')) [
      | inl dot ↦ rw dot refl
      | inr other ↦ rw other refl
    ]

some_path : {p q : String} → some p ≡ some q → p ≡ q
some_path h = cc

module _ (beast : Beast) where
  -- Every file that handle_request() opens lies below the document root: its path is the root, without
  -- a slash at its end, then names that each follow a slash, and none of them is "..".
  pub opened-Below :
      (opens : String → Opened) (doc_root : String) (req : Request) (path : String)
      → (handle_request beast opens doc_root req).0 ≡ some path
      → Below doc_root path
  unfolding handle_request
  opened-Below opens doc_root req path = elim (Bool-cases (is_other req.method)) [
    | inl unknown ↦ rw unknown (λ h. absurd cc)
    | inr known ↦ elim (Bool-cases (not (starts_slash req.target) || has_dots req.target)) [
      | inl illegal ↦ rw (known, illegal) (λ h. absurd cc)
      | inr legal ↦
          rw (known, legal)
            (λ h. subst (Below doc_root) {x = request_path doc_root req.target} (some_path h) (
              request_path-Below doc_root req.target
                (true_of_not _ (none_left _ (has_dots req.target) legal))
                (none_right (not (starts_slash req.target)) _ legal)))
    ]
  ]
