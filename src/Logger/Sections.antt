-- ===== src/Logger/Sections.antt =====
-- The sections of the logger of server/core/logger.cpp.
use Prim.Native.String.{String}
use text.Mathlib.Text.{◌==◌ as str_eq}
use text.Mathlib.TextEquality.{eq_iff}
use beast_lounge.Base.{
  ℕ, suc, ◌≡◌, ◌<◌, ◌↔◌, refl, sym, ap, ◌∙◌, subst, Bool, true, false, Bool-cases, inl, inr, ◌⊎◌,
  none, some, Option-cases, List, [], ◌∷◌, ◌++◌, if◌then◌else◌, arith,
}
use beast_lounge.Logger.{Section, Logger, new_logger, find_section, get_section}

-- A section is found under at most one name, and was constructed.
pub record Distinct (log : Logger) : Type 0 where
  one_name :
      (m n : String) (p : ℕ)
      → find_section m log.sections ≡ some p
      → find_section n log.sections ≡ some p
      → m ≡ n
  made : (n : String) (p : ℕ) → find_section n log.sections ≡ some p → p < log.next

-- The names that the code asks for, one after the other.
abbrev pub ask : List String → Logger → Logger
ask [] log = log
ask (n ∷ names) log = ask names (get_section n log).1

find-append :
    (n : String) (xs : List (ℕ × Section)) (p : ℕ) (s : Section)
    → find_section n (xs ++ (p, s) ∷ []) ≡ elim (find_section n xs) [
      | some q ↦ some q
      | none ↦ if str_eq s.name n then some p else none
    ]
unfolding find_section
find-append n [] p s = refl
find-append n ((q, t) ∷ xs) p s = elim (Bool-cases (str_eq t.name n)) [
  | inl same ↦ rw same refl
  | inr other ↦ rw other (find-append n xs p s)
]

some_inj {ℓ} : {A : Type ℓ} {a b : A} → some a ≡ some b → a ≡ b
some_inj e = cc

-- The sections after get_section made one
extended : String → Logger → List (ℕ × Section)
extended k log = log.sections ++ (log.next, record { name = k; thresh = 0 }) ∷ []

found-extended :
    (log : Logger) (k n : String)
    → find_section n (extended k log) ≡ elim (find_section n log.sections) [
      | some q ↦ some q
      | none ↦ if str_eq k n then some log.next else none
    ]
unfolding extended
found-extended log k n = find-append n log.sections log.next (record { name = k; thresh = 0 })

extended-else :
    (log : Logger) (k n : String) (b : Bool)
    → find_section n log.sections ≡ none
    → str_eq k n ≡ b
    → find_section n (extended k log) ≡ (if b then some log.next else none)
extended-else log k n b e same = found-extended log k n ∙ rw (e, same) refl

none≢some : {p : ℕ} → ¬ (none ≡ some p)
none≢some e = cc

-- What was found stays, and what is found was there or is the new one.
extended-old :
    (log : Logger) (k n : String) (p : ℕ)
    → find_section n log.sections ≡ some p
    → find_section n (extended k log) ≡ some p
extended-old log k n p e = found-extended log k n ∙ rw e refl

extended-new :
    (log : Logger) (k : String)
    → find_section k log.sections ≡ none
    → find_section k (extended k log) ≡ some log.next
extended-new log k e = found-extended log k k ∙ rw (e, (eq_iff k k).1 refl) refl

extended-only :
    (log : Logger) (k n : String) (p : ℕ)
    → find_section n (extended k log) ≡ some p
    → (find_section n log.sections ≡ some p) ⊎ ((k ≡ n) × (p ≡ log.next))
extended-only log k n p h = elim (Option-cases (find_section n log.sections)) [
  | inr (q, e) ↦ inl (e ∙ sym (extended-old log k n q e) ∙ h)
  | inl e ↦ elim (Bool-cases (str_eq k n)) [
    | inl same ↦ inr ((eq_iff k n).0 same, some_inj (sym h ∙ extended-else log k n true e same))
    | inr other ↦ absurd (none≢some (sym (extended-else log k n false e other) ∙ h))
  ]
]

get_section-old :
    (k : String) (log : Logger) (p : ℕ)
    → find_section k log.sections ≡ some p
    → get_section k log ≡ (p, log)
unfolding get_section
get_section-old k log p e = rw (e, get_section) refl

get_section-new :
    (k : String) (log : Logger)
    → find_section k log.sections ≡ none
    → get_section k log ≡ (log.next, record log { sections = extended k log; next = suc log.next })
unfolding get_section extended
get_section-new k log e = rw (e, get_section) refl

-- What a call returns is found under its name from then on, whatever else is asked for.
get_section-found :
    (k : String) (log : Logger)
    → find_section k (get_section k log).1.sections ≡ some (get_section k log).0
get_section-found k log = elim (Option-cases (find_section k log.sections)) [
  | inr (p, e) ↦
      subst (λ r. find_section k r.1.sections ≡ some r.0) (sym (get_section-old k log p e)) e
  | inl e ↦
      subst (λ r. find_section k r.1.sections ≡ some r.0) (sym (get_section-new k log e))
        (extended-new log k e)
]

get_section-kept :
    (k n : String) (log : Logger) (p : ℕ)
    → find_section n log.sections ≡ some p
    → find_section n (get_section k log).1.sections ≡ some p
get_section-kept k n log p h = elim (Option-cases (find_section k log.sections)) [
  | inr (q, e) ↦
      subst (λ r. find_section n r.1.sections ≡ some p) (sym (get_section-old k log q e)) h
  | inl e ↦
      subst (λ r. find_section n r.1.sections ≡ some p) (sym (get_section-new k log e))
        (extended-old log k n p h)
]

ask-kept :
    (names : List String) (n : String) (log : Logger) (p : ℕ)
    → find_section n log.sections ≡ some p
    → find_section n (ask names log).sections ≡ some p
ask-kept [] n log p h = h
ask-kept (k ∷ names) n log p h =
    ask-kept names n (get_section k log).1 p (get_section-kept k n log p h)

extended-Distinct :
    (k : String) (log : Logger)
    → find_section k log.sections ≡ none
    → Distinct log
    → Distinct (record log { sections = extended k log; next = suc log.next })
extended-Distinct k log e d = record { one_name = one_name; made = made }
  where
    made : (n : String) (p : ℕ) → find_section n (extended k log) ≡ some p → p < suc log.next
    made n p h = elim (extended-only log k n p h) [
      | inl old ↦ let before = d.made n p old in omega arith
      | inr (same, new) ↦ omega arith
    ]

    one_name :
        (m n : String) (p : ℕ)
        → find_section m (extended k log) ≡ some p
        → find_section n (extended k log) ≡ some p
        → m ≡ n
    one_name m n p h h' = elim (extended-only log k m p h) [
      | inl old ↦ elim (extended-only log k n p h') [
        | inl old' ↦ d.one_name m n p old old'
        | inr (same, new) ↦ let before = d.made m p old in absurd (omega arith)
      ]
      | inr (same, new) ↦ elim (extended-only log k n p h') [
        | inl old' ↦ let before = d.made n p old' in absurd (omega arith)
        | inr (same', new') ↦ sym same ∙ same'
      ]
    ]

get_section-Distinct : (k : String) (log : Logger) → Distinct log → Distinct (get_section k log).1
get_section-Distinct k log d = elim (Option-cases (find_section k log.sections)) [
  | inr (p, e) ↦ subst (λ r. Distinct r.1) (sym (get_section-old k log p e)) d
  | inl e ↦ subst (λ r. Distinct r.1) (sym (get_section-new k log e)) (extended-Distinct k log e d)
]

ask-Distinct : (names : List String) (log : Logger) → Distinct log → Distinct (ask names log)
ask-Distinct [] log d = d
ask-Distinct (k ∷ names) log d =
    ask-Distinct names (get_section k log).1 (get_section-Distinct k log d)

new_logger-Distinct : Distinct new_logger
unfolding find_section
new_logger-Distinct = record {
  one_name = λ m n p h h'. absurd (none≢some h);
  made = λ n p h. absurd (none≢some h);
}

-- On a logger made anew, whatever sections were asked for before and between: two calls of get_section()
-- return the same section exactly where they give the same name.
pub get_section-get_section :
    (before between : List String) (m n : String)
    → let log : Logger = ask before new_logger in
      let first : ℕ × Logger = get_section m log in
      ((get_section n (ask between first.1)).0 ≡ first.0) ↔ (m ≡ n)
get_section-get_section before between m n =
    let log : Logger = ask before new_logger in
    let first : ℕ × Logger = get_section m log in
    let later : Logger = ask between first.1 in
    let d : Distinct later =
      ask-Distinct between first.1
        (get_section-Distinct m log (ask-Distinct before new_logger new_logger-Distinct)) in
    let kept : find_section m later.sections ≡ some first.0 =
      ask-kept between m first.1 first.0 (get_section-found m log) in
    let e : find_section m (get_section n later).1.sections ≡ some first.0 =
      get_section-kept n m later first.0 kept in
    let found = get_section-found n later in
    (
      λ same. (get_section-Distinct n later d).one_name m n first.0 e (found ∙ ap some same),
      λ same.
          some_inj
            (sym (ap (λ k. find_section k (get_section n later).1.sections) same ∙ found) ∙ e),
    )
