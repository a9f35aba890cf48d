-- ===== src/Program/Files.antt =====
-- parse_file of server/core/server.cpp: what it does with the file and with memory.
use Prim.Native.String.{String}
use beast_lounge.Base.{
  ℕ, ◌≡◌, refl, ◌⊎◌, inl, inr, true, false, Bool-cases, none, some, Option-cases, List, [], ◌∷◌,
}
use beast_lounge.Program.{CFile, FileAct, fopen, fclose, allocates, frees, parse_file}

-- How parse_file() ends, by the first call that fails.
pub data Parsed {ℓ} {V : Type ℓ} (parse : String → V ⊎ String) (f : CFile)
    : List FileAct × (V ⊎ String) → Type ℓ where
  not_opened : f.opened ≡ false → Parsed parse f ([], inr f.errno)
  no_end : f.opened ≡ true → f.seeks_end ≡ false → Parsed parse f (fopen ∷ fclose ∷ [], inr f.errno)
  no_position :
      f.opened ≡ true
      → f.seeks_end ≡ true
      → f.position ≡ none
      → Parsed parse f (fopen ∷ fclose ∷ [], inr f.errno)
  no_start :
      (size : ℕ)
      → f.opened ≡ true
      → f.seeks_end ≡ true
      → f.position ≡ some size
      → f.seeks_start ≡ false
      → Parsed parse f (fopen ∷ fclose ∷ [], inr f.errno)
  loses :
      (size : ℕ)
      → f.opened ≡ true
      → f.seeks_end ≡ true
      → f.position ≡ some size
      → f.seeks_start ≡ true
      → f.read_error ≡ true
      → Parsed parse f (fopen ∷ allocates size ∷ fclose ∷ [], inr f.errno)
  parses :
      (size : ℕ)
      → f.opened ≡ true
      → f.seeks_end ≡ true
      → f.position ≡ some size
      → f.seeks_start ≡ true
      → f.read_error ≡ false
      → Parsed parse f (fopen ∷ allocates size ∷ frees ∷ fclose ∷ [], parse f.bytes)

-- If every call succeeds, parse_file() gives what the parser makes of the bytes; else it stops at the first
-- call that fails and gives errno. It closes the file if it has opened it, as the last thing it does, and
-- frees the buffer if it has allocated it, except after an error of fread(), when the buffer is lost.
pub parse_file-Parsed {ℓ} :
    {V : Type ℓ} (parse : String → V ⊎ String) (f : CFile) → Parsed parse f (parse_file parse f)
unfolding parse_file
parse_file-Parsed parse f = elim (Bool-cases f.opened) [
  | inr closed ↦ rw closed (not_opened refl)
  | inl opened ↦ elim (Bool-cases f.seeks_end) [
    | inr e ↦ rw (opened, e) (no_end refl refl)
    | inl e ↦ elim (Option-cases f.position) [
      | inl p ↦ rw (opened, e, p) (no_position refl refl refl)
      | inr (size, p) ↦ elim (Bool-cases f.seeks_start) [
        | inr b ↦ rw (opened, e, p, b) (no_start size refl refl refl refl)
        | inl b ↦ elim (Bool-cases f.read_error) [
          | inl r ↦ rw (opened, e, p, b, r) (loses size refl refl refl refl refl)
          | inr r ↦ rw (opened, e, p, b, r) (parses size refl refl refl refl refl)
        ]
      ]
    ]
  ]
]
