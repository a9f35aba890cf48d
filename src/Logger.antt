-- ===== src/Logger.antt =====
-- The logger of server/core/logger.cpp and logger.hpp: its sections, and what they write. The text of a
-- number is what std::ostream makes of it.
pub mod Sections
use Prim.Native.String.{String, ◌++◌}
use text.Mathlib.Text.{◌==◌ as str_eq}
use mathlib.Core.List
use beast_lounge.Base.{
  ℕ, suc, Bool, true, false, Option, none, some, List, [], ◌∷◌, leb, if◌then◌else◌,
}

-- section_impl, without the reference to the logger
pub record Section : Type 0 where
  pub name : String
  pub thresh : ℕ

-- logger_impl: a section is known by its address, and `sections` is the set, in no order; `cerr` and `file`
-- are what was handed to them.
pub record Logger : Type 0 where
  pub sections : List (ℕ × Section)
  pub next : ℕ
  pub cerr : String
  pub file : String

abbrev pub new_logger : Logger
new_logger = record { sections = []; next = 0; cerr = ""; file = "" }

-- The section of that name: names are distinct, since emplace() compares them.
unfoldable pub find_section : String → List (ℕ × Section) → Option ℕ
find_section name [] = none
find_section name ((p, s) ∷ sections) =
    let rest = find_section name sections in if str_eq s.name name then some p else rest

-- get_section(name): the address, and the logger
unfoldable pub get_section : String → Logger → ℕ × Logger
unfolding find_section
get_section name log = elim (find_section name log.sections) [
  | some p ↦ (p, log)
  | none ↦ (
    log.next,
    record log {
      sections = List.◌++◌ log.sections ((log.next, record { name = name; thresh = 0 }) ∷ []);
      next = suc log.next;
    },
  )
]

-- The levels of the macros LOG_TRC, LOG_DBG, LOG_INF, LOG_WRN, LOG_ERR and LOG_FTL
pub data Severity : Type 0 where
  trc dbg inf wrn err ftl : Severity

unfoldable pub level_of : Severity → ℕ
level_of trc = 0
level_of dbg = 1
level_of inf = 2
level_of wrn = 3
level_of err = 4
level_of ftl = 0

-- append(os, args...)
unfoldable pub append : List String → String
append [] = ""
append (arg ∷ args) = arg ++ append args

module _ (digits : ℕ → String) where
  -- prepare(level, os)
  unfoldable pub prepare : Section → ℕ → String
  prepare s level = s.name ++ "\t" ++ digits level ++ "\t"

  -- do_write(s), which does not look at the error code of the file
  unfoldable pub do_write : String → Logger → Logger
  do_write line log = record log { cerr = log.cerr ++ line; file = log.file ++ line }

  -- write(level, args...)
  unfoldable pub write : Section → ℕ → List String → Logger → Logger
  unfolding prepare append do_write
  write s level args log = do_write (prepare s level ++ append args ++ "\n") log

  -- LOG_AT_LEVEL(sect, level, ...)
  unfoldable pub log_at : Severity → Section → List String → Logger → Logger
  unfolding write level_of
  log_at severity s args log =
      if leb s.thresh (level_of severity) then write s (level_of severity) args log else log
