-- ===== src/Examples/Starting.antt =====
-- Runs of the start of the program.
use Prim.Native.String.{String}
use text.Mathlib.Text.{◌==◌}
use beast_lounge.Base.{
  ◌≡◌, ◌⊎◌, ◌↔◌, inl, inr, true, Option, none, some, List, [], ◌∷◌, if◌then◌else◌,
}
use beast_lounge.Base.Int.{pos}
use beast_lounge.Program.{
  Throws, returns, throws_system, CFile, parse_file, Accessors, Outside, make_server,
}
use beast_lounge.Program.Files.{Parsed, parse_file-Parsed}
use beast_lounge.Program.Making.{Outcome, make_server-Outcome}
use beast_lounge.Logger.{Logger, new_logger, get_section}
use beast_lounge.Logger.Sections.{ask, get_section-get_section}
use beast_lounge.Examples.Json.{
  Json, quoted, number, items, test_boost, json_find, json_string, json_size, json_array,
}

abbrev listed : Json → List Json
listed (items x xs) = x ∷ listed xs
listed _ = []

abbrev required {ℓ} : {A : Type ℓ} → Option A → Throws A
required (some a) = returns a
required none = throws_system "not found"

abbrev test_accessors : Accessors ⦃B = test_boost⦄
test_accessors = record {
  at = λ key jv. required (json_find key jv);
  as_string = λ jv. returns (json_string jv);
  to_unsigned = λ jv. required (json_size jv);
  to_port = λ jv. required (json_size jv);
  to_address = λ jv. returns (json_string jv);
  get_array = listed;
  not_object = "not an object";
}

abbrev test_outside : Outside ⦃B = test_boost⦄
test_outside = record {
  log_file = λ path. if path == "lounge.log" then none else some "no such file";
  construct = λ cfg. returns tt;
  construct_listener = λ cfg. returns tt;
  acceptor =
      λ cfg. record { open_ec = none; set_option_ec = none; bind_ec = none; listen_ec = none };
}

abbrev config : Json
config = test_boost.object (
    ("log", test_boost.object (("path", quoted "lounge.log") ∷ []))
    ∷ (
      "server",
      test_boost.object (("threads", number (pos 0)) ∷ ("doc-root", quoted "/srv/www") ∷ []),
    )
    ∷ (
      "listeners",
      json_array (
          test_boost.object (
            ("name", quoted "main")
            ∷ ("address", quoted "0.0.0.0")
            ∷ ("port_num", number (pos 8080))
            ∷ [])
          ∷ []),
    )
    ∷ [])

make_server-Outcome_example :
    Outcome ⦃B = test_boost⦄ test_accessors test_outside 1000 9223372036854775807
      (inl config)
      (make_server ⦃B = test_boost⦄ test_accessors test_outside 1000 9223372036854775807
        (inl config)).0
make_server-Outcome_example =
    make_server-Outcome ⦃B = test_boost⦄ test_accessors test_outside 1000 9223372036854775807
      (inl config)

abbrev read_config : String → Json ⊎ String
read_config text = if text == "{}" then inl config else inr "syntax error"

abbrev broken_disk : CFile
broken_disk = record {
  opened = true;
  seeks_end = true;
  position = some 2;
  seeks_start = true;
  bytes = "{";
  read_error = true;
  errno = "Input/output error";
}

parse_file-Parsed_example : Parsed read_config broken_disk (parse_file read_config broken_disk)
parse_file-Parsed_example = parse_file-Parsed read_config broken_disk

abbrev asked : Logger
asked =
    ask ("listener" ∷ "ws_session" ∷ [])
      (get_section "ws_session" (ask ("server" ∷ []) new_logger)).1

get_section-get_section_example :
    ((get_section "listener" asked).0
      ≡ (get_section "ws_session" (ask ("server" ∷ []) new_logger)).0)
    ↔ (◌≡◌ {A = String} "ws_session" "listener")
get_section-get_section_example =
    get_section-get_section ("server" ∷ []) ("listener" ∷ "ws_session" ∷ []) "ws_session" "listener"
