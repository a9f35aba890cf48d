-- ===== src/Examples/Http.antt =====
-- Runs of the HTTP session.
use Prim.Native.String.{String}
use text.Mathlib.Text.{◌==◌}
use beast_lounge.Base.{◌≡◌, ◌≢◌, ◌⊎◌, refl, true, false, none, if◌then◌else◌}
use beast_lounge.Http.{
  get, head, Request, ok, Opened, contents, missing, failed, Beast, handle_request,
}
use beast_lounge.Http.Below.{Below, opened-Below}
use beast_lounge.Http.Answers.{
  Answer, Framed, as_method, handle_request-Answer, handle_request-head,
}
use beast_lounge.Http.Session.{Completion}
use beast_lounge.Http.Session.Served.{Served}

abbrev test_beast : Beast
test_beast = record { iequals = λ a b. a == b; version_string = "Boost.Beast/266" }

abbrev disk : String → Opened
disk path =
    if path == "/srv/www/index.html"
    then contents "<p>Lounge</p>"
    else if path == "/srv/www/key"
    then failed "Permission denied"
    else missing

abbrev page : Request
page = record { method = get; target = "/"; version = 11; keep_alive = true }

abbrev arrives : Completion
arrives = record { ec = none; need_eof = false; parsed = page; is_upgrade = false }

opened-Below_example : Below "/srv/www/" "/srv/www/index.html"
unfolding handle_request
opened-Below_example = opened-Below test_beast disk "/srv/www/" page "/srv/www/index.html" refl

handle_request-Answer_example :
    let sent = handle_request test_beast disk "/srv/www" page in
    Answer test_beast disk "/srv/www" page (sent.0) (sent.1)
    × Framed test_beast disk "/srv/www" page (sent.1)
handle_request-Answer_example = handle_request-Answer test_beast disk "/srv/www" page

handle_request-head_example :
    let g = handle_request test_beast disk "/srv/www" (as_method get page) in
    let h = handle_request test_beast disk "/srv/www" (as_method head page) in
    (h.0 ≡ g.0)
    × (((g.1.status ≡ ok) × (h.1 ≡ record (g.1) { body = "" })) ⊎ ((g.1.status ≢ ok) × (h.1 ≡ g.1)))
handle_request-head_example = handle_request-head test_beast disk "/srv/www" page
