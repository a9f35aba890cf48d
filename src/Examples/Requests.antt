-- ===== src/Examples/Requests.antt =====
-- Requests.
use beast_lounge.Base.{◌≡◌, ◌↔◌, inl, refl, ◌∷◌, [], none}
use beast_lounge.Base.Int.{pos}
use beast_lounge.Rpc.{new_call}
use beast_lounge.Rpc.Extract.{extract}
use beast_lounge.Rpc.WellFormed.{IsRequest, version_2, extract-ok_iff}
use beast_lounge.Examples.Json.{Json, test_boost, quoted, number}

abbrev request : Json
request = test_boost.object (
    ("jsonrpc", quoted "2.0")
    ∷ ("id", number (pos 3))
    ∷ ("method", quoted "join")
    ∷ ("params", test_boost.object (("cid", number (pos 1)) ∷ []))
    ∷ [])

extract-ok_iff_example :
    ((extract ⦃B = test_boost⦄ request (new_call ⦃B = test_boost⦄ 4)).1 ≡ none)
    ↔ IsRequest ⦃B = test_boost⦄ request
extract-ok_iff_example = extract-ok_iff ⦃B = test_boost⦄ request 4

request-IsRequest : IsRequest ⦃B = test_boost⦄ request
request-IsRequest = version_2 refl (refl, refl) (inl refl) refl (inl refl)

accepted : (extract ⦃B = test_boost⦄ request (new_call ⦃B = test_boost⦄ 4)).1 ≡ none
accepted = (extract-ok_iff ⦃B = test_boost⦄ request 4).1 request-IsRequest
