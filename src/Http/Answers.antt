-- ===== src/Http/Answers.antt =====
-- What handle_request() of server/core/http_session.cpp sends, in all cases.
use Prim.Native.String.{String, len}
use beast_lounge.Base.{
  ◌≡◌, ◌≢◌, refl, ap, ◌⊎◌, inl, inr, Bool, true, false, Bool-cases, Option, none, some, not, ◌||◌,
}
use beast_lounge.Http.{
  has_dots, Verb, get, head, other, is_other, Request, ok, bad_request, not_found,
  internal_server_error, Response, Opened, contents, missing, failed, Beast, mime_type,
  starts_slash, request_path, text_response, file_response, send_opened, handle_request,
}

abbrev pub as_method : Verb → Request → Request
as_method v req = record req { method = v }

module _ (beast : Beast) (opens : String → Opened) (doc_root : String) where
  -- A request for which a file is opened: of GET or HEAD, and with an absolute target without "..".
  pub record Legal (req : Request) : Type 0 where
    by_method : (req.method ≡ get) ⊎ (req.method ≡ head)
    is_absolute : starts_slash req.target ≡ true
    no_dots : has_dots req.target ≡ false

  -- The answer to a request: the path that is opened, if one is, and the response.
  pub data Answer (req : Request) (opened : Option String) (res : Response) : Type 0 where
    refuses :
        (req.method ≡ other) ⊎ ((starts_slash req.target ≡ false) ⊎ (has_dots req.target ≡ true))
        → opened ≡ none
        → res.status ≡ bad_request
        → Answer req opened res
    opens_none :
        Legal req
        → opened ≡ some (request_path doc_root req.target)
        → opens (request_path doc_root req.target) ≡ missing
        → res.status ≡ not_found
        → Answer req opened res
    fails :
        (message : String)
        → Legal req
        → opened ≡ some (request_path doc_root req.target)
        → opens (request_path doc_root req.target) ≡ failed message
        → res.status ≡ internal_server_error
        → Answer req opened res
    sends :
        (bytes : String)
        → Legal req
        → opened ≡ some (request_path doc_root req.target)
        → opens (request_path doc_root req.target) ≡ contents bytes
        → res.status ≡ ok
        → res.content_type ≡ mime_type beast (request_path doc_root req.target)
        → res.content_length ≡ len bytes
        → ((req.method ≡ get) × (res.body ≡ bytes)) ⊎ ((req.method ≡ head) × (res.body ≡ ""))
        → Answer req opened res

  -- What every response has from the request.
  pub record Framed (req : Request) (res : Response) : Type 0 where
    same_version : res.version ≡ req.version
    same_keep_alive : res.keep_alive ≡ req.keep_alive
    whole :
        (res.status ≡ ok) ⊎ ((res.content_type ≡ "text/html") × (res.content_length ≡ len res.body))

  refusal :
      (req : Request)
      → not (starts_slash req.target) || has_dots req.target ≡ true
      → (starts_slash req.target ≡ false) ⊎ (has_dots req.target ≡ true)
  refusal req h = either (starts_slash req.target) _ h
    where
      either : (a b : Bool) → not a || b ≡ true → (a ≡ false) ⊎ (b ≡ true)
      either true b h = inr h
      either false b h = inl refl

  allowed :
      (req : Request)
      → not (starts_slash req.target) || has_dots req.target ≡ false
      → (starts_slash req.target ≡ true) × (has_dots req.target ≡ false)
  allowed req h = both (starts_slash req.target) _ h
    where
      both : (a b : Bool) → not a || b ≡ false → (a ≡ true) × (b ≡ false)
      both true b h = (refl, h)
      both false b h = absurd cc

  get_or_head : (v : Verb) → is_other v ≡ false → (v ≡ get) ⊎ (v ≡ head)
  get_or_head get h = inl refl
  get_or_head head h = inr refl
  get_or_head other h = absurd cc

  only_other : (v : Verb) → is_other v ≡ true → v ≡ other
  only_other get h = absurd cc
  only_other head h = absurd cc
  only_other other h = refl

  file_body :
      (req : Request) (path bytes : String)
      → (req.method ≡ get) ⊎ (req.method ≡ head)
      → let res = file_response beast req path bytes in
        ((req.method ≡ get) × (res.body ≡ bytes)) ⊎ ((req.method ≡ head) × (res.body ≡ ""))
  unfolding file_response
  file_body req path bytes (inl g) = inl (g, ap body_of g)
    where
      body_of : Verb → String
      body_of v = elim v [ head ↦ "" | get ↦ bytes | other ↦ bytes ]
  file_body req path bytes (inr h) = inr (h, ap body_of h)
    where
      body_of : Verb → String
      body_of v = elim v [ head ↦ "" | get ↦ bytes | other ↦ bytes ]

  send_opened-Answer :
      (req : Request)
      → Legal req
      → (o : Opened) → opens (request_path doc_root req.target) ≡ o
      → let path = request_path doc_root req.target in
        let res = send_opened beast req path o in Answer req (some path) res × Framed req res
  unfolding send_opened text_response file_response
  send_opened-Answer req legal missing e = (
    opens_none legal refl e refl,
    record { same_version = refl; same_keep_alive = refl; whole = inr (refl, refl) },
  )
  send_opened-Answer req legal (failed message) e = (
    fails message legal refl e refl,
    record { same_version = refl; same_keep_alive = refl; whole = inr (refl, refl) },
  )
  send_opened-Answer req legal (contents bytes) e = (
    sends bytes legal refl e refl refl refl
        (file_body req (request_path doc_root req.target) bytes legal.by_method),
    record { same_version = refl; same_keep_alive = refl; whole = inl refl },
  )

  -- The whole of handle_request(): a request whose method is neither GET nor HEAD, or whose target is not
  -- absolute or contains "..", opens nothing and is answered with 400. Any other opens its path: a
  -- missing file is answered with 404, any other error with 500, and a file with 200, its mime type, its
  -- size, and to GET its bytes. A response has the version and the keep-alive of the request, and that of
  -- an error is an HTML text of the length that it states.
  pub handle_request-Answer :
      (req : Request)
      → let sent = handle_request beast opens doc_root req in
        Answer req (sent.0) (sent.1) × Framed req (sent.1)
  unfolding handle_request text_response
  handle_request-Answer req = elim (Bool-cases (is_other req.method)) [
    | inl unknown ↦ rw unknown (
      refuses (inl (only_other _ unknown)) refl refl,
      record { same_version = refl; same_keep_alive = refl; whole = inr (refl, refl) },
    )
    | inr known ↦ elim (Bool-cases (not (starts_slash req.target) || has_dots req.target)) [
      | inl illegal ↦
          rw (known, illegal)
            (
              refuses (inr (refusal req illegal)) refl refl,
              record { same_version = refl; same_keep_alive = refl; whole = inr (refl, refl) },
            )
      | inr legal ↦
          rw (known, legal)
            (send_opened-Answer req
              (record {
                by_method = get_or_head _ known;
                is_absolute = (allowed req legal).0;
                no_dots = (allowed req legal).1;
              })
              _ refl)
    ]
  ]

  -- HEAD opens what GET opens, and its response is that to GET but for the body of a file, which is
  -- empty. The body of an error is sent to HEAD too.
  pub handle_request-head :
      (req : Request)
      → let g = handle_request beast opens doc_root (as_method get req) in
        let h = handle_request beast opens doc_root (as_method head req) in
        (h.0 ≡ g.0)
        × (((g.1.status ≡ ok) × (h.1 ≡ record (g.1) { body = "" }))
            ⊎ ((g.1.status ≢ ok) × (h.1 ≡ g.1)))
  unfolding handle_request text_response send_opened file_response
  handle_request-head req =
      elim (Bool-cases (not (starts_slash req.target) || has_dots req.target)) [
        | inl illegal ↦ rw illegal (refl, inr ((λ e. absurd cc), refl))
        | inr legal ↦ rw legal (refl, alike (opens (request_path doc_root req.target)))
      ]
    where
      alike :
          (o : Opened)
          → let path = request_path doc_root req.target in
            let g = send_opened beast (as_method get req) path o in
            let h = send_opened beast (as_method head req) path o in
            ((g.status ≡ ok) × (h ≡ record g { body = "" })) ⊎ ((g.status ≢ ok) × (h ≡ g))
      alike missing = inr ((λ e. absurd cc), refl)
      alike (failed message) = inr ((λ e. absurd cc), refl)
      alike (contents bytes) = inl (refl, refl)
