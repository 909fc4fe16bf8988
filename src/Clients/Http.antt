-- ===== src/Clients/Http.antt =====
-- What clients.py uses of httpx. A method of a client works on the list of what it has done so far,
-- requests and pauses, oldest first; an answer is a function of that list. The record `Network`
-- holds these answers and the functions of the libraries.
use jenkins_service.Prelude.{
  ℕ, String, Bool, ◌&&◌, Option, none, some, List, [], ◌∷◌, ◌++◌, ◌==◌, leb, length, codes,
  if◌then◌else◌,
}
use jenkins_service.Exec.{
  Exec, Error, Result, ok, err, transport, upstream, value_error, pure, raise,
}
use jenkins_service.Model.Json.{Json}

pub data Body : Type 0 where
  no_body : Body
  text : String → Body
  json : Json → Body

-- a request, without the credentials of its client
pub record Request : Type 0 where
  pub method : String
  pub url : String
  pub params : List (String × String)
  pub headers : List (String × String)
  pub body : Body

-- a response, its body in the pieces in which it comes
pub record Response : Type 0 where
  pub status_code : ℕ
  pub headers : List (String × String)
  pub chunks : List (List ℕ)

pub data Event : Type 0 where
  sent : Request → Event
  slept : ℕ → Event

pub record Network : Type 0 where
  -- `none` is an `httpx.HTTPError` of the transport
  pub answer : List Event → Request → Option Response
  -- `response.json()` of a body, and `bytes.decode`: `none` is a `ValueError`
  pub read_json : List ℕ → Option Json
  pub decode : List ℕ → Option String
  -- `int(text)` where it does not raise, a negative number read as 0
  pub read_int : List ℕ → Option ℕ
  -- `response.text` of a body
  pub text_of : List ℕ → String
  -- `urllib.parse.quote(part, safe="")`, `html.escape`, `str` of a number
  pub quote : List ℕ → String
  pub escape : String → String
  pub decimal : ℕ → String
  pub branch_digest : String → String

abbrev pub Remote : Type 0 → Type 0
Remote = Exec (List Event)

abbrev pub answered : Option Response → Result Response
answered none = err (transport "request failed")
answered (some response) = ok response

-- a request, recorded and answered
unfoldable pub request : Network → Request → Remote Response
request net r past = (answered (net.answer past r), past ++ sent r ∷ [])

-- `asyncio.sleep`, in milliseconds
unfoldable pub wait : ℕ → Remote Unit
wait ms past = (ok tt, past ++ slept ms ∷ [])

-- `response.is_success`
abbrev pub is_success : Response → Bool
is_success response = leb 200 response.status_code && leb response.status_code 299

-- `response.raise_for_status()`
unfoldable pub raise_for_status : Response → Remote Unit
raise_for_status response =
    if is_success response then pure tt else raise (transport "error status")

-- the whole body
unfoldable pub body_of : List (List ℕ) → List ℕ
body_of [] = []
body_of (chunk ∷ chunks) = chunk ++ body_of chunks

abbrev pub parsed : Option Json → Remote Json
parsed none = raise (value_error "response is not JSON")
parsed (some value) = pure value

-- `response.json()`
unfoldable pub json_of : Network → Response → Remote Json
json_of net response = parsed (net.read_json (body_of response.chunks))

-- `except httpx.HTTPError as exc: raise UpstreamError(message)`
abbrev pub or_upstream : {A : Type 0} → String → Error → Remote A
or_upstream message (transport m) = raise (upstream message)
or_upstream message e = raise e

-- `except (httpx.HTTPError, ValueError) as exc: raise UpstreamError(message)`
abbrev pub or_upstream_value : {A : Type 0} → String → Error → Remote A
or_upstream_value message (transport m) = raise (upstream message)
or_upstream_value message (value_error m) = raise (upstream message)
or_upstream_value message e = raise e

-- `response.headers.get(name)`
unfoldable pub header : String → List (String × String) → Option String
header name [] = none
header name ((k, v) ∷ headers) = if k == name then some v else header name headers

-- a body read piece by piece, up to a limit; the message is that of the error beyond it
unfoldable pub read_bounded : String → ℕ → List ℕ → List (List ℕ) → Remote (List ℕ)
read_bounded message max_bytes content [] = pure content
read_bounded message max_bytes content (chunk ∷ chunks) =
    let content' = content ++ chunk in
    let rest = read_bounded message max_bytes content' chunks in
    if leb (length content') max_bytes then rest else raise (upstream message)

-- `declared is not None and int(declared) > max_bytes`, which raises where it is no number
unfoldable pub check_declared : Network → String → ℕ → Response → Remote Unit
unfolding header
check_declared net message max_bytes response = elim (header "content-length" response.headers) [
  | none ↦ pure tt
  | some declared ↦ elim (net.read_int (codes declared)) [
    | none ↦ raise (value_error "invalid literal for int()")
    | some n ↦ if leb n max_bytes then pure tt else raise (upstream message)
  ]
]
