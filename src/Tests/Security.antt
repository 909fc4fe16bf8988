-- ===== src/Tests/Security.antt =====
-- security.py.
use jenkins_service.Prelude.{ℕ, String, ◌≡◌, ◌≤◌, refl, List, [], ◌∷◌, length, ltb, arith}
use jenkins_service.Dict.{lookup, insert}
use jenkins_service.Security.Limiter.{allow}
use jenkins_service.Security.Window.{admitted, in_window}
use jenkins_service.Security.Rate.{serve}
use jenkins_service.Security.Served.{new_limiter, serve-answers}
use jenkins_service.Model.Scope.{Scope}
use jenkins_service.Security.Tokens.{Entry, authenticate, Authenticates, authenticate-Authenticates}

abbrev requests : List (String × ℕ)
requests = ("a", 1) ∷ ("a", 2) ∷ ("b", 2) ∷ ("a", 3) ∷ ("a", 12) ∷ []

-- two requests in ten units of time: the third of "a" is refused, the fourth is late enough
served : (serve requests (new_limiter 2 10, [])).1 ≡ ("a", 1) ∷ ("a", 2) ∷ ("b", 2) ∷ ("a", 12) ∷ []
unfolding serve lookup insert allow
served = refl

serve-answers_example :
    ((allow "a" 13 (serve requests (new_limiter 2 10, [])).0).0
      ≡ ltb (length (in_window 10 13 (admitted "a" (serve requests (new_limiter 2 10, [])).1))) 2)
    × (length (in_window 10 12 (admitted "a" (serve requests (new_limiter 2 10, [])).1)) ≤ 2)
serve-answers_example =
    serve-answers 2 10 requests "a" 13
      (omega arith, (omega arith, (omega arith, (omega arith, (omega arith, tt))))) (omega arith)

abbrev entries : List Entry
entries =
    record { token_id = "old"; scopes = Scope.read ∷ []; digest = "d1" }
    ∷ record { token_id = "new"; scopes = Scope.admin ∷ []; digest = "d1" }
    ∷ record { token_id = "other"; scopes = Scope.operate ∷ []; digest = "d2" }
    ∷ []

authenticate-Authenticates_example :
    Authenticates "d1" entries (authenticate (λ token. "d1") entries "secret")
authenticate-Authenticates_example = authenticate-Authenticates (λ token. "d1") entries "secret"
