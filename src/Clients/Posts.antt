-- ===== src/Clients/Posts.antt =====
-- How many requests a method of a client posts, and what holds behind one that succeeds.
use jenkins_service.Prelude.{ℕ, ◌+◌, ◌≤◌, ◌≡◌, List, [], ◌∷◌, ◌++◌, ◌==◌, if◌then◌else◌, arith}
use jenkins_service.Exec.{Error, Result, ok, err, resume, handle_with, try_catch, ◌>>=◌}
use jenkins_service.Clients.Http.{Event, sent, slept, Remote}

-- the requests of the list that are posted
unfoldable pub posts : List Event → ℕ
posts [] = 0
posts (slept ms ∷ past) = posts past
posts (sent request ∷ past) = (if request.method == "POST" then 1 else 0) + posts past

pub posts-append : (xs ys : List Event) → posts (xs ++ ys) ≡ posts xs + posts ys
unfolding posts
posts-append [] ys = omega arith
posts-append (slept ms ∷ xs) ys = posts-append xs ys
posts-append (sent request ∷ xs) ys = omega (arith, posts-append xs ys)

-- The method posts at most `n` requests.
abbrev pub PostsAtMost : {A : Type 0} → ℕ → Remote A → Type 0
PostsAtMost n m = (past : List Event) → posts (m past).1 ≤ posts past + n

module _ {A B : Type 0} where
  pub bind-PostsAtMost :
      (a b : ℕ) (m : Remote A) (f : A → Remote B)
      → PostsAtMost a m
      → ((x : A) → PostsAtMost b (f x))
      → PostsAtMost (a + b) (m >>= f)
  bind-PostsAtMost a b m f hm hf past = resumed (m past).0 (m past).1 (hm past)
    where
      resumed :
          (r : Result A) (v : List Event)
          → posts v ≤ posts past + a
          → posts (resume f r v).1 ≤ posts past + (a + b)
      resumed (ok x) v h = omega (arith, h, hf x v)
      resumed (err e) v h = omega (arith, h)

  pub then-PostsAtMost :
      (a b n : ℕ) (m : Remote A) (f : A → Remote B)
      → a + b ≤ n
      → PostsAtMost a m
      → ((x : A) → PostsAtMost b (f x))
      → PostsAtMost n (m >>= f)
  then-PostsAtMost a b n m f le hm hf past = omega (arith, le, bind-PostsAtMost a b m f hm hf past)

module _ {A : Type 0} where
  pub try_catch-PostsAtMost :
      (n : ℕ) (m : Remote A) (h : Error → Remote A)
      → PostsAtMost n m
      → ((e : Error) → PostsAtMost 0 (h e))
      → PostsAtMost n (try_catch m h)
  try_catch-PostsAtMost n m h hm hh past = handled (m past).0 (m past).1 (hm past)
    where
      handled :
          (r : Result A) (v : List Event)
          → posts v ≤ posts past + n
          → posts (handle_with h r v).1 ≤ posts past + n
      handled (ok x) v le = le
      handled (err e) v le = omega (arith, le, hh e v)

-- Where the method succeeds, its value and what was done satisfy `P`.
abbrev pub Ends : {A : Type 0} → (A → List Event → Type 0) → Result A × List Event → Type 0
Ends P (ok a, past) = P a past
Ends P (err e, past) = Unit

module _ {A B : Type 0} where
  pub bind-Ends :
      (P : B → List Event → Type 0) (m : Remote A) (f : A → Remote B) (past : List Event)
      → ((a : A) (v : List Event) → Ends P (f a v))
      → Ends P ((m >>= f) past)
  bind-Ends P m f past h = resumed (m past).0 (m past).1
    where
      resumed : (r : Result A) (v : List Event) → Ends P (resume f r v)
      resumed (ok a) v = h a v
      resumed (err e) v = tt
