-- ===== src/Remote.antt =====
-- remote/http.go and servers.go: the requests of the panel with their retries, and the list of servers in
-- pages.
pub mod Retries
pub mod Pages
mod Examples
use feathers.Prelude.{
  ℕ, ◌+◌, ◌-◌, Bool, true, false, not, ◌&&◌, ◌||◌, Option, none, some, List, [], ◌∷◌, ◌++◌, ltb,
  leb, if◌then◌else◌, inl, inr, ◌⊎◌, zero, suc,
}
use feathers.Prelude.Text.{Text}

-- What comes of one request: a response with a status, the error of a context that has ended, or another
-- error.
pub data Answer : Type 0 where
  response : ℕ → Answer
  context_ended no_response : Answer

pub data Failure : Type 0 where
  request_error : ℕ → Failure
  ended failed : Failure

-- `HasError` of a response with a status.
unfoldable pub has_error : ℕ → Bool
has_error status = leb 300 status || ltb status 200

-- Whether an answer is the last, because it is a success or a permanent error.
unfoldable pub is_final : Answer → Bool
unfolding has_error
is_final (response status) = not (has_error status) || leb 400 status && ltb status 500
is_final context_ended = true
is_final no_response = false

unfoldable pub outcome : Answer → Failure ⊎ ℕ
unfolding has_error
outcome (response status) = if has_error status then inl (request_error status) else inr status
outcome context_ended = inl ended
outcome no_response = inl failed

-- The bodies that were sent, and the result.
pub record Requested : Type 0 where
  pub bodies : List Text
  pub result : Failure ⊎ ℕ

-- What follows an execution that may be repeated: the next execution, with its answer, or the end of the
-- context before it, in which `Retry` of the backoff library returns the error of the context: at its
-- check or during the wait.
pub data Retry : Type 0 where
  executed : Answer → Retry
  ended_before : Retry

-- `request`: the answer to the first execution, and what follows each execution as long as the backoff
-- grants a retry. Each execution sends a copy of the body.
unfoldable pub request : Text → Answer → List Retry → Requested
unfolding is_final outcome
request body a [] = record { bodies = body ∷ []; result = outcome a }
request body a (ended_before ∷ rs) = record {
  bodies = body ∷ [];
  result = if is_final a then outcome a else inl ended;
}
request body a (executed b ∷ rs) =
    let rest = request body b rs in
    if is_final a
    then record { bodies = body ∷ []; result = outcome a }
    else record { bodies = body ∷ rest.bodies; result = rest.result }

unfoldable pub with_max_retries : ℕ → List Retry → List Retry
with_max_retries n [] = []
with_max_retries n (ended_before ∷ rs) = ended_before ∷ []
with_max_retries zero (executed b ∷ rs) = []
with_max_retries (suc n) (executed b ∷ rs) = executed b ∷ with_max_retries n rs

-- `MaxRetries` of the backoff for a number of attempts: no limit for 0.
unfoldable pub granted : ℕ → List Retry → List Retry
unfolding with_max_retries
granted max_attempts later =
    if ltb 0 max_attempts then with_max_retries max_attempts later else later

-- The meta data of a page.
pub record Pagination : Type 0 where
  pub current_page : ℕ
  pub last_page : ℕ

-- The numbers from one on, of a number of them.
unfoldable pub numbers : ℕ → ℕ → List ℕ
numbers n zero = []
numbers n (suc k) = n ∷ numbers (n + 1) k

-- The pages that are asked for after the first answer.
unfoldable pub other_pages : Pagination → List ℕ
unfolding numbers
other_pages meta =
    if ltb 1 meta.last_page
    then numbers (meta.current_page + 1) (meta.last_page - meta.current_page)
    else []

-- `getServersPaged`, of servers `S`; none stands for an error.
module _ {S : Type 0} (paged : ℕ → Option (List S × Pagination)) where
  -- What the goroutines add, in the order in which they come to it.
  unfoldable pub add_pages : List ℕ → List S → Option (List S)
  add_pages [] servers = some servers
  add_pages (p ∷ ps) servers = elim (paged p) [
    | none ↦ none
    | some (page, meta) ↦ add_pages ps (servers ++ page)
  ]

  -- `GetServers`, where the goroutines of the pages come to an end in some order of them.
  unfoldable pub get_servers : (List ℕ → List ℕ) → Option (List S)
  unfolding add_pages other_pages
  get_servers order = elim (paged 0) [
    | none ↦ none
    | some (servers, meta) ↦ add_pages (order (other_pages meta)) servers
  ]
