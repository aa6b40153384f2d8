-- ===== src/Remote/Examples.antt =====
-- Small requests, and the theorems at them.
use feathers.Prelude.{
  ℕ, ◌+◌, ◌≡◌, ◌≤◌, ◌==◌, refl, inl, Option, none, some, List, [], ◌∷◌, length, if◌then◌else◌,
}
use mathlib.Core.List.{reverse}
use mathlib.Core.List.Permᴰ
use feathers.Prelude.Text.{codes}
use feathers.Remote.{
  response, no_response, ended, Retry, executed, ended_before, request, granted, Pagination,
  get_servers,
}
use feathers.Remote.Retries.{request_retries, EndsAt}
use feathers.Remote.Pages.{SameUpToOrder, all_servers, get_servers_complete}

abbrev later : List Retry
later = executed (response 503) ∷ executed (response 200) ∷ executed (response 404) ∷ []

retried : (request (codes "b") no_response later).bodies ≡ codes "b" ∷ codes "b" ∷ codes "b" ∷ []
unfolding request
retried = refl

-- The context ends during the wait.
cut_off :
    request (codes "b") no_response (ended_before ∷ later)
    ≡ record { bodies = codes "b" ∷ []; result = inl ended }
unfolding request
cut_off = refl

request_retries_example :
    EndsAt
      (codes "b")
      no_response
      (granted 1 later)
      (request (codes "b") no_response (granted 1 later))
    × (length (request (codes "b") no_response (granted 1 later)).bodies ≤ 2)
request_retries_example = request_retries (codes "b") no_response later 1

-- Three pages of one server.
abbrev page : ℕ → Option (List ℕ × Pagination)
page p = some ((p + 5) ∷ [], record { current_page = 1; last_page = 3 })

get_servers_complete_example : SameUpToOrder (get_servers page reverse) (all_servers page (page 0))
get_servers_complete_example = get_servers_complete page reverse Permᴰ.reverse

-- The second page fails.
abbrev one_fails : ℕ → Option (List ℕ × Pagination)
one_fails p = if p == 2 then none else page p

no_list : get_servers one_fails reverse ≡ none
unfolding get_servers
no_list = refl
