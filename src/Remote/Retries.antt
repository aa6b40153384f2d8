-- ===== src/Remote/Retries.antt =====
-- The retries of `request` in remote/http.go.
use feathers.Prelude.{
  ℕ, ◌+◌, ◌≤◌, ◌≡◌, refl, ap, ◌∙◌, inl, inr, ◌⊎◌, true, false, List, [], ◌∷◌, ◌++◌, map, arith,
  Bool-cases, ltb, length, zero, suc, replicate, if◌then◌else◌,
}
use feathers.Prelude.Text.{Text}
use feathers.Remote.{
  Answer, ended, Requested, is_final, outcome, Retry, executed, ended_before, request,
  with_max_retries, granted,
}

-- No answer is the last.
abbrev pub Retried : List Answer → Type 0
Retried [] = Unit {0}
Retried (a ∷ more) = (is_final a ≡ false) × Retried more

-- The last execution had an answer that is final, or no more are granted, and the result is that of this
-- answer; or its answer is not final, and the context ended before the next execution.
abbrev pub EndsWith : Answer → List Retry → Requested → Type 0
EndsWith b after r =
    (((is_final b ≡ true) ⊎ (after ≡ [])) × (r.result ≡ outcome b))
    ⊎ ((is_final b ≡ false)
        × (rest : List Retry) × (after ≡ ended_before ∷ rest)
        × (r.result ≡ inl ended))

-- A request ends after an execution: those before it were retried, and each execution sent the body.
abbrev pub EndsAt : Text → Answer → List Retry → Requested → Type 0
EndsAt body a later r =
    (before : List Answer) × (b : Answer) × (after : List Retry) × (executed a ∷ later
      ≡ map executed before ++ executed b ∷ after)
    × Retried before
    × EndsWith b after r
    × (r.bodies ≡ replicate (length before + 1) body)

request_ends :
    (body : Text) (a : Answer) (later : List Retry) → EndsAt body a later (request body a later)
unfolding request
request_ends body a [] = ([], a, [], refl, tt, inl (inr refl, refl), refl)
request_ends body a (ended_before ∷ rs) = elim (Bool-cases (is_final a)) [
  | inl last ↦ ([], a, ended_before ∷ rs, refl, tt, inl (inl last, rw last refl), refl)
  | inr more ↦ ([], a, ended_before ∷ rs, refl, tt, inr (more, rs, refl, rw more refl), refl)
]
request_ends body a (executed b ∷ rs) = elim (Bool-cases (is_final a)) [
  | inl last ↦ ([], a, executed b ∷ rs, refl, tt, inl (inl last, rw last refl), rw last refl)
  | inr more ↦
      let (before, c, after, split, retried, end, sent) = request_ends body b rs in
      (
        a ∷ before,
        c,
        after,
        ap (λ l. executed a ∷ l) split,
        (more, retried),
        rw more end,
        rw more (ap (λ l. body ∷ l) sent ∙ one_more (length before)),
      )
]
  where
    one_more : (n : ℕ) → body ∷ replicate (n + 1) body ≡ replicate (suc n + 1) body
    one_more n = ground arith

length-bodies :
    (body : Text) (a : Answer) (later : List Retry)
    → length (request body a later).bodies ≤ length later + 1
unfolding request
length-bodies body a [] = omega arith
length-bodies body a (ended_before ∷ rs) = omega arith
length-bodies body a (executed b ∷ rs) = elim (Bool-cases (is_final a)) [
  | inl last ↦ rw last (omega arith)
  | inr more ↦ rw more (omega (arith, length-bodies body b rs))
]

-- The end of the context is no execution.
executions :
    (body : Text) (a : Answer) (max : ℕ) (later : List Retry)
    → length (request body a (with_max_retries max later)).bodies ≤ max + 1
unfolding request with_max_retries
executions body a max [] = omega arith
executions body a max (ended_before ∷ rs) = omega arith
executions body a zero (executed b ∷ rs) = omega arith
executions body a (suc n) (executed b ∷ rs) = elim (Bool-cases (is_final a)) [
  | inl last ↦ rw last (omega arith)
  | inr more ↦ rw more (omega (arith, executions body b n rs))
]

granted_few :
    (body : Text) (a : Answer) (max_attempts : ℕ) (later : List Retry)
    → length (request body a (granted max_attempts later)).bodies
      ≤ (if ltb 0 max_attempts then max_attempts else length later) + 1
unfolding granted
granted_few body a max_attempts later = elim (Bool-cases (ltb 0 max_attempts)) [
  | inl capped ↦ rw capped (executions body a max_attempts later)
  | inr free ↦ rw free (length-bodies body a later)
]

-- A request is executed until an execution whose answer is a success, a response with a status from 400 to
-- 499 or the end of the context, or after which no retry is granted; then its result is that of this answer.
-- Or, after an answer that is none of these, the context ends before the next execution, and the result is
-- the error of the context. The answers before were other errors, and each execution sends the whole body.
-- With a maximum of attempts there are at most that many retries, so one execution more than it.
pub request_retries :
    (body : Text) (a : Answer) (later : List Retry) (max_attempts : ℕ)
    → EndsAt body a (granted max_attempts later) (request body a (granted max_attempts later))
      × (length (request body a (granted max_attempts later)).bodies
          ≤ (if ltb 0 max_attempts then max_attempts else length later) + 1)
request_retries body a later max_attempts =
    (request_ends body a (granted max_attempts later), granted_few body a max_attempts later)
