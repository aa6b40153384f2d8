-- ===== src/Remote/Pages.antt =====
-- The servers of all pages, in remote/servers.go, whatever the order in which the pages arrive.
use feathers.Prelude.{
  ℕ, zero, suc, ◌+◌, ◌-◌, ◌≤◌, ◌<◌, ◌≡◌, refl, sym, ap, ap₂, ◌∙◌, subst, Option, none, some, List,
  [], ◌∷◌, ◌++◌, arith, ltb, ltb→lt, Bool-cases, inl, inr, if◌then◌else◌,
}
use mathlib.Core.List.{append-nil, append_assoc, Permᴰ}
use mathlib.Core.List.Permᴰ
use feathers.Remote.{Pagination, numbers, add_pages, other_pages, get_servers}

-- The numbers behind one of a page, up to another.
abbrev pub behind : ℕ → ℕ → List ℕ
behind current zero = []
behind current (suc n) =
    let before = behind current n in if ltb current (suc n) then before ++ suc n ∷ [] else []

-- The pages that are left after a first answer: those behind the current one up to the last, if there are two
-- or more.
abbrev pub left : Pagination → List ℕ
left meta = if ltb 1 meta.last_page then behind meta.current_page meta.last_page else []

abbrev pub joined : {A : Type 0} → List A → Option (List A) → Option (List A)
joined xs none = none
joined xs (some ys) = some (xs ++ ys)

module _ {S : Type 0} (paged : ℕ → Option (List S × Pagination)) where
  -- The servers of some pages, unless one of them fails.
  abbrev pub add_page : Option (List S × Pagination) → Option (List S) → Option (List S)
  add_page none rest = none
  add_page (some (servers, meta)) rest = joined servers rest

  abbrev pub all_of : List ℕ → Option (List S)
  all_of [] = some []
  all_of (p ∷ ps) = add_page (paged p) (all_of ps)

  -- The servers of the first answer and of the pages left, one page after the other.
  abbrev pub all_servers : Option (List S × Pagination) → Option (List S)
  all_servers none = none
  all_servers (some (servers, meta)) = joined servers (all_of (left meta))

  joined_twice :
      (xs ys : List S) (o : Option (List S)) → joined (xs ++ ys) o ≡ joined xs (joined ys o)
  joined_twice xs ys none = refl
  joined_twice xs ys (some zs) = ap some (append_assoc xs ys zs)

  one_page :
      (o : Option (List S × Pagination)) (ps : List ℕ) (servers : List S)
      → ((xs : List S) → add_pages paged ps xs ≡ joined xs (all_of ps))
      → (elim o [ none ↦ none | some (page, meta) ↦ add_pages paged ps (servers ++ page) ])
        ≡ joined servers (add_page o (all_of ps))
  one_page none ps servers rest = refl
  one_page (some (page, meta)) ps servers rest =
      rest (servers ++ page) ∙ joined_twice servers page (all_of ps)

  add_pages_all :
      (ps : List ℕ) (servers : List S) → add_pages paged ps servers ≡ joined servers (all_of ps)
  unfolding add_pages
  add_pages_all [] servers = ap some (sym (append-nil servers))
  add_pages_all (p ∷ ps) servers = one_page (paged p) ps servers (add_pages_all ps)

-- Both failed, or both gave the same up to the order.
abbrev pub SameUpToOrder : {A : Type 0} → Option (List A) → Option (List A) → Type 0
SameUpToOrder none none = Unit {0}
SameUpToOrder (some xs) (some ys) = Permᴰ xs ys
SameUpToOrder _ _ = ⊥

module _ {S : Type 0} where
  same_trans :
      (o o' o'' : Option (List S)) → SameUpToOrder o o' → SameUpToOrder o' o'' → SameUpToOrder o o''
  same_trans none none none h h' = tt
  same_trans (some xs) (some ys) (some zs) h h' = Permᴰ.trans h h'
  same_trans none none (some zs) h h' = absurd h'
  same_trans none (some ys) o'' h h' = absurd h
  same_trans (some xs) none o'' h h' = absurd h
  same_trans (some xs) (some ys) none h h' = absurd h'

  joined_same :
      (xs : List S) (o o' : Option (List S))
      → SameUpToOrder o o'
      → SameUpToOrder (joined xs o) (joined xs o')
  joined_same xs none none h = tt
  joined_same xs (some ys) (some zs) h = Permᴰ.append_left xs h
  joined_same xs none (some zs) h = absurd h
  joined_same xs (some ys) none h = absurd h

  joined_swap :
      (xs ys : List S) (o : Option (List S))
      → SameUpToOrder (joined xs (joined ys o)) (joined ys (joined xs o))
  joined_swap xs ys none = tt
  joined_swap xs ys (some zs) =
      subst (λ l. Permᴰ (xs ++ (ys ++ zs)) l) (append_assoc ys xs zs)
        (subst (λ l. Permᴰ l ((ys ++ xs) ++ zs)) (append_assoc xs ys zs)
          (Permᴰ.append_right zs (Permᴰ.append_comm xs ys)))

module _ {S : Type 0} (paged : ℕ → Option (List S × Pagination)) where
  add_page_same :
      (m : Option (List S × Pagination)) (o o' : Option (List S))
      → SameUpToOrder o o'
      → SameUpToOrder (add_page paged m o) (add_page paged m o')
  add_page_same none o o' h = tt
  add_page_same (some (xs, meta)) o o' h = joined_same xs o o' h

  add_page_swap :
      (m n : Option (List S × Pagination)) (o : Option (List S))
      → SameUpToOrder
          (add_page paged m (add_page paged n o))
          (add_page paged n (add_page paged m o))
  add_page_swap none none o = tt
  add_page_swap none (some (ys, meta)) o = tt
  add_page_swap (some (xs, meta)) none o = tt
  add_page_swap (some (xs, meta)) (some (ys, meta')) o = joined_swap xs ys o

  all_of_same : {ps qs : List ℕ} → Permᴰ ps qs → SameUpToOrder (all_of paged ps) (all_of paged qs)
  all_of_same Permᴰ.nil = Permᴰ.nil
  all_of_same (Permᴰ.cons {a} {l₁ = k} {l₂ = l} e d) =
      subst (λ b. SameUpToOrder (all_of paged (a ∷ k)) (all_of paged (b ∷ l))) e
        (add_page_same (paged a) (all_of paged k) (all_of paged l) (all_of_same d))
  all_of_same (Permᴰ.swap {a} {b} {a'} {b'} {l} e f) =
      subst (λ c. SameUpToOrder (all_of paged (a ∷ b ∷ l)) (all_of paged (c ∷ b' ∷ l))) f
        (subst (λ c. SameUpToOrder (all_of paged (a ∷ b ∷ l)) (all_of paged (b ∷ c ∷ l))) e
          (add_page_swap (paged a) (paged b) (all_of paged l)))
  all_of_same (Permᴰ.trans {l₁ = ps} {l₂ = qs} {l₃ = rs} d e) =
      same_trans (all_of paged ps) (all_of paged qs) (all_of paged rs) (all_of_same d)
        (all_of_same e)

numbers_snoc : (n k : ℕ) → numbers n (suc k) ≡ numbers n k ++ (n + k) ∷ []
unfolding numbers
numbers_snoc n zero = let e : n ≡ n + 0 = omega arith in ap (λ m. m ∷ []) e
numbers_snoc n (suc k) =
    let e : n + 1 + k ≡ n + suc k = omega arith in
    ap (λ l. n ∷ l) (numbers_snoc (n + 1) k ∙ ap (λ m. numbers (n + 1) k ++ m ∷ []) e)

numbers-behind : (current last : ℕ) → numbers (current + 1) (last - current) ≡ behind current last
unfolding numbers
numbers-behind current zero = let e : 0 - current ≡ 0 = omega arith in rw e refl
numbers-behind current (suc n) = elim (Bool-cases (ltb current (suc n))) [
  | inl more ↦
      let lt : current < suc n = ltb→lt current (suc n) more in
      let e : suc n - current ≡ suc (n - current) = omega arith in
      let last : current + 1 + (n - current) ≡ suc n = omega arith in
      rw more (
        ap (numbers (current + 1)) e
        ∙ numbers_snoc (current + 1) (n - current)
        ∙ ap₂ (λ l m. l ++ m ∷ []) (numbers-behind current n) last)
  | inr past ↦
      let le : suc n ≤ current = ground (arith, past) in
      let e : suc n - current ≡ 0 = omega arith in rw past (ap (numbers (current + 1)) e)
]

other_pages-left : (meta : Pagination) → other_pages meta ≡ left meta
unfolding other_pages
other_pages-left meta =
    ap (λ l. if ltb 1 meta.last_page then l else [])
      (numbers-behind meta.current_page meta.last_page)

from_first :
    {S : Type 0} (paged : ℕ → Option (List S × Pagination)) (order : List ℕ → List ℕ)
    (first : Option (List S × Pagination))
    → ((ps : List ℕ) → Permᴰ (order ps) ps)
    → SameUpToOrder
        (elim first [
          | none ↦ none
          | some (servers, meta) ↦ add_pages paged (order (other_pages meta)) servers
        ])
        (all_servers paged first)
from_first paged order none any = tt
from_first paged order (some (servers, meta)) any =
    rw (add_pages_all paged (order (other_pages meta)) servers, other_pages-left meta)
      (joined_same servers (all_of paged (order (left meta))) (all_of paged (left meta))
        (all_of_same paged (any (left meta))))

-- In whatever order the pages arrive: if the first request or the request of a page that is left fails, there
-- is an error and no list; if none fails, the list has, up to their order, the servers of the first answer
-- and those of each page left, and nothing else. Left are the pages behind the current one up to the last, if
-- there are two or more.
pub get_servers_complete :
    {S : Type 0} (paged : ℕ → Option (List S × Pagination)) (order : List ℕ → List ℕ)
    → ((ps : List ℕ) → Permᴰ (order ps) ps)
    → SameUpToOrder (get_servers paged order) (all_servers paged (paged 0))
unfolding get_servers
get_servers_complete paged order any = from_first paged order (paged 0) any
