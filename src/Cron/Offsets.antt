-- ===== src/Cron/Offsets.antt =====
-- The queries of the SFTP cron job (sftp_cron.go) at offsets, on records that stay as they are.
use feathers.Prelude.{
  ℕ, zero, suc, ◌+◌, ◌≤◌, ◌≡◌, refl, ap, sym, ◌∙◌, subst, Bool, true, false, Option, none, some,
  ◌⊎◌, inl, inr, List, [], ◌∷◌, ◌++◌, map, length, take, drop, length-take, length-drop, arith, ltb,
  Bool-cases,
}
use feathers.Cron.{
  Activity, Group, EventMap, for_activity, push_to, push, push_all, Database, fetched, collect,
}
use feathers.Cron.Taken.{none_counted}

-- A query, which answers with the records from the offset on, at most as many as the maximum, or fails.
abbrev pub asked : ℕ → List Activity → Bool → Database
asked max records true o = some (take max (drop o records))
asked max records false o = none

-- Some query fails.
abbrev pub Failed : List Bool → Type 0
Failed [] = ⊥
Failed (q ∷ qs) = (q ≡ false) ⊎ Failed qs

push_to_max : (em : EventMap) (a : Activity) (o : Option Group) → (push_to em a o).max ≡ em.max
unfolding push_to
push_to_max em a none = refl
push_to_max em a (some g) = refl

pub push_all_max : (em : EventMap) (l : List Activity) → (push_all em l).max ≡ em.max
unfolding push_all push
push_all_max em [] = refl
push_all_max em (a ∷ rest) = push_all_max (push em a) rest ∙ push_to_max em a (for_activity em a)

push_all-append :
    (em : EventMap) (l m : List Activity) → push_all em (l ++ m) ≡ push_all (push_all em l) m
unfolding push_all
push_all-append em [] m = refl
push_all-append em (a ∷ l) m = push_all-append (push em a) l m

take_nil : (n : ℕ) → take {A = Activity} n [] ≡ []
take_nil zero = refl
take_nil (suc n) = refl

take_taken : (m : ℕ) (l : List Activity) → take (length (take m l)) l ≡ take m l
take_taken zero l = refl
take_taken (suc m) [] = refl
take_taken (suc m) (x ∷ l) = ap (λ r. x ∷ r) (take_taken m l)

take_next :
    (n m : ℕ) (l : List Activity)
    → take n l ++ take m (drop n l) ≡ take (n + length (take m (drop n l))) l
take_next zero m l =
    let e : length (take m l) ≡ 0 + length (take m l) = omega arith in
    sym (take_taken m l) ∙ ap (λ k. take k l) e
take_next (suc n) m [] = take_nil m ∙ sym (take_nil (suc n + length (take {A = Activity} m [])))
take_next (suc n) m (x ∷ l) =
    let k = length (take m (drop n l)) in
    let e : suc (n + k) ≡ suc n + k = omega arith in
    ap (λ r. x ∷ r) (take_next n m l) ∙ ap (λ i. take i (x ∷ l)) e

module _ (max : ℕ) (records : List Activity) where
  -- The map that a number of the records leads to.
  abbrev pub map_of : ℕ → EventMap
  map_of n = push_all (record { max = max; ids = []; m = [] }) (take n records)

  -- The records are at their end, or the map is full.
  abbrev pub Done : ℕ → Type 0
  Done n = (length records ≤ n) ⊎ (max ≤ length (map_of n).m)

  abbrev pub Collected : List Bool → Option EventMap → Type 0
  Collected queries none = Failed queries
  Collected queries (some em) = (n : ℕ) × (em ≡ map_of n) × Done n

  next_map :
      (p : ℕ) (found : List Activity)
      → found ≡ take max (drop p records)
      → push_all (map_of p) found ≡ map_of (p + length found)
  next_map p found e =
      let empty : EventMap = record { max = max; ids = []; m = [] } in
      sym (push_all-append empty (take p records) found)
      ∙ ap (push_all empty) (
          subst (λ f. take p records ++ f ≡ take (p + length f) records) (sym e)
            (take_next p max records))

  nothing_left : (p : ℕ) → [] ≡ take max (drop p records) → Done p
  nothing_left p e =
      let none_there : 0 ≡ length (take max (drop p records)) = ap length e in
      elim (Bool-cases (ltb 0 max)) [
        | inl positive ↦ inl (
            ground (
              arith,
              none_there,
              length-take max (drop p records),
              length-drop p records,
              positive,
            ))
        | inr zero_ ↦ inr (ground (arith, zero_))
      ]

  pub later_query :
      (q : Bool) (qs : List Bool) (o : Option EventMap) → Collected qs o → Collected (q ∷ qs) o
  later_query q qs none h = inr h
  later_query q qs (some em) h = h

  query_next :
      (q : Bool) (qs : List Bool) (o : ℕ) (go_on : List Activity → Option EventMap)
      → Collected qs (go_on (take max (drop o records)))
      → Collected (q ∷ qs) (fetched (asked max records q o) go_on)
  query_next false qs o go_on h = inl refl
  query_next true qs o go_on h = later_query true qs (go_on (take max (drop o records))) h

  none_new :
      (p : ℕ) (a : Activity) (rest : List Activity)
      → (a ∷ rest) ≡ take max (drop p records)
      → ltb (length (map_of p).ids) (length (push_all (map_of p) (a ∷ rest)).ids) ≡ false
      → Done (p + length (a ∷ rest))
  none_new p a rest e no_more =
      let (same, full) = none_counted (map_of p) a rest (ground (arith, no_more)) in
      let is = push_all_max (record { max = max; ids = []; m = [] }) (take p records) in
      inr (
        subst (λ m. max ≤ length m.m) (next_map p (a ∷ rest) e)
          (subst (λ m. max ≤ length m.m) (sym same) (subst (λ x. x ≤ length (map_of p).m) is full)))

  pub collect-Collected :
      (queries : List Bool) (p : ℕ) (found : List Activity)
      → found ≡ take max (drop p records)
      → length records ≤ p + length queries
      → Collected queries
          (collect (map (asked max records) queries) (p + length found) found (map_of p))
  unfolding collect
  collect-Collected queries p [] e h = (p, refl, nothing_left p e)
  collect-Collected [] p (a ∷ rest) e h =
      let some_there : suc (length rest) ≡ length (take max (drop p records)) = ap length e in
      absurd (omega (arith, some_there, length-take max (drop p records), length-drop p records, h))
  collect-Collected (q ∷ qs) p (a ∷ rest) e h =
      let o : ℕ = p + length (a ∷ rest) in
      elim (Bool-cases
        (ltb (length (map_of p).ids) (length (push_all (map_of p) (a ∷ rest)).ids))) [
          | inr no_more ↦
              rw no_more
                (p + length (a ∷ rest), next_map p (a ∷ rest) e, none_new p a rest e no_more)
          | inl more ↦ rw more (
              query_next q qs o
                (λ found.
                  collect (map (asked max records) qs) (o + length found) found
                    (push_all (map_of p) (a ∷ rest)))
                (subst
                  (λ m. Collected qs (
                    collect (map (asked max records) qs) (o + length (take max (drop o records)))
                      (take max (drop o records)) m))
                  (sym (next_map p (a ∷ rest) e))
                  (collect-Collected qs o (take max (drop o records)) refl (omega (arith, h)))))
        ]
