-- ===== src/Cron/Taken.antt =====
-- Which of the records that the SFTP cron job (sftp_cron.go) has seen are counted.
use mathlib.Core.List.{append-nil, append_assoc}
use feathers.Prelude.{
  ℕ, ◌+◌, ◌≤◌, ◌<◌, ◌≡◌, refl, ap, sym, ◌∙◌, subst, Bool, true, false, ◌||◌, Option, none, some,
  ◌⊎◌, inl, inr, List, [], ◌∷◌, ◌++◌, length, length-append, arith, leb, leb→le, Bool-cases,
  if◌then◌else◌,
}
use feathers.Cron.Keys.{key_eq_sound, key_eq_refl, lookup-put, length-put}
use feathers.Cron.Groups.{Accounted, Pushed, push_by}
use feathers.Cron.{
  Activity, MapKey, key_eq, key_of, Group, EventMap, lookup, put, new_group, group_or_new,
  for_activity, merge, push_to, push, push_all,
}

abbrev is_some : Option Group → Bool
is_some none = false
is_some (some g) = true

abbrev pub has_group : MapKey → List (MapKey × Group) → Bool
has_group k m = is_some (lookup k m)

-- The records that have a group.
abbrev pub grouped_of : List (MapKey × Group) → List Activity → List Activity
grouped_of m [] = []
grouped_of m (a ∷ rest) =
    if has_group (key_of a) m then a ∷ grouped_of m rest else grouped_of m rest

abbrev AllGrouped : List (MapKey × Group) → List Activity → Type 0
AllGrouped m [] = Unit {0}
AllGrouped m (a ∷ rest) = (has_group (key_of a) m ≡ true) × AllGrouped m rest

all_grouped : (m : List (MapKey × Group)) (l : List Activity) → AllGrouped m l → grouped_of m l ≡ l
all_grouped m [] h = refl
all_grouped m (a ∷ rest) h = rw (h.0) (ap (λ l. a ∷ l) (all_grouped m rest h.1))

grouped_of_snoc :
    (m : List (MapKey × Group)) (l : List Activity) (a : Activity)
    → grouped_of m (l ++ a ∷ []) ≡ grouped_of m l ++ (if has_group (key_of a) m then a ∷ [] else [])
grouped_of_snoc m [] a = elim (Bool-cases (has_group (key_of a) m)) [
  | inl y ↦ rw y refl
  | inr n ↦ rw n refl
]
grouped_of_snoc m (x ∷ l) a = elim (Bool-cases (has_group (key_of x) m)) [
  | inl y ↦ rw y (ap (λ r. x ∷ r) (grouped_of_snoc m l a))
  | inr n ↦ rw n (grouped_of_snoc m l a)
]

same_groups :
    (m m' : List (MapKey × Group)) (l : List Activity)
    → ((k : MapKey) → has_group k m' ≡ has_group k m)
    → grouped_of m' l ≡ grouped_of m l
same_groups m m' [] h = refl
same_groups m m' (a ∷ rest) h = rw (h (key_of a), same_groups m m' rest h) refl

has_group-put :
    (k j : MapKey) (g : Group) (m : List (MapKey × Group))
    → has_group k (put j g m) ≡ key_eq j k || has_group k m
has_group-put k j g m = elim (Bool-cases (key_eq j k)) [
  | inl y ↦ ap is_some (lookup-put k j g m) ∙ rw y refl
  | inr n ↦ ap is_some (lookup-put k j g m) ∙ rw n refl
]

own_group : (j : MapKey) (g : Group) (m : List (MapKey × Group)) → has_group j (put j g m) ≡ true
own_group j g m = has_group-put j j g m ∙ rw (key_eq_refl j) refl

-- A group of a key that has one changes no other answer.
put_again :
    (j : MapKey) (g h : Group) (m : List (MapKey × Group))
    → lookup j m ≡ some h
    → (k : MapKey) → has_group k (put j g m) ≡ has_group k m
put_again j g h m e k = elim (Bool-cases (key_eq j k)) [
  | inl y ↦
      has_group-put k j g m
      ∙ rw y (sym (ap (λ i. has_group i m) (sym (key_eq_sound j k y)) ∙ ap is_some e))
  | inr n ↦ has_group-put k j g m ∙ rw n refl
]

put_keeps :
    (j : MapKey) (g : Group) (m : List (MapKey × Group)) (l : List Activity)
    → AllGrouped m l
    → AllGrouped (put j g m) l
put_keeps j g m [] h = tt
put_keeps j g m (a ∷ rest) h = (
  has_group-put (key_of a) j g m ∙ rw (h.0) (or_true (key_eq j (key_of a))),
  put_keeps j g m rest h.1,
)
  where
    or_true : (b : Bool) → b || true ≡ true
    or_true true = refl
    or_true false = refl

snoc_grouped :
    (m : List (MapKey × Group)) (l : List Activity) (a : Activity)
    → AllGrouped m l
    → has_group (key_of a) m ≡ true
    → AllGrouped m (l ++ a ∷ [])
snoc_grouped m [] a h e = (e, tt)
snoc_grouped m (x ∷ l) a h e = (h.0, snoc_grouped m l a h.1 e)

-- Of the records seen, the map accounts for those that have a group, and these are all of them unless it is
-- full.
abbrev pub Seen : EventMap → List Activity → Type 0
Seen em seen = Accounted em (grouped_of em.m seen) × (AllGrouped em.m seen ⊎ (em.max ≤ length em.m))

-- A record that is not left out is counted.
counted :
    (em next : EventMap) (taken : List Activity) (a : Activity)
    → Pushed em taken a next
    → ¬ ((lookup (key_of a) em.m ≡ none) × (length em.m ≡ em.max))
    → Accounted next (taken ++ a ∷ [])
counted em next taken a (inl acc) h = acc
counted em next taken a (inr (same, missing, full)) h = absurd (h (missing, full))

push_again-Seen :
    (em : EventMap) (seen : List Activity) (a : Activity) (g : Group)
    → Seen em seen
    → lookup (key_of a) em.m ≡ some g
    → Seen (push_to em a (some g)) (seen ++ a ∷ [])
unfolding push_to group_or_new
push_again-Seen em seen a g h e =
    let m' = put (key_of a) (merge a g) em.m in
    let is : grouped_of m' (seen ++ a ∷ []) ≡ grouped_of em.m seen ++ a ∷ [] =
      grouped_of_snoc m' seen a
      ∙ rw (own_group (key_of a) (merge a g) em.m) (
          ap (λ l. l ++ a ∷ [])
            (same_groups em.m m' seen (put_again (key_of a) (merge a g) g em.m e))) in
    (
      subst (Accounted (push_to em a (some g))) (sym is) (
          counted em (push_to em a (some g)) (grouped_of em.m seen) a
            (push_by em (grouped_of em.m seen) a (some g) h.0 e) (λ x. cc)),
      elim (h.1) [
        | inl all ↦ inl (
            snoc_grouped m' seen a (put_keeps (key_of a) (merge a g) em.m seen all)
              (own_group (key_of a) (merge a g) em.m))
        | inr full ↦ inr (rw (length-put (key_of a) (merge a g) em.m g e) full)
      ],
    )

push_new-Seen :
    (em : EventMap) (seen : List Activity) (a : Activity)
    → Seen em seen
    → lookup (key_of a) em.m ≡ none
    → length em.m < em.max
    → Seen (push_to em a (some (new_group a))) (seen ++ a ∷ [])
unfolding push_to group_or_new
push_new-Seen em seen a h e room = elim (h.1) [
  | inr full ↦ absurd (omega (arith, room, full))
  | inl all ↦
      let m' = put (key_of a) (merge a (new_group a)) em.m in
      let no_more : leb em.max (length em.m) ≡ false = ground (arith, room) in
      let all' : AllGrouped m' (seen ++ a ∷ []) =
        snoc_grouped m' seen a (put_keeps (key_of a) (merge a (new_group a)) em.m seen all)
          (own_group (key_of a) (merge a (new_group a)) em.m) in
      let is : grouped_of m' (seen ++ a ∷ []) ≡ grouped_of em.m seen ++ a ∷ [] =
        all_grouped m' (seen ++ a ∷ []) all'
        ∙ ap (λ l. l ++ a ∷ []) (sym (all_grouped em.m seen all)) in
      let pushed = push_by em (grouped_of em.m seen) a none h.0 e in
      (
        subst (Accounted (push_to em a (some (new_group a)))) (sym is) (
            counted em (push_to em a (some (new_group a))) (grouped_of em.m seen) a
              (rw no_more at pushed) (λ x. omega (arith, x.1, room))),
        inl all',
      )
]

push_full-Seen :
    (em : EventMap) (seen : List Activity) (a : Activity)
    → Seen em seen
    → lookup (key_of a) em.m ≡ none
    → em.max ≤ length em.m
    → Seen em (seen ++ a ∷ [])
push_full-Seen em seen a h e full =
    let no : has_group (key_of a) em.m ≡ false = ap is_some e in
    (
      subst (Accounted em)
          (sym (grouped_of_snoc em.m seen a ∙ rw no (append-nil (grouped_of em.m seen)))) h.0,
      inr full,
    )

push_to-Seen :
    (em : EventMap) (seen : List Activity) (a : Activity) (o : Option Group)
    → Seen em seen
    → lookup (key_of a) em.m ≡ o
    → Seen (push_to em a (group_or_new em a o)) (seen ++ a ∷ [])
unfolding group_or_new push_to
push_to-Seen em seen a (some g) h e = push_again-Seen em seen a g h e
push_to-Seen em seen a none h e = elim (Bool-cases (leb em.max (length em.m))) [
  | inl full ↦ rw full (push_full-Seen em seen a h e (leb→le em.max (length em.m) full))
  | inr room ↦ rw room (push_new-Seen em seen a h e (ground (arith, room)))
]

pub push_all-Seen :
    (em : EventMap) (seen found : List Activity)
    → Seen em seen
    → Seen (push_all em found) (seen ++ found)
unfolding push_all push for_activity
push_all-Seen em seen [] h = subst (Seen em) (sym (append-nil seen)) h
push_all-Seen em seen (a ∷ rest) h =
    subst (Seen (push_all (push em a) rest)) (append_assoc seen (a ∷ []) rest) (
      push_all-Seen (push em a) (seen ++ a ∷ []) rest
        (push_to-Seen em seen a (lookup (key_of a) em.m) h refl))

pub empty_Seen : (max : ℕ) → Seen (record { max = max; ids = []; m = [] }) []
unfolding lookup
empty_Seen max = (record { ids_taken = refl; grouped = λ k. tt; bounded = omega arith }, inl tt)

-- A record that is left out changes nothing, and one that is counted adds its identifier.
push_grows :
    (em : EventMap) (a : Activity) (o : Option Group)
    → ((push_to em a (group_or_new em a o) ≡ em) × (em.max ≤ length em.m))
      ⊎ (length (push_to em a (group_or_new em a o)).ids ≡ length em.ids + 1)
unfolding push_to group_or_new
push_grows em a (some g) = inr (length-append em.ids (a.id ∷ []))
push_grows em a none = elim (Bool-cases (leb em.max (length em.m))) [
  | inl full ↦ rw full (inl (refl, leb→le em.max (length em.m) full))
  | inr room ↦ rw room (inr (length-append em.ids (a.id ∷ [])))
]

push_all_grows :
    (em : EventMap) (found : List Activity) → length em.ids ≤ length (push_all em found).ids
unfolding push_all push for_activity
push_all_grows em [] = omega arith
push_all_grows em (a ∷ rest) = elim (push_grows em a (lookup (key_of a) em.m)) [
  | inl (same, full) ↦
      let is = ap (λ m. length (push_all m rest).ids) same in
      omega (arith, is, push_all_grows em rest)
  | inr more ↦ omega (arith, more, push_all_grows (push em a) rest)
]

unchanged :
    (em : EventMap) (found : List Activity)
    → length (push_all em found).ids ≤ length em.ids
    → push_all em found ≡ em
unfolding push_all push for_activity
unchanged em [] h = refl
unchanged em (a ∷ rest) h = elim (push_grows em a (lookup (key_of a) em.m)) [
  | inl (same, full) ↦
      let is = ap (λ m. length (push_all m rest).ids) same in
      ap (λ m. push_all m rest) same ∙ unchanged em rest (omega (arith, is, h))
  | inr more ↦ absurd (omega (arith, more, push_all_grows (push em a) rest, h))
]

first_full :
    (em : EventMap) (a : Activity) (rest : List Activity)
    → length (push_all em (a ∷ rest)).ids ≤ length em.ids
    → em.max ≤ length em.m
unfolding push_all push for_activity
first_full em a rest h = elim (push_grows em a (lookup (key_of a) em.m)) [
  | inl (same, full) ↦ full
  | inr more ↦ absurd (omega (arith, more, push_all_grows (push em a) rest, h))
]

-- Records of which none is counted change nothing, and then the map is full.
pub none_counted :
    (em : EventMap) (a : Activity) (rest : List Activity)
    → length (push_all em (a ∷ rest)).ids ≤ length em.ids
    → (push_all em (a ∷ rest) ≡ em) × (em.max ≤ length em.m)
none_counted em a rest h = (unchanged em (a ∷ rest) h, first_full em a rest h)
