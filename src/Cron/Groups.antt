-- ===== src/Cron/Groups.antt =====
-- The groups of the SFTP cron job (sftp_cron.go) and the records that it counts.
use mathlib.Core.List.{append-nil, append_assoc}
use feathers.Prelude.{
  ℕ, ◌≤◌, ◌<◌, ◌≡◌, refl, ap, sym, ◌∙◌, subst, Option, none, some, ◌⊎◌, inl, inr, List, [], ◌∷◌,
  ◌++◌, map, length, arith, ltb, leb, Bool-cases, if◌then◌else◌,
}
use feathers.Prelude.Text.{Text}
use feathers.Cron.Keys.{key_eq_sound, lookup-put, length-put, put_new}
use feathers.Cron.{
  Activity, MapKey, key_eq, key_of, Group, EventMap, lookup, put, new_group, group_or_new,
  for_activity, files_of, merge, push_to, push,
}

-- The records of a key, among records in order.
abbrev pub of_key : MapKey → List Activity → List Activity
of_key k [] = []
of_key k (a ∷ rest) = if key_eq (key_of a) k then a ∷ of_key k rest else of_key k rest

abbrev pub all_files : List Activity → List Text
all_files [] = []
all_files (a ∷ rest) = files_of a.files ++ all_files rest

abbrev pub earliest : ℕ → List Activity → ℕ
earliest t [] = t
earliest t (a ∷ rest) = earliest (if ltb a.timestamp t then a.timestamp else t) rest

-- A group is that of records: it has their files in order and the earliest of their times.
abbrev pub Holds : Option Group → List Activity → Type 0
Holds none [] = Unit {0}
Holds none (a ∷ rest) = ⊥
Holds (some g) [] = ⊥
Holds (some g) (a ∷ rest) =
    (g.files ≡ all_files (a ∷ rest)) × (g.timestamp ≡ earliest a.timestamp rest)

-- The map has the groups of the records taken so far, in this order, and their identifiers.
pub record Accounted (em : EventMap) (taken : List Activity) : Type 0 where
  pub ids_taken : em.ids ≡ map (λ a. a.id) taken
  pub grouped : (k : MapKey) → Holds (lookup k em.m) (of_key k taken)
  pub bounded : length em.m ≤ em.max

all_files-append :
    (rs : List Activity) (a : Activity)
    → all_files (rs ++ a ∷ []) ≡ all_files rs ++ files_of a.files
all_files-append [] a = append-nil (files_of a.files)
all_files-append (r ∷ rs) a =
    ap (λ l. files_of r.files ++ l) (all_files-append rs a)
    ∙ sym (append_assoc (files_of r.files) (all_files rs) (files_of a.files))

earliest-append :
    (t : ℕ) (rs : List Activity) (a : Activity)
    → earliest t (rs ++ a ∷ [])
      ≡ (if ltb a.timestamp (earliest t rs) then a.timestamp else earliest t rs)
earliest-append t [] a = refl
earliest-append t (r ∷ rs) a = earliest-append (if ltb r.timestamp t then r.timestamp else t) rs a

of_key-append :
    (k : MapKey) (rs : List Activity) (a : Activity)
    → of_key k (rs ++ a ∷ []) ≡ of_key k rs ++ (if key_eq (key_of a) k then a ∷ [] else [])
of_key-append k [] a = elim (Bool-cases (key_eq (key_of a) k)) [
  | inl same ↦ rw same refl
  | inr other ↦ rw other refl
]
of_key-append k (r ∷ rs) a = elim (Bool-cases (key_eq (key_of r) k)) [
  | inl same ↦ rw same (ap (λ l. r ∷ l) (of_key-append k rs a))
  | inr other ↦ rw other (of_key-append k rs a)
]

-- A record more in a group, and the first record of one.
merge-Holds :
    (g : Group) (rs : List Activity) (a : Activity)
    → Holds (some g) rs
    → Holds (some (merge a g)) (rs ++ a ∷ [])
unfolding merge
merge-Holds g [] a h = absurd h
merge-Holds g (r ∷ rs) a h = (
  ap (λ l. l ++ files_of a.files) h.0 ∙ sym (all_files-append (r ∷ rs) a),
  ap (λ t. if ltb a.timestamp t then a.timestamp else t) h.1
      ∙ sym (earliest-append r.timestamp rs a),
)

new_group-Holds :
    (rs : List Activity) (a : Activity)
    → Holds none rs
    → Holds (some (merge a (new_group a))) (rs ++ a ∷ [])
unfolding merge new_group
new_group-Holds [] a h = (sym (append-nil (files_of a.files)), ground arith)
new_group-Holds (r ∷ rs) a h = absurd h

-- A group that is put in the map is the only change, and so is the record in the records of its key.
grown :
    (a : Activity) (g : Group) (m : List (MapKey × Group)) (taken : List Activity)
    → ((k : MapKey) → Holds (lookup k m) (of_key k taken))
    → Holds (some g) (of_key (key_of a) taken ++ a ∷ [])
    → (k : MapKey) → Holds (lookup k (put (key_of a) g m)) (of_key k (taken ++ a ∷ []))
grown a g m taken before now k = elim (Bool-cases (key_eq (key_of a) k)) [
  | inl same ↦
      let is : key_of a ≡ k = key_eq_sound (key_of a) k same in
      rw (lookup-put k (key_of a) g m, of_key-append k taken a, same)
        (subst (λ j. Holds (some g) (of_key j taken ++ a ∷ [])) is now)
  | inr other ↦
      rw (lookup-put k (key_of a) g m, of_key-append k taken a, other, append-nil (of_key k taken))
        (before k)
]

-- A record is counted, or the map is full and has no group for it.
abbrev pub Pushed : EventMap → List Activity → Activity → EventMap → Type 0
Pushed em taken a next =
    Accounted next (taken ++ a ∷ [])
    ⊎ ((next ≡ em) × (lookup (key_of a) em.m ≡ none) × (length em.m ≡ em.max))

map_snoc :
    (taken : List Activity) (a : Activity)
    → map (λ x. x.id) (taken ++ a ∷ []) ≡ map (λ x. x.id) taken ++ a.id ∷ []
map_snoc [] a = refl
map_snoc (t ∷ taken) a = ap (λ l. t.id ∷ l) (map_snoc taken a)

pub push_by :
    (em : EventMap) (taken : List Activity) (a : Activity) (o : Option Group)
    → Accounted em taken
    → lookup (key_of a) em.m ≡ o
    → Pushed em taken a (push_to em a (group_or_new em a o))
unfolding push_to group_or_new
push_by em taken a (some g) acc e = inl (record {
  ids_taken = ap (λ l. l ++ a.id ∷ []) acc.ids_taken ∙ sym (map_snoc taken a);
  grouped = grown a (merge a g) em.m taken acc.grouped (
      merge-Holds g (of_key (key_of a) taken) a
        (subst (λ x. Holds x (of_key (key_of a) taken)) e (acc.grouped (key_of a))));
  bounded = rw (length-put (key_of a) (merge a g) em.m g e) acc.bounded;
})
push_by em taken a none acc e = elim (Bool-cases (leb em.max (length em.m))) [
  | inl full ↦ rw full (inr (refl, e, ground (arith, full, acc.bounded)))
  | inr room ↦ rw room (
      inl (record {
        ids_taken = ap (λ l. l ++ a.id ∷ []) acc.ids_taken ∙ sym (map_snoc taken a);
        grouped = grown a (merge a (new_group a)) em.m taken acc.grouped (
            new_group-Holds (of_key (key_of a) taken) a
              (subst (λ x. Holds x (of_key (key_of a) taken)) e (acc.grouped (key_of a))));
        bounded =
            let less : length em.m < em.max = ground (arith, room) in
            omega (arith, put_new (key_of a) (merge a (new_group a)) em.m, less);
      }))
]

pub push-Pushed :
    (em : EventMap) (taken : List Activity) (a : Activity)
    → Accounted em taken
    → Pushed em taken a (push em a)
unfolding push for_activity
push-Pushed em taken a acc = push_by em taken a (lookup (key_of a) em.m) acc refl
