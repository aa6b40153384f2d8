-- ===== src/Winproc/ChildEnv/Merging.antt =====
-- What the entries of the merged environment are.
use feathers.Prelude.{
  ℕ, ◌+◌, ◌≤◌, ◌≡◌, refl, sym, ◌∙◌, ap, inl, inr, Bool, true, false, Option, none, some, List, [],
  ◌∷◌, ◌++◌, arith, Bool-cases, Option-cases, subst, if◌then◌else◌, map,
}
use feathers.Prelude.Text.{Text, codes, text_eq, text_eq_sound, text_eq_refl}
use feathers.Docker.{to_upper}
use feathers.Winproc.{cut}
use feathers.Winproc.ChildEnv.{put_entry, put, put_all, merge_child_env}

-- The key of an entry: what stands before its first "=", in upper case.
unfoldable pub key_of : Text → Option Text
key_of kv = elim (cut kv) [ none ↦ none | some p ↦ some (to_upper (p.0)) ]

-- Whether an entry has a key.
unfoldable pub has_key : Text → Text → Bool
has_key k kv = elim (key_of kv) [ none ↦ false | some j ↦ text_eq j k ]

-- The second, unless there is none.
abbrev pub or_later : Option Text → Option Text → Option Text
or_later o none = o
or_later o (some x) = some x

-- The last entry with a key, and how many there are.
unfoldable pub last_with : Text → List Text → Option Text
last_with k [] = none
last_with k (kv ∷ kvs) = or_later (if has_key k kv then some kv else none) (last_with k kvs)

unfoldable pub holders : Text → List Text → ℕ
holders k [] = 0
holders k (kv ∷ kvs) = (if has_key k kv then 1 else 0) + holders k kvs

abbrev Pairs : Type 0
Pairs = List (Text × Text)

abbrev entries : Pairs → List Text
entries m = map (λ p. p.1) m

-- Each entry is stored under its key.
abbrev Keyed : Pairs → Type 0
Keyed [] = Unit {0}
Keyed ((j, v) ∷ m) = (key_of v ≡ some j) × Keyed m

abbrev Good : Pairs → Type 0
Good m = Keyed m × ((k : Text) → holders k (entries m) ≤ 1)

has_key_at : (k j kv : Text) → key_of kv ≡ some j → has_key k kv ≡ text_eq j k
unfolding has_key
has_key_at k j kv h = ap (λ (o : Option Text). elim o [ none ↦ false | some i ↦ text_eq i k ]) h

no_holder : (k : Text) (kvs : List Text) → holders k kvs ≡ 0 → last_with k kvs ≡ none
unfolding holders last_with
no_holder k [] h = refl
no_holder k (kv ∷ kvs) h = elim (Bool-cases (has_key k kv)) [
  | inl held ↦ absurd (ground (arith, held, h))
  | inr other ↦ rw (other, no_holder k kvs (ground (arith, other, h))) refl
]

one_holder :
    (k v : Text) (kvs : List Text)
    → has_key k v ≡ true
    → holders k (v ∷ kvs) ≤ 1
    → holders k kvs ≡ 0
unfolding holders
one_holder k v kvs held few = ground (arith, held, few)

fewer_holders : (k v : Text) (kvs : List Text) → holders k (v ∷ kvs) ≤ 1 → holders k kvs ≤ 1
unfolding holders
fewer_holders k v kvs few = ground (arith, few)

module _ (j kv : Text) (at : key_of kv ≡ some j) where
  put_entry-Keyed : (m : Pairs) → Keyed m → Keyed (put_entry j kv m)
  unfolding put_entry
  put_entry-Keyed [] wf = (at, tt)
  put_entry-Keyed ((i, v) ∷ m) (wf, rest) = elim (Bool-cases (text_eq i j)) [
    | inl same ↦ rw same (rw (text_eq_sound i j same) at, rest)
    | inr other ↦ rw other (wf, put_entry-Keyed m rest)
  ]

  put_entry_other :
      (k : Text) (m : Pairs)
      → Keyed m
      → text_eq j k ≡ false
      → (holders k (entries (put_entry j kv m)) ≡ holders k (entries m))
        × (last_with k (entries (put_entry j kv m)) ≡ last_with k (entries m))
  unfolding put_entry holders last_with
  put_entry_other k [] wf other = rw (has_key_at k j kv at, other) (refl, refl)
  put_entry_other k ((i, v) ∷ m) (wf, rest) other = elim (Bool-cases (text_eq i j)) [
    | inl same ↦
        rw (same, has_key_at k j kv at, has_key_at k i v wf, text_eq_sound i j same, other)
          (refl, refl)
    | inr differs ↦ let (h, l) = put_entry_other k m rest other in rw (differs, h, l) (refl, refl)
  ]

  put_entry_same :
      (m : Pairs)
      → Keyed m
      → holders j (entries m) ≤ 1
      → (holders j (entries (put_entry j kv m)) ≡ 1)
        × (last_with j (entries (put_entry j kv m)) ≡ some kv)
  unfolding put_entry holders last_with
  put_entry_same [] wf few = rw (has_key_at j j kv at, text_eq_refl j) (refl, refl)
  put_entry_same ((i, v) ∷ m) (wf, rest) few = elim (Bool-cases (text_eq i j)) [
    | inl same ↦
        let held = has_key_at j i v wf ∙ same in
        let gone = one_holder j v (entries m) held few in
        rw (same, has_key_at j j kv at, text_eq_refl j, gone, no_holder j (entries m) gone)
          (refl, refl)
    | inr differs ↦
        let free = has_key_at j i v wf ∙ differs in
        let (h, l) = put_entry_same m rest (fewer_holders j v (entries m) few) in
        rw (differs, free, h, l) (refl, refl)
  ]

key_cut : (kv : Text) (p : Text × Text) → cut kv ≡ some p → key_of kv ≡ some (to_upper (p.0))
unfolding key_of
key_cut kv p h = rw (key_of, h) refl

no_key : (k kv : Text) → cut kv ≡ none → has_key k kv ≡ false
unfolding has_key key_of
no_key k kv h = rw (has_key, key_of, h) refl

-- One `put`, for one key.
put_entry-Good : (j kv : Text) (m : Pairs) → key_of kv ≡ some j → Good m → Good (put_entry j kv m)
put_entry-Good j kv m at (keyed, few) = (
  put_entry-Keyed j kv at m keyed,
  λ k. elim (Bool-cases (text_eq j k)) [
    | inl same ↦
        rw (sym (text_eq_sound j k same))
          (omega (arith, (put_entry_same j kv at m keyed (few j)).0))
    | inr other ↦ rw (put_entry_other j kv at k m keyed other).0 (few k)
  ],
)

put-Good : (kv : Text) (m : Pairs) → Good m → Good (put kv m)
unfolding put
put-Good kv m good = elim (Option-cases (cut kv)) [
  | inl bad ↦ rw (put, bad) good
  | inr (p, e) ↦ rw (put, e) (put_entry-Good (to_upper (p.0)) kv m (key_cut kv p e) good)
]

last_with-put_entry :
    (k j kv : Text) (m : Pairs)
    → key_of kv ≡ some j
    → Good m
    → last_with k (entries (put_entry j kv m))
      ≡ or_later (last_with k (entries m)) (if has_key k kv then some kv else none)
last_with-put_entry k j kv m at (keyed, few) = elim (Bool-cases (text_eq j k)) [
  | inl same ↦
      rw (has_key_at k j kv at, same)
        (rw (sym (text_eq_sound j k same)) ((put_entry_same j kv at m keyed (few j)).1))
  | inr other ↦ rw (has_key_at k j kv at, other) ((put_entry_other j kv at k m keyed other).1)
]

last_with-put :
    (k kv : Text) (m : Pairs)
    → Good m
    → last_with k (entries (put kv m))
      ≡ or_later (last_with k (entries m)) (if has_key k kv then some kv else none)
unfolding put
last_with-put k kv m good = elim (Option-cases (cut kv)) [
  | inl bad ↦ rw (put, bad, no_key k kv bad) refl
  | inr (p, e) ↦ rw (put, e) (last_with-put_entry k (to_upper (p.0)) kv m (key_cut kv p e) good)
]

or_later_assoc : (a b c : Option Text) → or_later (or_later a b) c ≡ or_later a (or_later b c)
or_later_assoc a b none = refl
or_later_assoc a b (some x) = refl

put_all-Good : (kvs : List Text) (m : Pairs) → Good m → Good (put_all kvs m)
unfolding put_all
put_all-Good [] m good = good
put_all-Good (kv ∷ kvs) m good = put_all-Good kvs (put kv m) (put-Good kv m good)

last_with-put_all :
    (k : Text) (kvs : List Text) (m : Pairs)
    → Good m
    → last_with k (entries (put_all kvs m)) ≡ or_later (last_with k (entries m)) (last_with k kvs)
unfolding put_all last_with
last_with-put_all k [] m good = refl
last_with-put_all k (kv ∷ kvs) m good =
    last_with-put_all k kvs (put kv m) (put-Good kv m good)
    ∙ ap (λ o. or_later o (last_with k kvs)) (last_with-put k kv m good)
    ∙ or_later_assoc (last_with k (entries m)) (if has_key k kv then some kv else none)
        (last_with k kvs)

put_all-append : (xs ys : List Text) (m : Pairs) → put_all (xs ++ ys) m ≡ put_all ys (put_all xs m)
unfolding put_all
put_all-append [] ys m = refl
put_all-append (x ∷ xs) ys m = put_all-append xs ys (put x m)

merge_all :
    (environ egg_vars : List Text) (tmp_dir : Text)
    → merge_child_env environ egg_vars tmp_dir
      ≡ entries (
          put_all
            (environ ++ (egg_vars ++ (codes "TEMP=" ++ tmp_dir) ∷ (codes "TMP=" ++ tmp_dir) ∷ []))
            [])
unfolding merge_child_env
merge_all environ egg_vars tmp_dir =
    let own = (codes "TEMP=" ++ tmp_dir) ∷ (codes "TMP=" ++ tmp_dir) ∷ [] in
    ap entries (
      sym (
        put_all-append environ (egg_vars ++ own) []
        ∙ put_all-append egg_vars own (put_all environ [])))

Good-nil : Good []
unfolding holders
Good-nil = (tt, λ k. omega arith)

or_later-none : (o : Option Text) → or_later none o ≡ o
or_later-none none = refl
or_later-none (some x) = refl

-- The environment of the new process has at most one entry for each key, case aside, and it is the last
-- entry for that key among those of the daemon, then those of the server, then TEMP and TMP: so the
-- server's variables win over the daemon's, and the temporary directory over both.
pub merge_child_env_last :
    (environ egg_vars : List Text) (tmp_dir k : Text)
    → (last_with k (merge_child_env environ egg_vars tmp_dir)
        ≡ last_with k
            (environ ++ (egg_vars ++ (codes "TEMP=" ++ tmp_dir) ∷ (codes "TMP=" ++ tmp_dir) ∷ [])))
      × (holders k (merge_child_env environ egg_vars tmp_dir) ≤ 1)
unfolding last_with
merge_child_env_last environ egg_vars tmp_dir k =
    let all =
      environ ++ (egg_vars ++ (codes "TEMP=" ++ tmp_dir) ∷ (codes "TMP=" ++ tmp_dir) ∷ []) in
    let once = (put_all-Good all [] Good-nil).1 k in
    (
      ap (last_with k) (merge_all environ egg_vars tmp_dir)
          ∙ last_with-put_all k all [] Good-nil
          ∙ or_later-none (last_with k all),
      subst (λ l. holders k l ≤ 1) (sym (merge_all environ egg_vars tmp_dir)) once,
    )
