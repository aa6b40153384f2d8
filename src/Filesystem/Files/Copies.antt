-- ===== src/Filesystem/Files/Copies.antt =====
-- The name of a copy and its charge, in server/filesystem/filesystem.go.
use feathers.Prelude.{
  ℕ, ◌+◌, ◌≤◌, ◌<◌, ◌≡◌, refl, sym, ap, ◌∙◌, inl, inr, Bool, true, false, not, ◌&&◌, Option, none,
  some, [], ◌∷◌, ◌++◌, arith, Bool-cases, if◌then◌else◌, zero, suc, reverse, ◌==◌, drop,
}
use mathlib.Core.List.{append_assoc, reverse-append, reverse-cons, reverse-reverse, append-nil}
use feathers.Prelude.Text.{Text, codes, text_eq, has_prefix, has_prefix_sound}
use feathers.Filesystem.Files.{
  Node, Volume, Reader, Calls, lookup, copy, copy_node, copy_file, copy_named, find_copy_suffix,
  next_name, copy_suffix, stat_in, is_there, split_name, split_extension, split_reversed, file,
  directory, stat_failed,
}
use feathers.Filesystem.Files.Charges.{
  Charged, copy_into-Charged, either_charged, total, max_size, unless_full-Charged,
}

next_name_free :
    (stat : Text → Option Bool) (o : Option Bool) (m n : Text) (rest : Option Text)
    → stat m ≡ o
    → (o ≡ some true → rest ≡ some n → stat n ≡ some false)
    → next_name o m rest ≡ some n
    → stat n ≡ some false
unfolding next_name
next_name_free stat none m n rest q later e = cc
next_name_free stat (some false) m n rest q later e = cc
next_name_free stat (some true) m n rest q later e = later refl e

-- The name that is found, where one of those that are tried is free, is free.
find_copy_suffix_free :
    (stat : Text → Option Bool) (now name ext : Text) (i rounds k : ℕ) (n : Text)
    → k < rounds
    → stat (name ++ copy_suffix (i + k) ++ ext) ≡ some false
    → find_copy_suffix stat now name ext i rounds ≡ some n
    → stat n ≡ some false
unfolding find_copy_suffix
find_copy_suffix_free stat now name ext i zero k n h free e = absurd (omega (arith, h))
find_copy_suffix_free stat now name ext i (suc rounds) zero n h free e =
    next_name_free stat (stat (name ++ copy_suffix i ++ ext)) (name ++ copy_suffix i ++ ext) n
      (find_copy_suffix stat now name ext (i + 1) rounds) refl (λ there later. absurd (taken there))
      e
  where
    taken : stat (name ++ copy_suffix i ++ ext) ≡ some true → ⊥
    taken there =
        let same : i + 0 ≡ i = omega arith in
        let gone = ap (λ j. stat (name ++ copy_suffix j ++ ext)) same in cc
find_copy_suffix_free stat now name ext i (suc rounds) (suc k) n h free e =
    let shift : i + suc k ≡ i + 1 + k = omega arith in
    let m = name ++ copy_suffix i ++ ext in
    next_name_free stat (stat m) m n (find_copy_suffix stat now name ext (i + 1) rounds) refl
      (λ there later.
        find_copy_suffix_free stat now name ext (i + 1) rounds k n (omega (arith, h))
          (ap (λ j. stat (name ++ copy_suffix j ++ ext)) (sym shift) ∙ free) later)
      e

back : (c : ℕ) (cs acc : Text) → reverse cs ++ (c ∷ acc) ≡ reverse (c ∷ cs) ++ acc
back c cs acc =
    sym (ap (λ r. r ++ acc) (reverse-cons c cs) ∙ append_assoc (reverse cs) (c ∷ []) acc)

split_reversed_parts :
    (acc cs : Text)
    → reverse (split_reversed acc cs).0 ++ (split_reversed acc cs).1 ≡ reverse cs ++ acc
unfolding split_reversed
split_reversed_parts acc [] = refl
split_reversed_parts acc (c ∷ cs) = elim (Bool-cases (c == b'.')) [
  | inl dot ↦ rw dot (back c cs acc)
  | inr plain ↦ rw plain (split_reversed_parts (c ∷ acc) cs ∙ back c cs acc)
]

split_extension_parts :
    (name : Text) → reverse (split_extension name).0 ++ (split_extension name).1 ≡ name
unfolding split_extension
split_extension_parts name =
    let parts = split_reversed_parts [] (reverse name) in
    let (base, ext) = split_reversed [] (reverse name) in
    elim (Bool-cases (text_eq base [] && not (has_prefix ext (codes ".")))) [
      | inl none_ ↦ rw none_ (append-nil (reverse (reverse name)) ∙ reverse-reverse name)
      | inr dotted ↦ rw dotted (parts ∙ append-nil (reverse (reverse name)) ∙ reverse-reverse name)
    ]

-- The base and the extension that a name is taken apart into make up the name.
split_name_parts : (name : Text) → (split_name name).0 ++ (split_name name).1 ≡ name
unfolding split_name
split_name_parts name =
    let parts = split_extension_parts name in
    let (base, ext) = split_extension name in
    elim (Bool-cases (has_prefix base (codes "rat."))) [
      | inl tar ↦
          let whole = has_prefix_sound base (codes "rat.") tar in
          let rest = drop 4 base in
          rw tar (
            sym (append_assoc (reverse rest) (codes ".tar") ext)
            ∙ ap (λ l. l ++ ext) (sym (reverse-append (codes "rat.") rest) ∙ ap reverse (sym whole))
            ∙ parts)
      | inr other ↦ rw other parts
    ]

there_free : (o : Option Node) → is_there o ≡ false → o ≡ none
there_free none h = refl
there_free (some n) h = cc

stat_in_free :
    (dir : Text) (broken : Text → Bool) (v : Volume) (n : Text)
    → stat_in dir broken v n ≡ some false
    → lookup (dir ++ n) v.entries ≡ none
unfolding stat_in
stat_in_free dir broken v n h = elim (Bool-cases (broken n)) [
  | inl fails ↦ absurd (fails_not (broken n) (is_there (lookup (dir ++ n) v.entries)) fails h)
  | inr works ↦
      there_free (lookup (dir ++ n) v.entries)
        (answered (broken n) (is_there (lookup (dir ++ n) v.entries)) works h)
]
  where
    fails_not : (b c : Bool) → b ≡ true → (if b then none else some c) ≡ some false → ⊥
    fails_not true c e h = cc
    fails_not false c e h = cc

    answered : (b c : Bool) → b ≡ false → (if b then none else some c) ≡ some false → c ≡ false
    answered true c e h = cc
    answered false c e h = cc

module _ (dir name now : Text) (broken : Text → Bool) (r : Reader) (calls : Calls) (v : Volume)
    (ch : Charged v) where
  copy_named-Charged :
      (o : Option Text) (c : ℕ)
      → ((n : Text) → o ≡ some n → lookup (dir ++ n) v.entries ≡ none)
      → total v.entries + r.bytes ≤ max_size
      → Charged (copy_named dir o r c calls v).0
  unfolding copy_named
  copy_named-Charged none c free h = ch
  copy_named-Charged (some n) c free h =
      copy_into-Charged (dir ++ n) r calls v ch c (lookup (dir ++ n) v.entries) (free n refl) refl h

  copy_node-Charged :
      (o : Option Node) (k : ℕ)
      → k < 51
      → stat_in dir broken v ((split_name name).0 ++ copy_suffix k ++ (split_name name).1)
        ≡ some false
      → total v.entries + r.bytes ≤ max_size
      → Charged (copy_node dir name now broken r calls o v).0
  unfolding copy_node copy_file
  copy_node-Charged none k few free h = ch
  copy_node-Charged (some directory) k few free h = ch
  copy_node-Charged (some (file c)) k few free h =
      let (base, ext) = split_name name in
      let stat = stat_in dir broken v in
      let first : 0 + k ≡ k = omega arith in
      unless_full-Charged dir r calls v ch _ _ (
        copy_named-Charged (find_copy_suffix stat now base ext 0 51) c
          (λ n found. stat_in_free dir broken v n (
            find_copy_suffix_free stat now base ext 0 51 k n few
              (ap (λ j. stat (base ++ copy_suffix j ++ ext)) first ∙ free) found))
          h)

-- Copying keeps the usage of a volume equal to the size of its files, whatever the system answers at each
-- call, where one of the 51 names that are tried is free and all sizes stay int64: a copy is charged with
-- exactly what was written into it.
pub copy-Charged :
    (dir name now : Text) (broken : Text → Bool) (r : Reader) (calls : Calls) (v : Volume) (k : ℕ)
    → Charged v
    → k < 51
    → stat_in dir broken v ((split_name name).0 ++ copy_suffix k ++ (split_name name).1)
      ≡ some false
    → total v.entries + r.bytes ≤ max_size
    → Charged (copy dir name now broken r calls v).0
unfolding copy
copy-Charged dir name now broken r calls v k ch few free h =
    let done = copy_node dir name now broken r calls (lookup (dir ++ name) v.entries) v in
    either_charged (not calls.stat) (v, some stat_failed) done ch
      (copy_node-Charged dir name now broken r calls v ch (lookup (dir ++ name) v.entries) k few
        free h)

-- The name of a copy keeps the base and the extension of the name, with a suffix between them: the two parts
-- make up the name, ".tar" counts to the extension, and a copy that has one of the 51 suffixes is free.
pub copy_names :
    (stat : Text → Option Bool) (now name : Text) (k : ℕ) (n : Text)
    → k < 51
    → stat ((split_name name).0 ++ copy_suffix k ++ (split_name name).1) ≡ some false
    → find_copy_suffix stat now (split_name name).0 (split_name name).1 0 51 ≡ some n
    → ((split_name name).0 ++ (split_name name).1 ≡ name) × (stat n ≡ some false)
copy_names stat now name k n few free found =
    let first : 0 + k ≡ k = omega arith in
    let (base, ext) = split_name name in
    (
      split_name_parts name,
      find_copy_suffix_free stat now base ext 0 51 k n few
          (ap (λ j. stat (base ++ copy_suffix j ++ ext)) first ∙ free) found,
    )
