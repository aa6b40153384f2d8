-- ===== src/Downloads/Removal.antt =====
-- The removal of a download from the maps of the downloader (downloader.go).
use feathers.Prelude.{
  ◌≡◌, refl, ap, sym, ◌∙◌, true, false, Option, none, some, inl, inr, List, [], ◌∷◌, Bool-cases,
  if◌then◌else◌,
}
use feathers.Prelude.Text.{Text, text_eq, text_eq_refl, text_eq_sound}
use feathers.Prelude.TextMap.{find_key, find_key-set_key, find_key-delete_key, text_ne_other}
use feathers.Downloads.{Download, Downloader, or_empty, without, untrack, remove_found, remove}
use feathers.Downloads.Tracking.{first, ids_of, but, AllOwn, Tracks}

first-but_same : (id : Text) (ls : List Download) → first id (but id ls) ≡ none
first-but_same id [] = refl
first-but_same id (x ∷ xs) = elim (Bool-cases (text_eq x.identifier id)) [
  | inl same ↦ rw same (first-but_same id xs)
  | inr other ↦ rw (other, other) (first-but_same id xs)
]

first-but_other :
    (id k : Text) (ls : List Download) → text_eq id k ≡ false → first k (but id ls) ≡ first k ls
first-but_other id k [] ne = refl
first-but_other id k (x ∷ xs) ne = elim (Bool-cases (text_eq x.identifier id)) [
  | inl same ↦
      let is : x.identifier ≡ id = text_eq_sound x.identifier id same in
      let other : text_eq x.identifier k ≡ false = ap (λ y. text_eq y k) is ∙ ne in
      rw (same, other) (first-but_other id k xs ne)
  | inr stays ↦ elim (Bool-cases (text_eq x.identifier k)) [
    | inl here ↦ rw (stays, here) refl
    | inr there ↦ rw (stays, there) (first-but_other id k xs ne)
  ]
]

ids_of-but :
    (sid id : Text) (ls : List Download) → ids_of sid (but id ls) ≡ without id (ids_of sid ls)
unfolding without
ids_of-but sid id [] = refl
ids_of-but sid id (x ∷ xs) = elim (Bool-cases (text_eq x.identifier id)) [
  | inl gone ↦ elim (Bool-cases (text_eq x.server sid)) [
    | inl mine ↦ rw (gone, mine, gone) (ids_of-but sid id xs)
    | inr other ↦ rw (gone, other) (ids_of-but sid id xs)
  ]
  | inr stays ↦ elim (Bool-cases (text_eq x.server sid)) [
    | inl mine ↦ rw (stays, mine, stays) (ap (λ l. x.identifier ∷ l) (ids_of-but sid id xs))
    | inr other ↦ rw (stays, other) (ids_of-but sid id xs)
  ]
]

-- The identifier of a download is not among those of another server.
without-other :
    (sid id : Text) (all : List Download) (dl : Download) (ls : List Download)
    → AllOwn all ls
    → first id all ≡ some dl
    → text_eq dl.server sid ≡ false
    → without id (ids_of sid ls) ≡ ids_of sid ls
unfolding without
without-other sid id all dl [] own e ne = refl
without-other sid id all dl (x ∷ xs) own e ne = elim (Bool-cases (text_eq x.server sid)) [
  | inr other ↦ rw other (without-other sid id all dl xs own.1 e ne)
  | inl mine ↦ elim (Bool-cases (text_eq x.identifier id)) [
    | inl same ↦
        let is : x.identifier ≡ id = text_eq_sound x.identifier id same in
        let twice : some x ≡ some dl = sym own.0 ∙ ap (λ i. first i all) is ∙ e in
        let one : x ≡ dl = cc in
        let no : true ≡ false = sym mine ∙ ap (λ y. text_eq y.server sid) one ∙ ne in absurd (cc)
    | inr stays ↦
        rw (mine, stays) (ap (λ l. x.identifier ∷ l) (without-other sid id all dl xs own.1 e ne))
  ]
]

AllOwn-but : (id : Text) (all ls : List Download) → AllOwn all ls → AllOwn (but id all) (but id ls)
AllOwn-but id all [] own = tt
AllOwn-but id all (x ∷ xs) own = elim (Bool-cases (text_eq x.identifier id)) [
  | inl gone ↦ rw gone (AllOwn-but id all xs own.1)
  | inr stays ↦
      let apart : text_eq id x.identifier ≡ false =
        text_ne_other x.identifier id x.identifier (text_eq_refl x.identifier) stays in
      rw stays (first-but_other id x.identifier all apart ∙ own.0, AllOwn-but id all xs own.1)
]

-- The identifiers of the servers once that of a download is taken out.
untracked :
    (d : Downloader) (ls : List Download) (id : Text) (dl : Download) (sid : Text)
    → Tracks d ls
    → first id ls ≡ some dl
    → (o : Option (List Text)) → find_key dl.server d.server_cache ≡ o
    → or_empty (find_key sid (untrack id dl.server o d.server_cache)) ≡ without id (ids_of sid ls)
unfolding untrack
untracked d ls id dl sid t e none is = elim (Bool-cases (text_eq dl.server sid)) [
  | inl mine ↦
      let server : dl.server ≡ sid = text_eq_sound dl.server sid mine in
      let empty : [] ≡ ids_of sid ls =
        sym (ap or_empty is) ∙ t.listed dl.server ∙ ap (λ s. ids_of s ls) server in
      t.listed sid ∙ sym empty ∙ without_nil id ∙ ap (without id) empty
  | inr other ↦ t.listed sid ∙ sym (without-other sid id ls dl ls t.own e other)
]
  where
    without_nil : (id : Text) → [] ≡ without id []
    without_nil id = refl
untracked d ls id dl sid t e (some tracked) is =
    rw (find_key-set_key sid dl.server (without id tracked) d.server_cache)
      (elim (Bool-cases (text_eq dl.server sid)) [
        | inl mine ↦
            let server : dl.server ≡ sid = text_eq_sound dl.server sid mine in
            rw mine (
              ap (without id)
                (sym (ap or_empty is) ∙ t.listed dl.server ∙ ap (λ s. ids_of s ls) server))
        | inr other ↦ rw other (t.listed sid ∙ sym (without-other sid id ls dl ls t.own e other))
      ])

but_unknown : (id : Text) (ls : List Download) → first id ls ≡ none → but id ls ≡ ls
but_unknown id [] e = refl
but_unknown id (x ∷ xs) e = elim (Bool-cases (text_eq x.identifier id)) [
  | inl same ↦ let no : some x ≡ none = sym (rw same refl) ∙ e in absurd (cc)
  | inr other ↦ rw other (ap (λ l. x ∷ l) (but_unknown id xs (rw other at e)))
]

removed :
    (d : Downloader) (ls : List Download) (id : Text) (o : Option Download)
    → Tracks d ls
    → first id ls ≡ o
    → Tracks (remove_found id o d) (but id ls)
unfolding remove_found
removed d ls id none t e = rw (but_unknown id ls e) t
removed d ls id (some dl) t e = record {
  found = λ k. find_key-delete_key k id d.download_cache ∙ by_id k;
  listed = λ sid.
      untracked d ls id dl sid t e (find_key dl.server d.server_cache) refl
      ∙ sym (ids_of-but sid id ls);
  own = AllOwn-but id ls ls t.own;
}
  where
    by_id :
        (k : Text)
        → (if text_eq id k then none else find_key k d.download_cache) ≡ first k (but id ls)
    by_id k = elim (Bool-cases (text_eq id k)) [
      | inl same ↦ rw (same, sym (text_eq_sound id k same)) (sym (first-but_same id ls))
      | inr other ↦ rw other (t.found k ∙ sym (first-but_other id k ls other))
    ]

-- A removal leaves the downloads with other identifiers.
pub remove-Tracks :
    (d : Downloader) (ls : List Download) (id : Text)
    → Tracks d ls
    → Tracks (remove id d) (but id ls)
unfolding remove
remove-Tracks d ls id t = removed d ls id (find_key id d.download_cache) t (sym (t.found id))
