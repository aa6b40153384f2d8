-- ===== src/Downloads/Tracking.antt =====
-- The maps of the downloader (downloader.go) as a list of downloads.
use feathers.Prelude.{
  ◌≡◌, refl, ap, sym, ◌∙◌, Bool, true, false, Option, none, some, inl, inr, List, [], ◌∷◌, ◌++◌,
  Bool-cases, if◌then◌else◌,
}
use feathers.Prelude.Text.{Text, text_eq, text_eq_refl, text_eq_sound}
use feathers.Prelude.TextMap.{find_key, find_key-set_key}
use feathers.Downloads.{Download, Downloader, or_empty, track_new, downloads_of, by_server}

-- The first download with an identifier.
abbrev pub first : Text → List Download → Option Download
first id [] = none
first id (x ∷ xs) = if text_eq x.identifier id then some x else first id xs

-- The downloads of a server, and their identifiers.
abbrev pub of_server : Text → List Download → List Download
of_server sid [] = []
of_server sid (x ∷ xs) = if text_eq x.server sid then x ∷ of_server sid xs else of_server sid xs

abbrev pub ids_of : Text → List Download → List Text
ids_of sid [] = []
ids_of sid (x ∷ xs) = if text_eq x.server sid then x.identifier ∷ ids_of sid xs else ids_of sid xs

-- The downloads with another identifier.
abbrev pub but : Text → List Download → List Download
but id [] = []
but id (x ∷ xs) = if text_eq x.identifier id then but id xs else x ∷ but id xs

abbrev pub AllOwn : List Download → List Download → Type 0
AllOwn all [] = Unit {0}
AllOwn all (x ∷ xs) = (first x.identifier all ≡ some x) × AllOwn all xs

-- The maps hold the downloads of a list with one download for each identifier in it.
pub record Tracks (d : Downloader) (ls : List Download) : Type 0 where
  pub found : (id : Text) → find_key id d.download_cache ≡ first id ls
  pub listed : (sid : Text) → or_empty (find_key sid d.server_cache) ≡ ids_of sid ls
  pub own : AllOwn ls ls

downloads_of-ids :
    (d : Downloader) (all : List Download) (sid : Text) (ls : List Download)
    → ((id : Text) → find_key id d.download_cache ≡ first id all)
    → AllOwn all ls
    → downloads_of (ids_of sid ls) d ≡ of_server sid ls
unfolding downloads_of
downloads_of-ids d all sid [] f own = refl
downloads_of-ids d all sid (x ∷ xs) f own = elim (Bool-cases (text_eq x.server sid)) [
  | inl same ↦
      rw (same, f x.identifier, own.0) (ap (λ l. x ∷ l) (downloads_of-ids d all sid xs f own.1))
  | inr other ↦ rw other (downloads_of-ids d all sid xs f own.1)
]

pub by_server-Tracks :
    (d : Downloader) (ls : List Download) (sid : Text)
    → Tracks d ls
    → by_server sid d ≡ of_server sid ls
unfolding by_server
by_server-Tracks d ls sid t =
    ap (λ ids. downloads_of ids d) (t.listed sid) ∙ downloads_of-ids d ls sid ls t.found t.own

-- One more download.
first-append_same :
    (dl : Download) (ls : List Download)
    → first dl.identifier ls ≡ none
    → first dl.identifier (ls ++ dl ∷ []) ≡ some dl
first-append_same dl [] e = rw (text_eq_refl dl.identifier) refl
first-append_same dl (x ∷ xs) e = elim (Bool-cases (text_eq x.identifier dl.identifier)) [
  | inl same ↦ let no : some x ≡ none = sym (rw same refl) ∙ e in absurd (cc)
  | inr other ↦ rw other (first-append_same dl xs (rw other at e))
]

first-append_other :
    (dl : Download) (id : Text) (ls : List Download)
    → text_eq dl.identifier id ≡ false
    → first id (ls ++ dl ∷ []) ≡ first id ls
first-append_other dl id [] h = rw h refl
first-append_other dl id (x ∷ xs) h = elim (Bool-cases (text_eq x.identifier id)) [
  | inl same ↦ rw same refl
  | inr other ↦ rw other (first-append_other dl id xs h)
]

first-append_found :
    (id : Text) (ls : List Download) (dl x : Download)
    → first id ls ≡ some x
    → first id (ls ++ dl ∷ []) ≡ some x
first-append_found id [] dl x e = absurd (cc)
first-append_found id (y ∷ ys) dl x e = elim (Bool-cases (text_eq y.identifier id)) [
  | inl same ↦ rw same (rw same at e)
  | inr other ↦ rw other (first-append_found id ys dl x (rw other at e))
]

ids_of-append :
    (sid : Text) (ls : List Download) (dl : Download)
    → ids_of sid (ls ++ dl ∷ [])
      ≡ (if text_eq dl.server sid then ids_of sid ls ++ dl.identifier ∷ [] else ids_of sid ls)
ids_of-append sid [] dl = refl
ids_of-append sid (x ∷ xs) dl = elim (Bool-cases (text_eq x.server sid)) [
  | inl same ↦ rw same (
      ap (λ l. x.identifier ∷ l) (ids_of-append sid xs dl)
      ∙ push_in (text_eq dl.server sid) x.identifier (ids_of sid xs ++ dl.identifier ∷ [])
          (ids_of sid xs))
  | inr other ↦ rw other (ids_of-append sid xs dl)
]
  where
    push_in :
        (b : Bool) (a : Text) (x y : List Text)
        → a ∷ (if b then x else y) ≡ (if b then a ∷ x else a ∷ y)
    push_in true a x y = refl
    push_in false a x y = refl

AllOwn-append :
    (ls : List Download) (dl : Download) (xs : List Download)
    → first dl.identifier ls ≡ none
    → AllOwn ls xs
    → AllOwn (ls ++ dl ∷ []) (xs ++ dl ∷ [])
AllOwn-append ls dl [] e own = (first-append_same dl ls e, tt)
AllOwn-append ls dl (x ∷ xs) e own =
    (first-append_found x.identifier ls dl x own.0, AllOwn-append ls dl xs e own.1)

-- A download with a new identifier is tracked behind the others.
pub track_new-Tracks :
    (d : Downloader) (ls : List Download) (dl : Download)
    → Tracks d ls
    → first dl.identifier ls ≡ none
    → Tracks (track_new dl none d) (ls ++ dl ∷ [])
unfolding track_new
track_new-Tracks d ls dl t new = record {
  found = λ id. rw (find_key-set_key id dl.identifier dl d.download_cache) (by_id id);
  listed = λ sid.
      rw
        (
          find_key-set_key sid dl.server
              (or_empty (find_key dl.server d.server_cache) ++ dl.identifier ∷ []) d.server_cache,
          ids_of-append sid ls dl,
        )
        (by_server_id sid);
  own = AllOwn-append ls dl ls new t.own;
}
  where
    by_id :
        (id : Text)
        → (if text_eq dl.identifier id then some dl else find_key id d.download_cache)
          ≡ first id (ls ++ dl ∷ [])
    by_id id = elim (Bool-cases (text_eq dl.identifier id)) [
      | inl same ↦
          rw (same, sym (text_eq_sound dl.identifier id same)) (sym (first-append_same dl ls new))
      | inr other ↦ rw other (t.found id ∙ sym (first-append_other dl id ls other))
    ]

    by_server_id :
        (sid : Text)
        → or_empty (
            if text_eq dl.server sid
            then some (or_empty (find_key dl.server d.server_cache) ++ dl.identifier ∷ [])
            else find_key sid d.server_cache)
          ≡ (if text_eq dl.server sid then ids_of sid ls ++ dl.identifier ∷ [] else ids_of sid ls)
    by_server_id sid = elim (Bool-cases (text_eq dl.server sid)) [
      | inl same ↦ rw same (
          ap (λ l. l ++ dl.identifier ∷ [])
            (t.listed dl.server ∙ ap (λ s. ids_of s ls) (text_eq_sound dl.server sid same)))
      | inr other ↦ rw other (t.listed sid)
    ]
