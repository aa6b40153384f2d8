-- ===== src/Downloads/Requests.antt =====
-- The requests for remote downloads, one after the other, against a list of downloads.
use feathers.Prelude.{
  ℕ, ◌+◌, ◌≤◌, ◌≡◌, refl, sym, subst, Bool, true, false, Option, none, some, inl, inr, List, [],
  ◌∷◌, ◌++◌, length, leb, arith, Bool-cases, if◌then◌else◌,
}
use feathers.Prelude.Text.{Text, text_eq, text_eq_sound}
use feathers.Prelude.TextMap.{find_key}
use feathers.Downloads.{
  Download, Downloader, instance_empty, track_new, track, find, remove, by_server, pull_if, pull,
  cancel_found, cancel,
}
use feathers.Downloads.Tracking.{first, of_server, but, Tracks, by_server-Tracks, track_new-Tracks}
use feathers.Downloads.Removal.{remove-Tracks}

-- A request to pull a file, with the answer to the check of the space; one to cancel a download, for a
-- server; and the end of a download (`Execute` defers `Cancel`).
pub data Request : Type 0 where
  pulls : Bool → Download → Request
  cancels : Text → Text → Request
  ends : Text → Request

unfoldable pub handle : Request → Downloader → Downloader
unfolding pull cancel remove
handle (pulls has_space dl) d = (pull has_space dl d).1
handle (cancels sid id) d = cancel sid id d
handle (ends id) d = remove id d

unfoldable pub handle_all : List Request → Downloader → Downloader
unfolding handle
handle_all [] d = d
handle_all (r ∷ rs) d = handle_all rs (handle r d)

-- What a request means for the list of downloads.
add_new : Download → Option Download → List Download → List Download
add_new dl (some old) ls = ls
add_new dl none ls = ls ++ dl ∷ []

cancel_own : Text → Text → Option Download → List Download → List Download
cancel_own sid id none ls = ls
cancel_own sid id (some dl) ls = if text_eq dl.server sid then but id ls else ls

add_if : Bool → Bool → Download → List Download → List Download
unfolding add_new
add_if false full dl ls = ls
add_if true true dl ls = ls
add_if true false dl ls = add_new dl (first dl.identifier ls) ls

unfoldable pub meant : Request → List Download → List Download
unfolding add_if cancel_own
meant (pulls has_space dl) ls = add_if has_space (leb 3 (length (of_server dl.server ls))) dl ls
meant (cancels sid id) ls = cancel_own sid id (first id ls) ls
meant (ends id) ls = but id ls

unfoldable pub all_meant : List Request → List Download → List Download
unfolding meant
all_meant [] ls = ls
all_meant (r ∷ rs) ls = all_meant rs (meant r ls)

track_by :
    (d : Downloader) (ls : List Download) (dl : Download) (o : Option Download)
    → Tracks d ls
    → first dl.identifier ls ≡ o
    → Tracks (track_new dl o d) (add_new dl o ls)
unfolding add_new track_new
track_by d ls dl (some old) t e = t
track_by d ls dl none t e = track_new-Tracks d ls dl t e

pull-Tracks :
    (b full : Bool) (d : Downloader) (ls : List Download) (dl : Download)
    → Tracks d ls
    → Tracks (pull_if b full dl d).1 (add_if b full dl ls)
unfolding pull_if add_if track
pull-Tracks false full d ls dl t = t
pull-Tracks true true d ls dl t = t
pull-Tracks true false d ls dl t =
    rw (t.found dl.identifier) (track_by d ls dl (first dl.identifier ls) t refl)

cancel-Tracks :
    (d : Downloader) (ls : List Download) (sid id : Text) (o : Option Download)
    → Tracks d ls
    → Tracks (cancel_found sid id o d) (cancel_own sid id o ls)
unfolding cancel_found cancel_own
cancel-Tracks d ls sid id none t = t
cancel-Tracks d ls sid id (some dl) t = elim (Bool-cases (text_eq dl.server sid)) [
  | inl own ↦ rw own (remove-Tracks d ls id t)
  | inr other ↦ rw other t
]

handle-Tracks :
    (r : Request) (d : Downloader) (ls : List Download)
    → Tracks d ls
    → Tracks (handle r d) (meant r ls)
unfolding handle meant pull cancel find
handle-Tracks (pulls b dl) d ls t =
    subst
      (λ l.
        Tracks (pull_if b (leb 3 (length l)) dl d).1
          (add_if b (leb 3 (length (of_server dl.server ls))) dl ls))
      (sym (by_server-Tracks d ls dl.server t))
      (pull-Tracks b (leb 3 (length (of_server dl.server ls))) d ls dl t)
handle-Tracks (cancels sid id) d ls t = rw (t.found id) (cancel-Tracks d ls sid id (first id ls) t)
handle-Tracks (ends id) d ls t = remove-Tracks d ls id t

handle_all-Tracks :
    (rs : List Request) (d : Downloader) (ls : List Download)
    → Tracks d ls
    → Tracks (handle_all rs d) (all_meant rs ls)
unfolding handle_all all_meant
handle_all-Tracks [] d ls t = t
handle_all-Tracks (r ∷ rs) d ls t =
    handle_all-Tracks rs (handle r d) (meant r ls) (handle-Tracks r d ls t)

-- No server has more than three downloads.
abbrev Limited : List Download → Type 0
Limited ls = (sid : Text) → length (of_server sid ls) ≤ 3

length-of_server :
    (sid : Text) (ls : List Download) (dl : Download)
    → length (of_server sid (ls ++ dl ∷ []))
      ≡ length (of_server sid ls) + (if text_eq dl.server sid then 1 else 0)
length-of_server sid [] dl = elim (Bool-cases (text_eq dl.server sid)) [
  | inl same ↦ rw same (omega arith)
  | inr other ↦ rw other (omega arith)
]
length-of_server sid (x ∷ xs) dl = elim (Bool-cases (text_eq x.server sid)) [
  | inl same ↦ rw same (omega (arith, length-of_server sid xs dl))
  | inr other ↦ rw other (length-of_server sid xs dl)
]

length-but :
    (sid id : Text) (ls : List Download)
    → length (of_server sid (but id ls)) ≤ length (of_server sid ls)
length-but sid id [] = omega arith
length-but sid id (x ∷ xs) = elim (Bool-cases (text_eq x.identifier id)) [
  | inl gone ↦ elim (Bool-cases (text_eq x.server sid)) [
    | inl mine ↦ rw (gone, mine) (omega (arith, length-but sid id xs))
    | inr other ↦ rw (gone, other) (length-but sid id xs)
  ]
  | inr stays ↦ elim (Bool-cases (text_eq x.server sid)) [
    | inl mine ↦ rw (stays, mine) (omega (arith, length-but sid id xs))
    | inr other ↦ rw (stays, other) (length-but sid id xs)
  ]
]

but-Limited : (id : Text) (ls : List Download) → Limited ls → Limited (but id ls)
but-Limited id ls h sid = omega (arith, length-but sid id ls, h sid)

add_new-Limited :
    (dl : Download) (o : Option Download) (ls : List Download)
    → Limited ls
    → leb 3 (length (of_server dl.server ls)) ≡ false
    → Limited (add_new dl o ls)
unfolding add_new
add_new-Limited dl (some old) ls h room sid = h sid
add_new-Limited dl none ls h room sid = elim (Bool-cases (text_eq dl.server sid)) [
  | inl same ↦
      let here : length (of_server sid ls) ≤ 2 =
        rw (text_eq_sound dl.server sid same) at (few (length (of_server dl.server ls)) room) in
      rw (length-of_server sid ls dl, same) (omega (arith, here))
  | inr other ↦ rw (length-of_server sid ls dl, other) (omega (arith, h sid))
]
  where
    few : (n : ℕ) → leb 3 n ≡ false → n ≤ 2
    few n e = ground (arith, e)

meant-Limited : (r : Request) (ls : List Download) → Limited ls → Limited (meant r ls)
unfolding meant cancel_own add_if
meant-Limited (pulls false dl) ls h = h
meant-Limited (pulls true dl) ls h = elim (Bool-cases (leb 3 (length (of_server dl.server ls)))) [
  | inl full ↦ rw full h
  | inr room ↦ rw room (add_new-Limited dl (first dl.identifier ls) ls h room)
]
meant-Limited (cancels sid id) ls h = own (first id ls)
  where
    own : (o : Option Download) → Limited (cancel_own sid id o ls)
    own none = h
    own (some dl) = elim (Bool-cases (text_eq dl.server sid)) [
      | inl same ↦ rw same (but-Limited id ls h)
      | inr other ↦ rw other h
    ]
meant-Limited (ends id) ls h = but-Limited id ls h

all_meant-Limited :
    (rs : List Request) (ls : List Download) → Limited ls → Limited (all_meant rs ls)
unfolding all_meant
all_meant-Limited [] ls h = h
all_meant-Limited (r ∷ rs) ls h = all_meant-Limited rs (meant r ls) (meant-Limited r ls h)

empty_Tracks : Tracks instance_empty []
unfolding find_key
empty_Tracks = record { found = λ id. refl; listed = λ sid. refl; own = tt }

-- After any requests, handled one after the other, the two maps are one list of downloads: `ByServer` gives
-- those of a server, in the order in which they were started, and `ByID` the one with an identifier. A
-- request to pull adds a download with a new identifier if there is space and its server has fewer than
-- three, a request to cancel takes a download out only if it is one of the server that asks, and a
-- download that ends is taken out. No server has more than three.
pub handle_all_refines :
    (rs : List Request) (sid id : Text)
    → (by_server sid (handle_all rs instance_empty) ≡ of_server sid (all_meant rs []))
      × (find id (handle_all rs instance_empty) ≡ first id (all_meant rs []))
      × (length (by_server sid (handle_all rs instance_empty)) ≤ 3)
unfolding find
handle_all_refines rs sid id =
    let t : Tracks (handle_all rs instance_empty) (all_meant rs []) =
      handle_all-Tracks rs instance_empty [] empty_Tracks in
    let listed = by_server-Tracks (handle_all rs instance_empty) (all_meant rs []) sid t in
    (listed, t.found id, rw listed (all_meant-Limited rs [] (λ s. omega arith) sid))
