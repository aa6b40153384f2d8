-- ===== src/Cron.antt =====
-- internal/cron/sftp_cron.go: the job that merges the recorded SFTP events into groups, sends them to the
-- panel, and deletes what it sent.
pub mod Keys
pub mod Batches
pub mod Groups
pub mod Taken
pub mod Offsets
pub mod Runs
mod Examples
use feathers.Prelude.{
  ℕ, zero, suc, ◌+◌, ◌-◌, ◌/◌, min, Bool, true, false, not, ◌&&◌, Option, none, some, ◌⊎◌, inl, inr,
  List, [], ◌∷◌, ◌++◌, map, length, take, drop, ltb, leb, ◌==◌, if◌then◌else◌,
}
use feathers.Prelude.Text.{Text, text_eq}

-- `models.Activity`. A timestamp is in seconds. `files` is what the metadata has under "files", if it is a
-- slice.
pub record Activity : Type 0 where
  pub id : ℕ
  pub user : Text
  pub server : Text
  pub ip : Text
  pub event : Text
  pub timestamp : ℕ
  pub files : Option (List Text)

-- `mapKey`; the formatted time is the minute.
pub record MapKey : Type 0 where
  pub user : Text
  pub server : Text
  pub ip : Text
  pub event : Text
  pub minute : ℕ

unfoldable pub key_eq : MapKey → MapKey → Bool
unfolding text_eq
key_eq a b =
    text_eq a.user b.user
    && (text_eq a.server b.server
        && (text_eq a.ip b.ip && (text_eq a.event b.event && a.minute == b.minute)))

unfoldable pub key_of : Activity → MapKey
key_of a = record {
  user = a.user;
  server = a.server;
  ip = a.ip;
  event = a.event;
  minute = a.timestamp / 60;
}

-- What the map holds: an activity whose files are a slice.
pub record Group : Type 0 where
  pub first : Activity
  pub timestamp : ℕ
  pub files : List Text

-- `eventMap`; the map is a list of keys with their groups.
pub record EventMap : Type 0 where
  pub max : ℕ
  pub ids : List ℕ
  pub m : List (MapKey × Group)

unfoldable pub lookup : MapKey → List (MapKey × Group) → Option Group
unfolding key_eq
lookup k [] = none
lookup k ((j, g) ∷ rest) = let found = lookup k rest in if key_eq j k then some g else found

unfoldable pub put : MapKey → Group → List (MapKey × Group) → List (MapKey × Group)
unfolding key_eq
put k g [] = (k, g) ∷ []
put k g ((j, h) ∷ rest) =
    let later = put k g rest in if key_eq j k then (j, g) ∷ rest else (j, h) ∷ later

-- The entry of `forActivity` that is created.
unfoldable pub new_group : Activity → Group
new_group a = record { first = a; timestamp = a.timestamp; files = [] }

-- `forActivity`: the group of the map, or a new one, or none if the map is full.
unfoldable pub group_or_new : EventMap → Activity → Option Group → Option Group
unfolding new_group
group_or_new em a (some g) = some g
group_or_new em a none = if leb em.max (length em.m) then none else some (new_group a)

unfoldable pub for_activity : EventMap → Activity → Option Group
unfolding group_or_new lookup key_of
for_activity em a = group_or_new em a (lookup (key_of a) em.m)

abbrev pub files_of : Option (List Text) → List Text
files_of none = []
files_of (some fs) = fs

-- The group with the files of an activity, and the earlier of the times.
unfoldable pub merge : Activity → Group → Group
merge a g = record {
  first = g.first;
  timestamp = if ltb a.timestamp g.timestamp then a.timestamp else g.timestamp;
  files = g.files ++ files_of a.files;
}

unfoldable pub push_to : EventMap → Activity → Option Group → EventMap
unfolding merge put key_of
push_to em a none = em
push_to em a (some g) = record {
  max = em.max;
  ids = em.ids ++ a.id ∷ [];
  m = put (key_of a) (merge a g) em.m;
}

-- `Push`
unfoldable pub push : EventMap → Activity → EventMap
unfolding push_to for_activity
push em a = push_to em a (for_activity em a)

unfoldable pub push_all : EventMap → List Activity → EventMap
unfolding push
push_all em [] = em
push_all em (a ∷ rest) = push_all (push em a) rest

-- `Elements`, in the order of the list.
unfoldable pub elements : EventMap → List Group
elements em = map (λ e. e.1) em.m

-- `fetchRecords`: what the database has for an offset, or an error.
abbrev pub Database : Type 0
Database = ℕ → Option (List Activity)

-- What follows a query of the loop: an error ends the run.
abbrev pub fetched : Option (List Activity) → (List Activity → Option EventMap) → Option EventMap
fetched none go_on = none
fetched (some found) go_on = go_on found

-- The loop of `Run` that collects, over the states of the database at its queries; a query behind the last
-- of them finds nothing. The records are those of the last query, and the offset is behind them.
unfoldable pub collect : List Database → ℕ → List Activity → EventMap → Option EventMap
unfolding push_all
collect dbs o [] em = some em
collect [] o (a ∷ rest) em = some (push_all em (a ∷ rest))
collect (db ∷ dbs) o (a ∷ rest) em =
    let next = push_all em (a ∷ rest) in
    let later = fetched (db o) (λ found. collect dbs (o + length found) found next) in
    if ltb (length em.ids) (length next.ids) then later else some next

-- The slices of the identifiers from an index on, in a number of rounds.
unfoldable pub batches_within : ℕ → ℕ → List ℕ → List (List ℕ)
batches_within zero i ids = []
batches_within (suc n) i ids =
    let end = min (i + 32000) (length ids) in
    let rest = batches_within n end ids in
    if ltb i (length ids) then take (end - i) (drop i ids) ∷ rest else []

-- The deletion, up to the first error: what was deleted, and whether all was.
unfoldable pub delete_all : (List ℕ → Bool) → List (List ℕ) → List ℕ × Bool
delete_all deletes [] = ([], true)
delete_all deletes (b ∷ bs) =
    let rest = delete_all deletes bs in if deletes b then (b ++ rest.0, rest.1) else ([], false)

pub data CronError : Type 0 where
  cron_running fetch_failed send_failed delete_failed : CronError

-- What a run sent, what it deleted, and its error.
pub record Report : Type 0 where
  pub sent : List Group
  pub deleted : List ℕ
  pub failure : Option CronError

abbrev failing : CronError → Report
failing e = record { sent = []; deleted = []; failure = some e }

-- `SwapIf` of system/utils.go: the value then, and whether it was swapped.
unfoldable pub swap_if : Bool → Bool → Bool × Bool
swap_if true v = (v, not v)
swap_if false v = (v, v)

-- What the panel and the database answer.
pub record World : Type 0 where
  pub accepts : List Group → Bool
  pub deletes : List ℕ → Bool

unfoldable pub deleted_report : List Group → List ℕ × Bool → Report
deleted_report sent (ids, all) = record {
  sent = sent;
  deleted = ids;
  failure = if all then none else some delete_failed;
}

-- `Run` from the collected events on.
unfoldable pub report : World → EventMap → List (MapKey × Group) → Report
unfolding elements delete_all batches_within deleted_report
report w em [] = record { sent = []; deleted = []; failure = none }
report w em (g ∷ gs) =
    let ids = em.ids in
    if w.accepts (elements em)
    then deleted_report (elements em) (delete_all w.deletes (batches_within (length ids) 0 ids))
    else failing send_failed

unfoldable pub reported : World → Option EventMap → Report
unfolding report
reported w none = failing fetch_failed
reported w (some em) = report w em em.m

unfoldable pub started : World → ℕ → Option (List Activity) → List Database → Report
unfolding collect reported
started w max none dbs = failing fetch_failed
started w max (some found) dbs =
    reported w (collect dbs (length found) found (record { max = max; ids = []; m = [] }))

-- `Run`, on whether a run is under way; the database is as in `collect`, first for the first query.
unfoldable pub run : World → ℕ → Database → List Database → Bool → Report × Bool
unfolding started swap_if
run w max db dbs running =
    let (now, swapped) = swap_if running true in
    if swapped then (started w max (db 0) dbs, false) else (failing cron_running, now)
