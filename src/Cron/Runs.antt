-- ===== src/Cron/Runs.antt =====
-- A run of the SFTP cron job (sftp_cron.go): what it takes, sends and deletes.
use feathers.Prelude.{
  ℕ, ◌+◌, ◌≤◌, ◌≡◌, ◌≢◌, refl, sym, ◌∙◌, subst, Bool, true, false, Option, none, some, ◌⊎◌, inl,
  inr, List, [], ◌∷◌, ◌++◌, map, length, take, arith, if◌then◌else◌,
}
use feathers.Cron.{
  Activity, MapKey, key_of, Group, EventMap, lookup, push_all, elements, collect, batches_within,
  delete_all, fetch_failed, send_failed, delete_failed, Report, World, deleted_report, report,
  reported, started, run,
}
use feathers.Cron.Groups.{Accounted}
use feathers.Cron.Taken.{grouped_of, Seen, push_all-Seen, empty_Seen}
use feathers.Cron.Offsets.{
  asked, Failed, push_all_max, map_of, Collected, later_query, collect-Collected,
}
use feathers.Cron.Batches.{batches-joined, delete_all-prefix, delete_all_stops}
use feathers.Cron.Keys.{key_eq_refl}

-- All was deleted and there is no error; or a deletion failed, and what follows was not deleted.
abbrev pub Deleted : World → List ℕ → Report → Type 0
Deleted w ids r =
    (rest : List ℕ) × (r.deleted ++ rest ≡ ids)
    × (((r.failure ≡ none) × (rest ≡ []))
        ⊎ ((r.failure ≡ some delete_failed) × (batch : List ℕ) × (w.deletes batch ≡ false)))

-- What a run reports of the records that are taken: nothing at all if there are none; an error and nothing
-- else if the panel refuses their groups; or the groups, which were sent and accepted, and the identifiers
-- that were deleted.
abbrev pub Settled : World → EventMap → List Activity → Report → Type 0
Settled w em taken r =
    ((taken ≡ []) × (r ≡ record { sent = []; deleted = []; failure = none }))
    ⊎ ((taken ≢ [])
        × (w.accepts (elements em) ≡ false)
        × (r ≡ record { sent = []; deleted = []; failure = some send_failed }))
    ⊎ ((taken ≢ [])
        × (w.accepts (elements em) ≡ true)
        × (r.sent ≡ elements em)
        × Deleted w (map (λ a. a.id) taken) r)

deleted_report-Deleted :
    (w : World) (ids rest : List ℕ) (sent : List Group) (bs : List (List ℕ)) (b : Bool)
    → (delete_all w.deletes bs).0 ++ rest ≡ ids
    → ((delete_all w.deletes bs).1 ≡ true → rest ≡ [])
    → (delete_all w.deletes bs).1 ≡ b
    → Deleted w ids (deleted_report sent (delete_all w.deletes bs))
unfolding deleted_report
deleted_report-Deleted w ids rest sent bs true e all done = (rest, e, inl (rw done refl, all done))
deleted_report-Deleted w ids rest sent bs false e all done =
    let (batch, refused) = delete_all_stops w.deletes bs done in
    (rest, e, inr (rw done refl, batch, refused))

batches-Deleted :
    (w : World) (em : EventMap) (taken : List Activity)
    → em.ids ≡ map (λ a. a.id) taken
    → Deleted w (map (λ a. a.id) taken) (
        deleted_report
          (elements em)
          (delete_all w.deletes (batches_within (length em.ids) 0 em.ids)))
batches-Deleted w em taken ids =
    let bs : List (List ℕ) = batches_within (length em.ids) 0 em.ids in
    let (rest, e, all) = delete_all-prefix w.deletes bs in
    deleted_report-Deleted w (map (λ a. a.id) taken) rest (elements em) bs
      (delete_all w.deletes bs).1 (e ∙ batches-joined (length em.ids) 0 em.ids (omega arith) ∙ ids)
      all refl

-- A record that was taken has its group, and a group has a record that was taken.
none_taken : (em : EventMap) (taken : List Activity) → Accounted em taken → em.m ≡ [] → taken ≡ []
unfolding lookup
none_taken em [] acc e = refl
none_taken em (a ∷ taken) acc e =
    absurd (rw (e, key_eq_refl (key_of a)) at (acc.grouped (key_of a)))

some_taken :
    (em : EventMap) (taken : List Activity) (k : MapKey) (g : Group) (rest : List (MapKey × Group))
    → Accounted em taken
    → em.m ≡ (k, g) ∷ rest
    → taken ≢ []
unfolding lookup
some_taken em [] k g rest acc e is = rw (e, key_eq_refl k) at (acc.grouped k)
some_taken em (a ∷ taken) k g rest acc e is = cc

answer-Settled :
    (w : World) (em : EventMap) (taken : List Activity) (b : Bool)
    → em.ids ≡ map (λ a. a.id) taken
    → taken ≢ []
    → w.accepts (elements em) ≡ b
    → Settled w em taken (
        if b
        then deleted_report
            (elements em)
            (delete_all w.deletes (batches_within (length em.ids) 0 em.ids))
        else record { sent = []; deleted = []; failure = some send_failed })
unfolding deleted_report
answer-Settled w em taken true ids there e =
    inr (inr (there, e, refl, batches-Deleted w em taken ids))
answer-Settled w em taken false ids there e = inr (inl (there, e, refl))

report-Settled :
    (w : World) (em : EventMap) (taken : List Activity) (m : List (MapKey × Group))
    → Accounted em taken
    → em.m ≡ m
    → Settled w em taken (report w em m)
unfolding report
report-Settled w em taken [] acc e = inl (none_taken em taken acc e, refl)
report-Settled w em taken ((k, g) ∷ gs) acc e =
    answer-Settled w em taken (w.accepts (elements em)) acc.ids_taken
      (some_taken em taken k g gs acc e) refl

-- The number of records that a run has seen, and the map that accounts for those of them that have a
-- group in it: it has seen all records, or the map is full.
abbrev pub Run : World → ℕ → List Activity → Report → Type 0
Run w max records r =
    (n : ℕ) × (em : EventMap) × Accounted em (grouped_of em.m (take n records))
    × (em.max ≡ max)
    × ((length records ≤ n) ⊎ (max ≤ length em.m))
    × Settled w em (grouped_of em.m (take n records)) r

abbrev pub FailedOrRun : World → ℕ → List Activity → List Bool → Report → Type 0
FailedOrRun w max records queries r =
    (Failed queries × (r ≡ record { sent = []; deleted = []; failure = some fetch_failed }))
    ⊎ Run w max records r

reported-Run :
    (w : World) (max : ℕ) (records : List Activity) (queries : List Bool) (o : Option EventMap)
    → Collected max records queries o
    → FailedOrRun w max records queries (reported w o)
unfolding reported
reported-Run w max records queries none c = inl (c, refl)
reported-Run w max records queries (some em) (n, is, done) =
    let empty : EventMap = record { max = max; ids = []; m = [] } in
    let seen : Seen (map_of max records n) (take n records) =
      push_all-Seen empty [] (take n records) (empty_Seen max) in
    subst (λ x. FailedOrRun w max records queries (report w x x.m)) (sym is)
      (inr (
        n,
        map_of max records n,
        seen.0,
        push_all_max empty (take n records),
        done,
        report-Settled w (map_of max records n) _ (map_of max records n).m seen.0 refl,
      ))

started-Run :
    (w : World) (max : ℕ) (records : List Activity) (q : Bool) (qs : List Bool)
    → length records ≤ length qs
    → FailedOrRun w max records
        (q ∷ qs)
        (started w max (asked max records q 0) (map (asked max records) qs))
unfolding started push_all
started-Run w max records false qs h = inl (inl refl, refl)
started-Run w max records true qs h =
    let found = take max records in
    let e : 0 + length found ≡ length found = omega arith in
    reported-Run w max records (true ∷ qs) _ (
      later_query max records true qs _ (
        subst
          (λ o.
            Collected max records qs (
              collect (map (asked max records) qs) o found
                (record { max = max; ids = []; m = [] })))
          e (collect-Collected max records qs 0 found refl (omega (arith, h)))))

-- A run of the job, on records that the database has for its queries and that stay as they are during the run,
-- where there are at least as many queries after the first as records, each of which is answered or fails.
-- Either a query fails, and nothing is sent or deleted; or the run sees a first part of the records, each once:
-- all of them, or so many that the map has the maximum of groups. It takes exactly those of them whose user,
-- server, address, event and minute have a group in the map, and each group has the files of its records in
-- order and the earliest of their times; there are no more groups than the maximum. If it takes none, it
-- reports nothing; if the panel refuses the groups, it reports an error and deletes nothing; else the groups
-- were sent, and the identifiers that are deleted are those taken, or the first of them and a deletion failed.
pub run_settles :
    (w : World) (max : ℕ) (records : List Activity) (q : Bool) (qs : List Bool)
    → length records ≤ length qs
    → FailedOrRun w max records
        (q ∷ qs)
        (run w max (asked max records q) (map (asked max records) qs) false).0
unfolding run
run_settles w max records q qs h = started-Run w max records q qs h
