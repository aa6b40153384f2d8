-- ===== src/Sftp/Effects.antt =====
-- What a command over SFTP that is let through does, and what it answers.
use feathers.Prelude.{
  ℕ, ◌==◌, if◌then◌else◌, ◌≡◌, ◌≢◌, refl, ap, ◌∙◌, inl, inr, ◌⊎◌, Option, none, some, Bool, true,
  false, List, [], ◌∷◌, ◌++◌, Bool-cases,
}
use mathlib.Core.List.{append_assoc}
use feathers.Prelude.Text.{Text, codes, text_eq, split, split-some}
use feathers.Prelude.Filepath.{clean, join}
use feathers.Sftp.{
  Status, ok, op_unsupported, Method, Request, setstat, rename, rmdir, mkdir, symlink, remove,
  unknown, Outcome, fine, not_exist, broken, Change, Files, Handler, chowned, chmodded, renamed,
  deleted, made_directory, linked, logged_rename, logged_delete, logged_create_directory, attempt,
  apply, after, must_log, chown_target, perform, dispatch, filecmd, needs, can, not_found,
  any_failure, mode_of, last, all_but_last,
}

-- The permission bits that are set: 0755 for a directory, and 0644 in place of none.
abbrev bits : Request → ℕ
bits r = if r.is_dir then 493 else if r.mode == 0 then 420 else r.mode

-- Whose owner is set: the target, or the path if there is none.
abbrev owned : Request → Change
owned r = chowned (if text_eq r.target [] then r.filepath else r.target)

-- The change of the files that a request of a method asks for, and what follows it where it is fine: the
-- entry of the log, and the owner.
pub data Asks (r : Request) : Method → Change → List Change → Type 0 where
  sets_bits : Asks r setstat (chmodded r.filepath (bits r)) (owned r ∷ [])
  renames :
      Asks r rename (renamed r.filepath r.target) (logged_rename r.filepath r.target ∷ owned r ∷ [])
  removes_directory : Asks r rmdir (deleted (clean r.filepath)) (logged_delete r.filepath ∷ [])
  makes_directory :
      (parents : List Text) (name : Text)
      → split b'/' (clean r.filepath) ≡ parents ++ name ∷ []
      → Asks r mkdir
          (made_directory name (join (codes "/") parents))
          (logged_create_directory r.filepath ∷ owned r ∷ [])
  links : Asks r symlink (linked r.filepath r.target) (owned r ∷ [])
  removes : Asks r remove (deleted r.filepath) (logged_delete r.filepath ∷ [])

last_apart : (w : Text) (ws : List Text) → w ∷ ws ≡ all_but_last (w ∷ ws) ++ last (w ∷ ws) ∷ []
unfolding all_but_last last
last_apart w [] = refl
last_apart w (v ∷ ws) = ap (λ l. w ∷ l) (last_apart v ws)

split_apart : (t : Text) → split b'/' t ≡ all_but_last (split b'/' t) ++ last (split b'/' t) ∷ []
split_apart t = let (w, ws, e) = split-some b'/' t in rw e (last_apart w ws)

module _ {S : Type 0} (fs : Files S) where
  -- Does certain things more.
  abbrev Adds : List Change → (Handler S → Handler S) → Type 0
  Adds later f = (h : Handler S) → (f h).changes ≡ h.changes ++ later

  must_log-Adds : (c : Change) → Adds (c ∷ []) (must_log fs c)
  unfolding must_log apply
  must_log-Adds c h = refl

  chown-Adds : (r : Request) → Adds (owned r ∷ []) (chown_target fs r)
  unfolding chown_target apply
  chown-Adds r h = refl

  both_add :
      (r : Request) (c : Change)
      → Adds (c ∷ owned r ∷ []) (λ h. chown_target fs r (must_log fs c h))
  both_add r c h =
      chown-Adds r (must_log fs c h)
      ∙ ap (λ l. l ++ owned r ∷ []) (must_log-Adds c h)
      ∙ append_assoc h.changes (c ∷ []) (owned r ∷ [])

  -- The change was tried; what follows it was done exactly where it was fine, and then the answer is ok.
  abbrev pub Tried : Change → List Change → Handler S → Handler S × Status → Type 0
  Tried c later h m =
      (((fs.apply c h.files).1 ≡ fine) × (m.0.changes ≡ h.changes ++ c ∷ later) × (m.1 ≡ ok))
      ⊎ (((fs.apply c h.files).1 ≢ fine) × (m.0.changes ≡ h.changes ++ c ∷ []) × (m.1 ≢ ok))

  -- The one change that is asked for was tried.
  abbrev pub OneChange : Request → Handler S → Handler S × Status → Type 0
  OneChange r h m =
      (c : Change) × (later : List Change) × Asks r r.method c later × Tried c later h m

  -- The connection only reads, or the method is unknown, or the permission that it needs is not there.
  abbrev pub Denied : Request → Handler S → Type 0
  Denied r h =
      (h.read_only ≡ true)
      ⊎ (needs fs r.method ≡ none)
      ⊎ ((t : Text) × (needs fs r.method ≡ some t) × (can fs t h ≡ false))

  abbrev Fails : (Outcome → Status) → Type 0
  Fails answer = (answer not_exist ≢ ok) × (answer broken ≢ ok)

  after_one :
      (c : Change) (later : List Change) (answer : Outcome → Status) (next : Handler S → Handler S)
      (o : Outcome) (h h' : Handler S)
      → (fs.apply c h.files).1 ≡ o
      → h'.changes ≡ h.changes ++ c ∷ []
      → Fails answer
      → Adds later next
      → Tried c later h (after fs answer next o h')
  unfolding after
  after_one c later answer next fine h h' e d fails adds =
      inl (e, adds h' ∙ ap (λ l. l ++ later) d ∙ append_assoc h.changes (c ∷ []) later, refl)
  after_one c later answer next not_exist h h' e d fails adds = inr (cc, d, fails.0)
  after_one c later answer next broken h h' e d fails adds = inr (cc, d, fails.1)

  attempt_one :
      (c : Change) (later : List Change) (answer : Outcome → Status) (next : Handler S → Handler S)
      (h : Handler S)
      → Fails answer
      → Adds later next
      → Tried c later h (attempt fs c answer next h)
  unfolding attempt apply
  attempt_one c later answer next h fails adds =
      after_one c later answer next (fs.apply c h.files).1 h _ refl refl fails adds

  -- What is asked for by a method, unless it is unknown.
  abbrev ByMethod : Request → Method → Handler S → Handler S × Status → Type 0
  ByMethod r m h done =
      ((needs fs m ≡ none) × (done.0 ≡ h) × (done.1 ≢ ok))
      ⊎ ((c : Change) × (later : List Change) × Asks r m c later × Tried c later h done)

  abbrev pub Outcomes : Request → Handler S → Handler S × Status → Type 0
  Outcomes r h done = (Denied r h × (done.0 ≡ h) × (done.1 ≢ ok)) ⊎ OneChange r h done

  perform_one : (r : Request) (m : Method) (h : Handler S) → ByMethod r m h (perform fs r m h)
  unfolding perform mode_of needs
  perform_one r setstat h =
      inr (_, _, sets_bits, attempt_one _ _ not_found _ h (cc, cc) (chown-Adds r))
  perform_one r rename h = inr (
    _,
    _,
    renames,
    attempt_one _ _ not_found _ h (cc, cc) (both_add r (logged_rename r.filepath r.target)),
  )
  perform_one r rmdir h = inr (
    _,
    _,
    removes_directory,
    attempt_one _ _ any_failure _ h (cc, cc) (must_log-Adds (logged_delete r.filepath)),
  )
  perform_one r mkdir h = inr (
    _,
    _,
    makes_directory _ _ (split_apart (clean r.filepath)),
    attempt_one _ _ any_failure _ h (cc, cc) (both_add r (logged_create_directory r.filepath)),
  )
  perform_one r symlink h =
      inr (_, _, links, attempt_one _ _ any_failure _ h (cc, cc) (chown-Adds r))
  perform_one r remove h = inr (
    _,
    _,
    removes,
    attempt_one _ _ not_found _ h (cc, cc) (must_log-Adds (logged_delete r.filepath)),
  )
  perform_one r unknown h = inl (refl, refl, cc)

  performed_outcome :
      (r : Request) (h : Handler S) (done : Handler S × Status)
      → ByMethod r r.method h done
      → Outcomes r h done
  performed_outcome r h done (inl (unknown_, same, failed)) = inl (inr (inl unknown_), same, failed)
  performed_outcome r h done (inr one) = inr one

  dispatch_one :
      (r : Request) (n : Option Text) (h : Handler S)
      → needs fs r.method ≡ n
      → Outcomes r h (dispatch fs r n h)
  unfolding dispatch
  dispatch_one r none h e = inl (inr (inl e), refl, cc)
  dispatch_one r (some t) h e = elim (Bool-cases (can fs t h)) [
    | inl may ↦ rw may (performed_outcome r h (perform fs r r.method h) (perform_one r r.method h))
    | inr not_ ↦ rw not_ (inl (inr (inr (t, e, not_)), refl, cc))
  ]

  unless_read_only :
      (r : Request) (h : Handler S) (b : Bool) (done : Handler S × Status)
      → h.read_only ≡ b
      → Outcomes r h done
      → Outcomes r h (if b then (h, op_unsupported) else done)
  unless_read_only r h true done e o = inl (inl e, refl, cc)
  unless_read_only r h false done e o = o

-- A command over SFTP either leaves everything as it was and is not answered with ok, which happens only if
-- the connection only reads, the method is unknown, or the permission that it needs is not there; or it tries
-- the one change of the files that its method asks for. Where that is fine, all that is done besides is the entry of the log and the
-- owner that belong to the method, in this order, and the answer is ok whatever becomes of them; where it is
-- not fine, nothing more is done and the answer is not ok.
pub filecmd_outcome :
    {S : Type 0} (fs : Files S) (r : Request) (h : Handler S)
    → (Denied fs r h × ((filecmd fs r h).0 ≡ h) × ((filecmd fs r h).1 ≢ ok))
      ⊎ OneChange fs r h (filecmd fs r h)
unfolding filecmd
filecmd_outcome fs r h =
    unless_read_only fs r h h.read_only (dispatch fs r (needs fs r.method) h) refl
      (dispatch_one fs r (needs fs r.method) h refl)
