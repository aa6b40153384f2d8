-- ===== src/Sftp.antt =====
-- sftp/handler.go and utils.go: the requests of a client over SFTP, and which of them reach the files.
pub mod Access
pub mod Pages
pub mod Grants
pub mod Effects
mod Examples
use feathers.Prelude.{
  ℕ, ◌+◌, ◌-◌, Bool, true, false, not, ◌&&◌, ◌||◌, Option, none, some, List, [], ◌∷◌, ◌++◌, ltb,
  leb, ◌==◌, length, take, drop, if◌then◌else◌,
}
use feathers.Prelude.Text.{Text, codes, text_eq, split}
use feathers.Prelude.Filepath.{clean, join}

-- The answers: `sftp.ErrSSHFx...`, and `ErrSSHQuotaExceeded`.
pub data Status : Type 0 where
  ok permission_denied op_unsupported failure no_such_file quota_exceeded : Status

-- `request.Method`; `unknown` is any other text.
pub data Method : Type 0 where
  setstat rename rmdir mkdir symlink remove unknown : Method

-- `sftp.Request`, with the permission bits and the kind of its attributes.
pub record Request : Type 0 where
  pub method : Method
  pub filepath : Text
  pub target : Text
  pub mode : ℕ
  pub is_dir : Bool

-- What a file operation answers: an error for a missing file is told apart from the others.
pub data Outcome : Type 0 where
  fine not_exist broken : Outcome

-- What is done to the files and the log of activity.
pub data Change : Type 0 where
  touched : Text → Change
  chowned : Text → Change
  chmodded : Text → ℕ → Change
  renamed : Text → Text → Change
  deleted : Text → Change
  made_directory : Text → Text → Change
  linked : Text → Text → Change
  logged_create logged_write logged_delete logged_create_directory : Text → Change
  logged_rename : Text → Text → Change

-- server/install.go, and the configuration: what suspends or protects a server.
pub record ServerStatus : Type 0 where
  pub suspended : Bool
  pub installing : Bool
  pub transferring : Bool
  pub restoring : Bool

unfoldable pub is_in_protected_state : ServerStatus → Bool
is_in_protected_state s = s.installing || s.transferring || s.restoring

-- The file system of the server, with its state `S`.
pub record Files (S : Type 0) : Type 0 where
  pub has_space : S → S × Bool
  pub stat : Text → S → Outcome
  pub file : Text → S → Outcome
  pub read_dir : Text → S → Outcome
  pub apply : Change → S → S × Outcome

-- The handler of a connection, with what it has done so far, oldest first.
pub record Handler (S : Type 0) : Type 0 where
  pub permissions : List Text
  pub read_only : Bool
  pub status : ServerStatus
  pub changes : List Change
  pub files : S

-- The search of `can`.
unfoldable pub granted : List Text → Text → Bool
granted [] permission = false
granted (p ∷ ps) permission = text_eq p permission || text_eq p (codes "*") || granted ps permission

unfoldable pub all_but_last : List Text → List Text
all_but_last [] = []
all_but_last (w ∷ []) = []
all_but_last (w ∷ v ∷ ws) = w ∷ all_but_last (v ∷ ws)

unfoldable pub last : List Text → Text
last [] = []
last (w ∷ []) = w
last (w ∷ v ∷ ws) = last (v ∷ ws)

-- The mode that `Setstat` sets.
unfoldable pub mode_of : Request → ℕ
mode_of r = if r.is_dir then 493 else if r.mode == 0 then 420 else r.mode

abbrev pub not_found : Outcome → Status
not_found fine = ok
not_found not_exist = no_such_file
not_found broken = failure

abbrev pub any_failure : Outcome → Status
any_failure fine = ok
any_failure not_exist = failure
any_failure broken = failure

module _ {S : Type 0} (fs : Files S) where
  unfoldable pub can : Text → Handler S → Bool
  unfolding granted is_in_protected_state
  can permission h =
      if h.status.suspended || is_in_protected_state h.status
      then false
      else granted h.permissions permission

  -- A change that is tried: it is recorded whatever it answers.
  unfoldable pub apply : Change → Handler S → Handler S × Outcome
  apply c h =
      let (s, o) = fs.apply c h.files in (record h { changes = h.changes ++ c ∷ []; files = s }, o)

  -- `MustLog`: an error is only logged.
  unfoldable pub must_log : Change → Handler S → Handler S
  unfolding apply
  must_log c h = (apply c h).0

  -- After the switch of `Filecmd`: an error of `Chown` is only logged.
  unfoldable pub chown_target : Request → Handler S → Handler S
  unfolding apply
  chown_target r h = (apply (chowned (if text_eq r.target [] then r.filepath else r.target)) h).0

  unfoldable pub after :
      (Outcome → Status) → (Handler S → Handler S) → Outcome → Handler S → Handler S × Status
  after answer next fine h = (next h, ok)
  after answer next not_exist h = (h, answer not_exist)
  after answer next broken h = (h, answer broken)

  -- A change, then what follows where it was fine.
  unfoldable pub attempt :
      Change → (Outcome → Status) → (Handler S → Handler S) → Handler S → Handler S × Status
  unfolding apply after
  attempt c answer next h = let (h', o) = apply c h in after answer next o h'

  unfoldable pub perform : Request → Method → Handler S → Handler S × Status
  unfolding attempt must_log chown_target mode_of all_but_last last
  perform r setstat h = attempt (chmodded r.filepath (mode_of r)) not_found (chown_target r) h
  perform r rename h =
      attempt (renamed r.filepath r.target) not_found
        (λ h'. chown_target r (must_log (logged_rename r.filepath r.target) h')) h
  perform r rmdir h =
      attempt (deleted (clean r.filepath)) any_failure (must_log (logged_delete r.filepath)) h
  perform r mkdir h =
      let name = split b'/' (clean r.filepath) in
      attempt (made_directory (last name) (join (codes "/") (all_but_last name))) any_failure
        (λ h'. chown_target r (must_log (logged_create_directory r.filepath) h')) h
  perform r symlink h = attempt (linked r.filepath r.target) any_failure (chown_target r) h
  perform r remove h =
      attempt (deleted r.filepath) not_found (must_log (logged_delete r.filepath)) h
  perform r unknown h = (h, op_unsupported)

  -- The permission that a method needs.
  unfoldable pub needs : Method → Option Text
  needs setstat = some (codes "file.update")
  needs rename = some (codes "file.update")
  needs rmdir = some (codes "file.delete")
  needs mkdir = some (codes "file.create")
  needs symlink = some (codes "file.create")
  needs remove = some (codes "file.delete")
  needs unknown = none

  unfoldable pub dispatch : Request → Option Text → Handler S → Handler S × Status
  unfolding perform can
  dispatch r none h = (h, op_unsupported)
  dispatch r (some permission) h =
      let done = perform r r.method h in if can permission h then done else (h, permission_denied)

  unfoldable pub filecmd : Request → Handler S → Handler S × Status
  unfolding dispatch needs
  filecmd r h =
      let done = dispatch r (needs r.method) h in if h.read_only then (h, op_unsupported) else done

  unfoldable pub fileread : Request → Handler S → Status
  unfolding can
  fileread r h =
      if not (can (codes "file.read-content") h)
      then permission_denied
      else not_found (fs.file r.filepath h.files)

  -- Once the permission is there: `Touch`, `Chown`, and the log.
  unfoldable pub touch : Bool → Request → Handler S → Handler S × Status
  unfolding attempt must_log apply
  touch exists r h =
      attempt (touched r.filepath) any_failure
        (λ h'.
          must_log (if exists then logged_write r.filepath else logged_create r.filepath)
            (apply (chowned r.filepath) h').0)
        h

  unfoldable pub touch_checked : Text → Bool → Request → Handler S → Handler S × Status
  unfolding touch can
  touch_checked permission exists r h =
      let done = touch exists r h in if can permission h then done else (h, permission_denied)

  unfoldable pub write_stat : Outcome → Request → Handler S → Handler S × Status
  unfolding touch_checked
  write_stat fine r h = touch_checked (codes "file.update") true r h
  write_stat not_exist r h = touch_checked (codes "file.create") false r h
  write_stat broken r h = (h, failure)

  -- `Filewrite`; ok stands for a writer, which is a `quotaWriterAt`.
  unfoldable pub filewrite : Request → Handler S → Handler S × Status
  unfolding write_stat
  filewrite r h =
      let (s, space) = fs.has_space h.files in
      let h' = record h { files = s } in
      let done = write_stat (fs.stat r.filepath s) r h' in
      if h.read_only then (h, op_unsupported) else if not space then (h', quota_exceeded) else done

  -- `Filelist`: the method is List, Stat, or another.
  unfoldable pub filelist : Option Bool → Request → Handler S → Status
  unfolding can
  filelist lists r h = if not (can (codes "file.read") h) then permission_denied else elim lists [
    | none ↦ op_unsupported
    | some true ↦ any_failure (fs.read_dir r.filepath h.files)
    | some false ↦ not_found (fs.stat r.filepath h.files)
  ]

-- The answer of a writer below: the number of bytes, and whether there was an error, for want of space
-- or another.
pub data WriteError : Type 0 where
  no_write_error disk_space other_error : WriteError

abbrev pub write_status : WriteError → Status
write_status no_write_error = ok
write_status disk_space = quota_exceeded
write_status other_error = failure

-- `quotaWriterAt.WriteAt`, over the writer below and its state `W`.
module _ {W : Type 0} (write_below : List ℕ → ℕ → W → W × ℕ × WriteError) where
  unfoldable pub write_at : ServerStatus → List ℕ → ℕ → W → W × ℕ × Status
  unfolding is_in_protected_state
  write_at st p off w =
      let (w', n, err) = write_below p off w in
      if is_in_protected_state st then (w, 0, permission_denied) else (w', n, write_status err)

module _ {A : Type 0} where
  -- `ListAt` into a slice of a length: what is copied, and whether it is the end.
  unfoldable pub list_at : List A → ℕ → ℕ → List A × Bool
  list_at entries size offset =
      if leb (length entries) offset
      then ([], true)
      else (let copied = take size (drop offset entries) in (copied, ltb (length copied) size))

-- sftp/server.go: `makeCredentialsRequest` joins the permissions that the panel answers, and
-- `NewHandler` splits them again.
unfoldable pub extension : List Text → Text
unfolding join
extension permissions = join (codes ",") permissions

unfoldable pub new_handler : {S : Type 0} → Text → Bool → ServerStatus → S → Handler S
unfolding split
new_handler text ro status s = record {
  permissions = split b',' text;
  read_only = ro;
  status = status;
  changes = [];
  files = s;
}
