-- ===== src/Sftp/Access.antt =====
-- Which requests over SFTP reach the files of a server.
use feathers.Prelude.{
  ◌≡◌, ◌≢◌, refl, ap, inl, inr, ◌⊎◌, Bool, true, false, not, Option, none, some, List, [], ◌∷◌,
  arith, Bool-cases, if◌then◌else◌,
}
use feathers.Prelude.Text.{Text, codes, text_eq_sound, text_eq_refl}
use feathers.Tokens.Permissions.{Holds}
use feathers.Sftp.{
  Status, ok, permission_denied, Request, Outcome, fine, not_exist, broken, is_in_protected_state,
  Files, Handler, granted, can, needs, dispatch, filecmd, filewrite, write_stat, touch_checked,
  fileread, filelist,
}

abbrev pub Admits : List Text → Text → Type 0
Admits ps permission = Holds ps permission ⊎ Holds ps (codes "*")

granted-Admits : (ps : List Text) (t : Text) → granted ps t ≡ true → Admits ps t
unfolding granted
granted-Admits [] t h = cc
granted-Admits (p ∷ ps) t h =
    ground (arith, text_eq_sound p t, text_eq_sound p (codes "*"), granted-Admits ps t)

Admits-granted : (ps : List Text) (t : Text) → Admits ps t → granted ps t ≡ true
unfolding granted
Admits-granted [] t (inl h) = absurd h
Admits-granted [] t (inr h) = absurd h
Admits-granted (p ∷ ps) t (inl (inl e)) = rw e (ground (arith, text_eq_refl t))
Admits-granted (p ∷ ps) t (inr (inl e)) = rw e (ground (arith, text_eq_refl (codes "*")))
Admits-granted (p ∷ ps) t (inl (inr h)) = ground (arith, Admits-granted ps t (inl h))
Admits-granted (p ∷ ps) t (inr (inr h)) = ground (arith, Admits-granted ps t (inr h))

module _ {S : Type 0} (fs : Files S) where
  -- What a handler may do: its server is neither suspended nor protected, and it has the permission or the
  -- wildcard.
  abbrev pub Allowed : Text → Handler S → Type 0
  Allowed permission h =
      (h.status.suspended ≡ false)
      × (is_in_protected_state h.status ≡ false)
      × Admits h.permissions permission

  can-Allowed :
      (permission : Text) (h : Handler S) → can fs permission h ≡ true → Allowed permission h
  unfolding can
  can-Allowed permission h yes_ =
      (ground arith, ground arith, granted-Admits h.permissions permission (ground arith))

  Allowed-can :
      (permission : Text) (h : Handler S) → Allowed permission h → can fs permission h ≡ true
  unfolding can
  Allowed-can permission h (a, b, c) = rw (a, b) (Admits-granted h.permissions permission c)

  -- The permission for a method.
  abbrev pub MayPerform : Request → Handler S → Type 0
  MayPerform r h =
      (h.read_only ≡ false)
      × ((permission : Text) × (needs fs r.method ≡ some permission) × Allowed permission h)

  -- The permission to write a file, an existing or a new one, at the state after the check of the space.
  abbrev pub MayWrite : Request → Handler S → Type 0
  MayWrite r h =
      (h.read_only ≡ false)
      × ((fs.has_space h.files).1 ≡ true)
      × (((fs.stat r.filepath (fs.has_space h.files).0 ≡ fine) × Allowed (codes "file.update") h)
          ⊎ ((fs.stat r.filepath (fs.has_space h.files).0 ≡ not_exist)
              × Allowed (codes "file.create") h))

  -- Nothing was changed, and the client is told so.
  abbrev pub Refused : Handler S × Status → Handler S → Type 0
  Refused m h = (m.0.changes ≡ h.changes) × (m.1 ≢ ok)

  dispatch_guarded :
      (r : Request) (n : Option Text) (h : Handler S)
      → ((permission : Text) × (n ≡ some permission) × Allowed permission h)
        ⊎ Refused (dispatch fs r n h) h
  unfolding dispatch
  dispatch_guarded r none h = inr (refl, cc)
  dispatch_guarded r (some t) h = elim (Bool-cases (can fs t h)) [
    | inl may ↦ inl (t, refl, can-Allowed t h may)
    | inr not_ ↦ inr (rw not_ (refl, cc))
  ]

  filecmd_guarded : (r : Request) (h : Handler S) → MayPerform r h ⊎ Refused (filecmd fs r h) h
  unfolding filecmd
  filecmd_guarded r h = elim (Bool-cases h.read_only) [
    | inl ro ↦ inr (rw ro (refl, cc))
    | inr writable ↦ elim (dispatch_guarded r (needs fs r.method) h) [
      | inl may ↦ inl (writable, may)
      | inr no_ ↦ inr (simp writable no_)
    ]
  ]

  otherwise :
      (P : Handler S × Status → Type 0) (b : Bool) (m n : Handler S × Status)
      → b ≡ false
      → P n
      → P (if b then m else n)
  otherwise P true m n e p = absurd (ground (arith, e))
  otherwise P false m n e p = p

  touch_guarded :
      (t : Text) (exists : Bool) (r : Request) (h : Handler S)
      → Allowed t h ⊎ Refused (touch_checked fs t exists r h) h
  unfolding touch_checked
  touch_guarded t exists r h = elim (Bool-cases (can fs t h)) [
    | inl may ↦ inl (can-Allowed t h may)
    | inr not_ ↦ inr (simp not_ (refl, cc))
  ]

  stat_guarded :
      (o : Outcome) (r : Request) (h : Handler S)
      → (((o ≡ fine) × Allowed (codes "file.update") h)
          ⊎ ((o ≡ not_exist) × Allowed (codes "file.create") h))
        ⊎ Refused (write_stat fs o r h) h
  unfolding write_stat
  stat_guarded fine r h = elim (touch_guarded (codes "file.update") true r h) [
    | inl may ↦ inl (inl (refl, may))
    | inr no_ ↦ inr no_
  ]
  stat_guarded not_exist r h = elim (touch_guarded (codes "file.create") false r h) [
    | inl may ↦ inl (inr (refl, may))
    | inr no_ ↦ inr no_
  ]
  stat_guarded broken r h = inr (refl, cc)

  filewrite_guarded : (r : Request) (h : Handler S) → MayWrite r h ⊎ Refused (filewrite fs r h) h
  unfolding filewrite
  filewrite_guarded r h = elim (Bool-cases h.read_only) [
    | inl ro ↦ inr (simp ro (refl, cc))
    | inr writable ↦ elim (Bool-cases (fs.has_space h.files).1) [
      | inr full ↦ inr (simp (writable, full) (refl, cc))
      | inl space ↦
          let (s, free) = fs.has_space h.files in
          elim (stat_guarded (fs.stat r.filepath s) r (record h { files = s })) [
            | inl may ↦ inl (writable, space, may)
            | inr no_ ↦ inr (
                otherwise (λ m. Refused m h) h.read_only _ _ writable
                  (otherwise (λ m. Refused m h) (not free) _ _ (ap not space) no_))
          ]
    ]
  ]

-- A request over SFTP changes the files of a server, or is answered with ok, only where it may: the handler is
-- not read-only, the server is neither suspended, installing, transferring nor being restored, and the user
-- has the permission of the method, or the wildcard; for a write there has to be space as well, and the
-- permission is that to update an existing file or to create a missing one. Every other request is refused,
-- and nothing is changed or logged. Reading and listing are answered with ok only with their permissions.
pub requests_guarded :
    {S : Type 0} (fs : Files S) (r : Request) (lists : Option Bool) (h : Handler S)
    → (MayPerform fs r h ⊎ Refused fs (filecmd fs r h) h)
      × (MayWrite fs r h ⊎ Refused fs (filewrite fs r h) h)
      × (Allowed fs (codes "file.read-content") h ⊎ (fileread fs r h ≡ permission_denied))
      × (Allowed fs (codes "file.read") h ⊎ (filelist fs lists r h ≡ permission_denied))
unfolding fileread filelist
requests_guarded fs r lists h = (
  filecmd_guarded fs r h,
  filewrite_guarded fs r h,
  elim (Bool-cases (can fs (codes "file.read-content") h)) [
    | inl may ↦ inl (can-Allowed fs (codes "file.read-content") h may)
    | inr not_ ↦ inr (rw not_ refl)
  ],
  elim (Bool-cases (can fs (codes "file.read") h)) [
    | inl may ↦ inl (can-Allowed fs (codes "file.read") h may)
    | inr not_ ↦ inr (rw not_ refl)
  ],
)
